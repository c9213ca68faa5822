-- ===== src/Task/Heap.antt =====
-- The task objects, by identity. The queue, the workers and the handlers hold references to one
-- object, so that an update through one of them is seen through all.
use latency_aware_inference.Common.{
  ℕ, ◌≡◌, sym, subst, true, List, [], ◌∷◌, arith, if◌then◌else◌, ◌==◌, ==_iff, Bool-cases, inl, inr,
}
use latency_aware_inference.Common.{All}
use latency_aware_inference.Task.{Task, is_terminal}
use latency_aware_inference.Task.Lifecycle.{Evolves, Evolves-refl, Evolves-trans}

abbrev pub Heap : Type 0
Heap = ℕ → Task

abbrev pub write : ℕ → Task → Heap → Heap
write r t h q = if q == r then t else h q

-- A method called on the object `r`.
abbrev pub on : ℕ → (Task → Task) → Heap → Heap
on r f h = write r (f (h r)) h

-- `for task in batch: f(task)`
abbrev pub each : (Task → Task) → List ℕ → Heap → Heap
each f [] h = h
each f (r ∷ rs) h = each f rs (on r f h)

abbrev pub IsTerminal : Heap → ℕ → Type 0
IsTerminal h r = is_terminal (h r).status ≡ true

pub record HeapEvolves (h h' : Heap) : Type 0 where
  pub at : (r : ℕ) → Evolves (h r) (h' r)

pub HeapEvolves-refl : (h : Heap) → HeapEvolves h h
HeapEvolves-refl h = record { at = λ r. Evolves-refl (h r) }

pub HeapEvolves-trans : {h k l : Heap} → HeapEvolves h k → HeapEvolves k l → HeapEvolves h l
HeapEvolves-trans a b = record { at = λ r. Evolves-trans (a.at r) (b.at r) }

write-at : (h : Heap) (r : ℕ) (t : Task) → Evolves (h r) t → (q : ℕ) → Evolves (h q) (write r t h q)
write-at h r t e q = elim (Bool-cases (q == r)) [
  | inl same ↦ rw same (subst (λ k. Evolves (h k) t) (sym ((==_iff q r).0 same)) e)
  | inr other ↦ rw other (Evolves-refl (h q))
]

pub write-HeapEvolves :
    (h : Heap) (r : ℕ) (t : Task) → Evolves (h r) t → HeapEvolves h (write r t h)
write-HeapEvolves h r t e = record { at = write-at h r t e }

pub on-HeapEvolves :
    (f : Task → Task)
    → ((t : Task) → Evolves t (f t))
    → (r : ℕ) (h : Heap) → HeapEvolves h (on r f h)
on-HeapEvolves f e r h = record { at = write-at h r (f (h r)) (e (h r)) }

pub each-HeapEvolves :
    (f : Task → Task)
    → ((t : Task) → Evolves t (f t))
    → (rs : List ℕ) (h : Heap) → HeapEvolves h (each f rs h)
each-HeapEvolves f e [] h = HeapEvolves-refl h
each-HeapEvolves f e (r ∷ rs) h =
    HeapEvolves-trans (on-HeapEvolves f e r h) (each-HeapEvolves f e rs (on r f h))

-- What is terminal stays terminal.
pub HeapEvolves-IsTerminal :
    {h k : Heap} → HeapEvolves h k → (r : ℕ) → IsTerminal h r → IsTerminal k r
HeapEvolves-IsTerminal e r d = rw ((e.at r).frozen d) d

pub on_self : (f : Task → Task) (r : ℕ) (h : Heap) → on r f h r ≡ f (h r)
on_self f r h = ground arith

-- A method that ends every task ends every task of the batch.
pub each-IsTerminal :
    (f : Task → Task)
    → ((t : Task) → Evolves t (f t))
    → ((t : Task) → is_terminal (f t).status ≡ true)
    → (rs : List ℕ) (h : Heap) → All (IsTerminal (each f rs h)) rs
each-IsTerminal f e ends [] h = tt
each-IsTerminal f e ends (r ∷ rs) h = (
  HeapEvolves-IsTerminal (each-HeapEvolves f e rs (on r f h)) r (rw (on_self f r h) (ends (h r))),
  each-IsTerminal f e ends rs (on r f h),
)

pub All-evolves :
    {h k : Heap} → HeapEvolves h k → (rs : List ℕ) → All (IsTerminal h) rs → All (IsTerminal k) rs
All-evolves e [] a = tt
All-evolves e (r ∷ rs) a = (HeapEvolves-IsTerminal e r a.0, All-evolves e rs a.1)
