-- ===== src/Scheduler/Oldest.antt =====
-- The order of the latency-aware strategy.
use latency_aware_inference.Common.{
  ℕ, ◌+◌, ◌≤◌, ◌<◌, ◌≡◌, refl, ap, Bool, true, not, List, [], ◌∷◌, ◌++◌, select, take, leb, arith,
  All, leb→le, Bool-cases, inl, inr,
}
use latency_aware_inference.Common.Int.{leb_ℤ-sub_ℕ}
use latency_aware_inference.Task.{age_ms}
use mathlib.Core.Path.{fun_ext}
use latency_aware_inference.Task.Heap.{Heap}
use latency_aware_inference.Scheduler.{
  insert_by, sort_by, Readings, created, choose, is_old, is_fresh,
}

select-All :
    (p : ℕ → Bool) (P : ℕ → Type 0)
    → ((r : ℕ) → p r ≡ true → P r)
    → (xs : List ℕ) → All P (select p xs)
select-All p P h [] = tt
select-All p P h (x ∷ xs) = elim (Bool-cases (p x)) [
  | inl e ↦ rw e (h x e, select-All p P h xs)
  | inr e ↦ rw e (select-All p P h xs)
]

-- Sorting keeps the elements.
module _ (key : ℕ → ℕ) (P : ℕ → Type 0) where
  pub insert_by-All : (x : ℕ) (xs : List ℕ) → P x → All P xs → All P (insert_by key x xs)
  unfolding insert_by
  insert_by-All x [] p a = (p, tt)
  insert_by-All x (y ∷ ys) p a = elim (Bool-cases (leb (key x) (key y))) [
    | inl lo ↦ rw lo (p, a)
    | inr hi ↦ rw hi (a.0, insert_by-All x ys p a.1)
  ]

  pub sort_by-All : (xs : List ℕ) → All P xs → All P (sort_by key xs)
  unfolding sort_by
  sort_by-All [] a = tt
  sort_by-All (x ∷ xs) a = insert_by-All x (sort_by key xs) a.0 (sort_by-All xs a.1)

-- A task has waited for `t` at the reading `now`, or it has not.
module _ (key : ℕ → ℕ) (t now : ℕ) where
  abbrev Old : ℕ → Type 0
  Old r = key r + t ≤ now

  abbrev Fresh : ℕ → Type 0
  Fresh r = now < key r + t

  abbrev waited : ℕ → Bool
  waited r = leb (key r + t) now

  insert_by-Old :
      (x : ℕ) (os fs : List ℕ)
      → Old x
      → All Fresh fs
      → insert_by key x (os ++ fs) ≡ insert_by key x os ++ fs
  unfolding insert_by
  insert_by-Old x [] [] b a = refl
  insert_by-Old x [] (f ∷ fs) b a = ground arith
  insert_by-Old x (o ∷ os) fs b a = ground (arith, insert_by-Old x os fs b a)

  insert_by-Fresh :
      (x : ℕ) (os fs : List ℕ)
      → Fresh x
      → All Old os
      → insert_by key x (os ++ fs) ≡ os ++ insert_by key x fs
  unfolding insert_by
  insert_by-Fresh x [] fs a b = refl
  insert_by-Fresh x (o ∷ os) fs a b = ground (arith, insert_by-Fresh x os fs a b.1)

  -- The old tasks in order, then the fresh ones in order, are all tasks in order.
  sort_by-split :
      (xs : List ℕ)
      → sort_by key xs
        ≡ sort_by key (select waited xs) ++ sort_by key (select (λ r. not (waited r)) xs)
  unfolding sort_by
  sort_by-split [] = refl
  sort_by-split (x ∷ xs) = elim (Bool-cases (waited x)) [
    | inl old ↦
        rw (old, sort_by-split xs)
          (insert_by-Old x _ _ (leb→le _ _ old) (
            sort_by-All key Fresh _
              (select-All (λ r. not (waited r)) Fresh (λ r h. ground arith) xs)))
    | inr new ↦
        rw (new, sort_by-split xs)
          (insert_by-Fresh x _ _ (ground arith)
            (sort_by-All key Old _ (select-All waited Old (λ r h. ground arith) xs)))
  ]

-- With one reading for the whole call the threshold plays no part: the batch is the oldest tasks
-- of the buffer, in order of creation, ties in the order of the buffer.
pub choose-oldest :
    (h : Heap) (e : Readings) (now : ℕ) (buffer : List ℕ)
    → ((r : ℕ) → e.old_clock r ≡ now)
    → ((r : ℕ) → e.fresh_clock r ≡ now)
    → choose h e buffer ≡ take e.cut_size (sort_by (created h e) buffer)
unfolding choose age_ms
choose-oldest h e now buffer o f =
    let old : is_old h e ≡ waited (created h e) e.threshold now =
      fun_ext (λ r. rw (o r) (leb_ℤ-sub_ℕ now (h r).creation_time e.threshold)) in
    let fresh : is_fresh h e ≡ (λ r. not (waited (created h e) e.threshold now r)) =
      fun_ext (λ r. rw (f r) (ap not (leb_ℤ-sub_ℕ now (h r).creation_time e.threshold))) in
    rw (old, fresh, ← sort_by-split (created h e) e.threshold now buffer)
