-- ===== src/JobStore/Lease.antt =====
-- The leases, and the rows of finished jobs.
use latency_aware_inference.Common.{
  ℕ, ◌+◌, ◌*◌, ◌≡◌, refl, subst, ◌∙◌, ◌≤◌, ◌<◌, ◌≢◌, ◌⊎◌, Bool, true, false, ◌||◌, Option, none,
  some, List, [], ◌∷◌, ◌==◌, if◌then◌else◌, arith, Bool-cases, if_cases, All, inl, inr, ==_refl,
  ==_iff,
}
use latency_aware_inference.JobStore.{
  Job, Table, running, is_due, holds, leased, candidate, claim, renew, complete, defer,
  expire_deadlines, fenced, set_row, is_queued, is_running, expired_row, get,
}
use Prim.Native.Nat.{min}
use latency_aware_inference.JobStore.Candidate.{IsBest, IsClaimable, candidate-IsBest}
use latency_aware_inference.JobStore.Calls.{
  Call, claim_call, renew_call, complete_call, defer_call, expire_call, call, run, IsForeign,
}

-- The attempt `a` holds the row `j` until `limit`.
record IsLeased (a limit : ℕ) (j : Job) : Type 0 where
  status_running : j.status ≡ running
  attempt : j.attempt_id ≡ some a
  lease : j.lease_until ≡ some limit
  in_time : limit ≤ j.deadline_at

module _ (a limit : ℕ) (j : Job) (h : IsLeased a limit j) where
  not_due : (now : ℕ) → now < limit → is_due now j ≡ false
  unfolding is_due
  not_due now l = rw (h.status_running, h.lease) (ground arith)

  not_overdue : (now : ℕ) → now < limit → expired_row now j ≡ j
  not_overdue now l = rw (h.status_running) (ground (arith, h.in_time))

  not_held : (b now : ℕ) → b ≢ a → holds b now j ≡ false
  unfolding holds
  not_held b now d = rw (h.attempt) (ground arith)

set_row_other : (i id : ℕ) (j : Job) (t : Table) → id ≢ i → (set_row id j t).rows i ≡ t.rows i
set_row_other i id j t d = ground arith

-- A statement that cannot change the row `j` of the key `i`.
unfoldable IsHarmless : ℕ → Job → Call → Type 0
IsHarmless i j (claim_call locked now wanted b lease) = is_due now j ≡ false
IsHarmless i j (renew_call now id b lease) = (id ≢ i) ⊎ (holds b now j ≡ false)
IsHarmless i j (complete_call now id b result error) = (id ≢ i) ⊎ (holds b now j ≡ false)
IsHarmless i j (defer_call now id b error retry) = (id ≢ i) ⊎ (holds b now j ≡ false)
IsHarmless i j (expire_call now) = expired_row now j ≡ j

module _ (i : ℕ) (j : Job) (t : Table) (e : t.rows i ≡ some j) where
  fenced-keeps :
      (change : Job → Job) (now id b : ℕ)
      → (id ≢ i) ⊎ (holds b now j ≡ false)
      → (fenced change now id b t).1.rows i ≡ some j
  fenced-keeps change now id b d = split (t.rows id) refl
    where
      clash :
          (k : Job) → id ≡ i → t.rows id ≡ some k → holds b now k ≡ true → holds b now j ≡ false → ⊥
      clash k same f held unheld = ground (arith, same, f, e, held, unheld)

      kept :
          (k : Job)
          → t.rows id ≡ some k
          → holds b now k ≡ true
          → (set_row id (change k) t).rows i ≡ some j
      kept k f held = elim (Bool-cases (id == i)) [
        | inl same ↦ elim d [
          | inl other ↦ elim (other ((==_iff id i).0 same)) [ ]
          | inr foreign ↦ elim (clash k ((==_iff id i).0 same) f held foreign) [ ]
        ]
        | inr other ↦ set_row_other i id (change k) t (λ same. ground (arith, other, same)) ∙ e
      ]

      split :
          (o : Option Job)
          → t.rows id ≡ o
          → (elim o as (λ _. Bool × Table) [
            | none ↦ (false, t)
            | some k ↦ if holds b now k then (true, set_row id (change k) t) else (false, t)
          ]).1.rows
              i
            ≡ some j
      split none f = e
      split (some k) f =
          if_cases (λ (x : Bool × Table). x.1.rows i ≡ some j) (holds b now k) _ _ (kept k f)
            (λ _. e)

  claim-keeps :
      (locked : ℕ → Bool) (now : ℕ) (wanted : Option ℕ) (b lease : ℕ)
      → is_due now j ≡ false
      → (claim locked now wanted b lease t).1.rows i ≡ some j
  unfolding claim IsBest IsClaimable
  claim-keeps locked now wanted b lease l =
      split (candidate locked wanted now t.rows t.ids)
        (candidate-IsBest locked wanted now t.rows t.ids)
    where
      clash : (id : ℕ) (k : Job) → id ≡ i → t.rows id ≡ some k → is_due now k ≡ true → ⊥
      clash id k same f due = ground (arith, same, f, e, due, l)

      split :
          (o : Option (ℕ × Job))
          → IsBest t.rows (IsClaimable locked wanted now t.rows) t.ids o
          → (elim o as (λ _. Option (ℕ × Job) × Table) [
            | none ↦ (none, t)
            | some (id, k) ↦ (some (id, leased now b lease k), set_row id (leased now b lease k) t)
          ]).1.rows
              i
            ≡ some j
      split none best = e
      split (some (id, k)) best = elim (Bool-cases (id == i)) [
        | inl same ↦
            elim (clash id k ((==_iff id i).0 same) best.0.0 (ground (arith, best.0.1))) [ ]
        | inr other ↦
            set_row_other i id (leased now b lease k) t (λ same. ground (arith, other, same)) ∙ e
      ]

  call-keeps : (c : Call) → IsHarmless i j c → (call c t).rows i ≡ some j
  unfolding call IsHarmless renew complete defer expire_deadlines
  call-keeps (claim_call locked now wanted b lease) f = claim-keeps locked now wanted b lease f
  call-keeps (renew_call now id b lease) f = fenced-keeps _ now id b f
  call-keeps (complete_call now id b result error) f = fenced-keeps _ now id b f
  call-keeps (defer_call now id b error retry) f = fenced-keeps _ now id b f
  call-keeps (expire_call now) f = rw (e, f) refl

run-keeps :
    (i : ℕ) (j : Job) (cs : List Call) (t : Table)
    → t.rows i ≡ some j
    → All (IsHarmless i j) cs
    → (run cs t).rows i ≡ some j
unfolding run
run-keeps i j [] t e f = e
run-keeps i j (c ∷ cs) t e f = run-keeps i j cs (call c t) (call-keeps i j t e c f.0) f.1

module _ (i a limit : ℕ) (j : Job) (h : IsLeased a limit j) where
  foreign-IsHarmless : (c : Call) → IsForeign i a limit c → IsHarmless i j c
  unfolding IsForeign IsHarmless
  foreign-IsHarmless (claim_call locked now wanted b lease) f = not_due a limit j h now f
  foreign-IsHarmless (renew_call now id b lease) (inl f) = inl f
  foreign-IsHarmless (renew_call now id b lease) (inr f) = inr (not_held a limit j h b now f)
  foreign-IsHarmless (complete_call now id b result error) (inl f) = inl f
  foreign-IsHarmless (complete_call now id b result error) (inr f) =
      inr (not_held a limit j h b now f)
  foreign-IsHarmless (defer_call now id b error retry) (inl f) = inl f
  foreign-IsHarmless (defer_call now id b error retry) (inr f) = inr (not_held a limit j h b now f)
  foreign-IsHarmless (expire_call now) f = not_overdue a limit j h now f

All-map : {P Q : Call → Type 0} → ((c : Call) → P c → Q c) → (cs : List Call) → All P cs → All Q cs
All-map f [] h = tt
All-map f (c ∷ cs) h = (f c h.0, All-map f cs h.1)

always : {P : Call → Type 0} → ((c : Call) → P c) → (cs : List Call) → All P cs
always f [] = tt
always f (c ∷ cs) = (f c, always f cs)

leased-IsLeased :
    (now a lease_seconds : ℕ) (k : Job)
    → IsLeased a (min (now + lease_seconds * 1000) k.deadline_at) (leased now a lease_seconds k)
unfolding leased
leased-IsLeased now a lease_seconds k = record {
  status_running = refl;
  attempt = refl;
  lease = refl;
  in_time = omega arith;
}

final-IsHarmless :
    (i : ℕ) (j : Job)
    → (is_queued j.status || is_running j.status) ≡ false
    → (c : Call) → IsHarmless i j c
unfolding IsHarmless is_due holds
final-IsHarmless i j f (claim_call locked now wanted b lease) = ground arith
final-IsHarmless i j f (renew_call now id b lease) = inr (ground arith)
final-IsHarmless i j f (complete_call now id b result error) = inr (ground arith)
final-IsHarmless i j f (defer_call now id b error retry) = inr (ground arith)
final-IsHarmless i j f (expire_call now) = rw f refl

-- A claim that takes a row leases it to its attempt: until the end of that lease, no sequence of
-- statements of other attempts, whatever they claim, renew, complete, defer or expire, changes
-- the row.
pub claim-exclusive :
    (locked : ℕ → Bool) (now : ℕ) (wanted : Option ℕ) (a lease_seconds i : ℕ) (j : Job) (t : Table)
    → (claim locked now wanted a lease_seconds t).0 ≡ some (i, j)
    → (cs : List Call) → All (IsForeign i a (min (now + lease_seconds * 1000) j.deadline_at)) cs
    → get (run cs (claim locked now wanted a lease_seconds t).1) i ≡ some j
unfolding claim get
claim-exclusive locked now wanted a lease_seconds i j t e cs f =
    split (candidate locked wanted now t.rows t.ids) e
  where
    held :
        (id : ℕ) (k : Job)
        → id ≡ i
        → leased now a lease_seconds k ≡ j
        → (run cs (set_row id (leased now a lease_seconds k) t)).rows i ≡ some j
    held id k same new =
        run-keeps i j cs (set_row id (leased now a lease_seconds k) t)
          (rw (same, ==_refl i, new) refl)
          (All-map
            (foreign-IsHarmless i a (min (now + lease_seconds * 1000) j.deadline_at) j (
              subst (λ x. IsLeased a (min (now + lease_seconds * 1000) x.deadline_at) x) new
                (leased-IsLeased now a lease_seconds k)))
            cs f)

    split :
        (o : Option (ℕ × Job))
        → (elim o as (λ _. Option (ℕ × Job) × Table) [
          | none ↦ (none, t)
          | some (id, k) ↦
              (some (id, leased now a lease_seconds k), set_row id (leased now a lease_seconds k) t)
        ]).0
          ≡ some (i, j)
        → (run cs
              (elim o as (λ _. Option (ℕ × Job) × Table) [
                | none ↦ (none, t)
                | some (id, k) ↦ (
                  some (id, leased now a lease_seconds k),
                  set_row id (leased now a lease_seconds k) t,
                )
              ]).1).rows
            i
          ≡ some j
    split none g = ground arith
    split (some (id, k)) g = held id k (cc g) (cc g)

-- No sequence of statements changes a job that succeeded or failed.
pub run-final :
    (i : ℕ) (j : Job) (t : Table)
    → get t i ≡ some j
    → (is_queued j.status || is_running j.status) ≡ false
    → (cs : List Call) → get (run cs t) i ≡ some j
unfolding get
run-final i j t e final cs = run-keeps i j cs t e (always (final-IsHarmless i j final) cs)
