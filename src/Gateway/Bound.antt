-- ===== src/Gateway/Bound.antt =====
-- The number of the attempts in progress.
use latency_aware_inference.Common.{
  ℕ, zero, suc, ◌+◌, ◌-◌, ◌≤◌, ◌≡◌, true, not, ◌&&◌, Option, none, some, List, [], ◌∷◌, length, ltb,
  ◌==◌, str_eq, if◌then◌else◌, if_cases, arith,
}
use latency_aware_inference.Queue.{TaskQueue, put}
use latency_aware_inference.JobStore.{Job, Table, claim, expire_deadlines}
use latency_aware_inference.JobStore
use latency_aware_inference.Gateway.{
  Settings, Active, Gateway, Round, set_active, queued, enqueue, claimed, submit, remaining,
  poll_entries, poll_entry, admitted, admit, poll,
}

set_active-length : (a : Active) (bs : List Active) → length (set_active a bs) ≤ suc (length bs)
set_active-length a [] = omega arith
set_active-length a (b ∷ bs) =
    if_cases (λ (x : List Active). length x ≤ suc (length (b ∷ bs))) (b.job_id == a.job_id) _ _
      (λ _. omega arith) (λ _. omega (arith, set_active-length a bs))

length-enqueue :
    (c : Settings) (e : Round) (id : ℕ) (j : Job) (g : Gateway)
    → length (enqueue c e id j g).active ≤ suc (length g.active)
unfolding enqueue
length-enqueue c e id j g =
    if_cases (λ (x : Gateway). length x.active ≤ suc (length g.active))
      (not (str_eq (c.fingerprint j.spec) j.spec_sha256)) _ _ (λ _. omega arith)
      (λ _. placed (put g.queue g.next_task))
  where
    placed : (o : Option TaskQueue) → length (queued c e id j g o).active ≤ suc (length g.active)
    placed none = omega arith
    placed (some q) = set_active-length _ g.active

length-claimed :
    (c : Settings) (e : Round) (g : Gateway) (row : Option (ℕ × Job) × Table)
    → length (claimed c e g row).active ≤ suc (length g.active)
length-claimed c e g (none, t) = omega arith
length-claimed c e g (some (id, j), t) = length-enqueue c e id j (record g { table = t })

length-remaining :
    (o : Option Active) (rest : List Active) → length (remaining o rest) ≤ suc (length rest)
length-remaining none rest = omega arith
length-remaining (some a) rest = omega arith

poll_entries-length :
    (c : Settings) (e : ℕ → Round) (i : ℕ) (entries : List Active) (g : Gateway)
    → length (poll_entries c e i entries g).0 ≤ length entries
unfolding poll_entries
poll_entries-length c e i [] g = omega arith
poll_entries-length c e i (a ∷ rest) g =
    let (kept, g') = poll_entry c (e i) a g in
    omega (
      arith,
      length-remaining kept (poll_entries c e (suc i) rest g').0,
      poll_entries-length c e (suc i) rest g',
    )

admit-length :
    (c : Settings) (e : ℕ → Round) (i n : ℕ) (g : Gateway)
    → length (admit c e i n g).active ≤ length g.active + n
unfolding admit
admit-length c e i zero g = omega arith
admit-length c e i (suc n) g =
    chosen (claim (e i).locked (e i).database none (e i).attempt c.lease_seconds g.table)
      (λ x. admit-length c e (suc i) n x)
  where
    chosen :
        (row : Option (ℕ × Job) × Table)
        → ((x : Gateway) → length (admit c e (suc i) n x).active ≤ length x.active + n)
        → length (admitted c (e i) g row (admit c e (suc i) n (claimed c (e i) g row))).active
          ≤ length g.active + suc n
    chosen (none, t) k = omega arith
    chosen (some (id, j), t) k =
        omega (
          arith,
          k (claimed c (e i) g (some (id, j), t)),
          length-claimed c (e i) g (some (id, j), t),
        )

-- A call of the gateway.
pub data Call : Type 0 where
  submits : Round → ℕ → Call
  polls : ℕ → (ℕ → Round) → (ℕ → Round) → Call

unfoldable pub call : Settings → Call → Gateway → Gateway
unfolding submit poll
call c (submits e id) g = (submit c e id g).1
call c (polls now e f) g = poll c now e f g

unfoldable pub run : Settings → List Call → Gateway → Gateway
unfolding call
run c [] g = g
run c (x ∷ xs) g = run c xs (call c x g)

length-submit :
    (c : Settings) (e : Round) (id : ℕ) (g : Gateway)
    → length g.active ≤ c.max_inflight
    → length (submit c e id g).1.active ≤ c.max_inflight
unfolding submit
length-submit c e id g h = row (JobStore.get g.table id)
  where
    admits :
        length
          (if ltb (length g.active) c.max_inflight && not g.stopped
            then claimed c e g
                (claim e.locked e.database (some id) e.attempt c.lease_seconds g.table)
            else g).active
        ≤ c.max_inflight
    admits =
        if_cases (λ (x : Gateway). length x.active ≤ c.max_inflight)
          (ltb (length g.active) c.max_inflight && not g.stopped) _ _
          (λ b.
            below
              (claimed c e g
                (claim e.locked e.database (some id) e.attempt c.lease_seconds g.table))
              b
              (length-claimed c e g
                (claim e.locked e.database (some id) e.attempt c.lease_seconds g.table)))
          (λ _. h)
      where
        below :
            (x : Gateway)
            → (ltb (length g.active) c.max_inflight && not g.stopped) ≡ true
            → length x.active ≤ suc (length g.active)
            → length x.active ≤ c.max_inflight
        below x b k = ground (arith, b, k)

    row :
        (o : Option Job)
        → length
            (elim o as (λ _. Option Job × Gateway) [
              | none ↦ (none, g)
              | some r ↦
                  let g' =
                    if ltb (length g.active) c.max_inflight && not g.stopped
                    then claimed c e g
                        (claim e.locked e.database (some id) e.attempt c.lease_seconds g.table)
                    else g in
                  (JobStore.get g'.table id, g')
            ]).1.active
          ≤ c.max_inflight
    row none = h
    row (some r) = admits

length-poll :
    (c : Settings) (now : ℕ) (e f : ℕ → Round) (g : Gateway)
    → length g.active ≤ c.max_inflight
    → length (poll c now e f g).active ≤ c.max_inflight
unfolding poll
length-poll c now e f g h =
    let start = record g { table = (expire_deadlines now g.table).1 } in
    let (kept, polled) = poll_entries c e 0 g.active start in
    omega (
      arith,
      h,
      poll_entries-length c e 0 g.active start,
      admit-length c f 0 (c.max_inflight - length kept) (record polled { active = kept }),
    )

-- No sequence of submissions and polls, whatever they find in the database, the queue and the
-- tasks, takes the number of the attempts in progress above `max_inflight`.
pub run-bound :
    (c : Settings) (xs : List Call) (g : Gateway)
    → length g.active ≤ c.max_inflight
    → length (run c xs g).active ≤ c.max_inflight
unfolding run call
run-bound c [] g h = h
run-bound c (submits e id ∷ xs) g h = run-bound c xs (submit c e id g).1 (length-submit c e id g h)
run-bound c (polls now e f ∷ xs) g h = run-bound c xs (poll c now e f g) (length-poll c now e f g h)
