-- ===== src/Queue/Fifo.antt =====
-- The queue against its specification.
use latency_aware_inference.Common.{
  ℕ, zero, suc, ◌+◌, ◌≤◌, ◌<◌, ◌≡◌, refl, sym, ap, ◌∙◌, Bool, true, false, Option, none, some, List,
  [], ◌∷◌, ◌++◌, length, length-append, take, drop, take-drop, arith, inl, inr, ◌⊎◌,
}
use mathlib.Core.List.{append_assoc, append-nil}
use latency_aware_inference.Queue.{
  TaskQueue, new_queue, is_full, put, get, take_now, taken, drain, stats,
}

-- `get` fails on the empty queue only, and otherwise takes the oldest task.
pub get_cases :
    (q : TaskQueue)
    → ((q.items ≡ []) × (get q ≡ (none, q)))
      ⊎ ((x : ℕ) × (rest : List ℕ) × (q.items ≡ x ∷ rest) × (get q ≡ (some x, taken q rest)))
unfolding get
get_cases q = go q.items refl
  where
    go :
        (xs : List ℕ)
        → q.items ≡ xs
        → ((q.items ≡ []) × (get q ≡ (none, q)))
          ⊎ ((x : ℕ) × (rest : List ℕ) × (q.items ≡ x ∷ rest) × (get q ≡ (some x, taken q rest)))
    go [] e = inl (e, ground arith)
    go (x ∷ rest) e = inr (x, rest, e, ground arith)

-- The calls that threads make, in the order in which they take effect.
pub data Call : Type 0 where
  puts : ℕ → Call
  gets : Call
  drains : ℕ → Call

-- The queue after a call, with the tasks that the call put in and those that it took out.
pub record Effect : Type 0 where
  pub after : TaskQueue
  pub entered : List ℕ
  pub left : List ℕ

abbrev of_put : TaskQueue → ℕ → Option TaskQueue → Effect
of_put q task none = record { after = q; entered = []; left = [] }
of_put q task (some q') = record { after = q'; entered = task ∷ []; left = [] }

abbrev of_get : Option ℕ × TaskQueue → Effect
of_get (none, q) = record { after = q; entered = []; left = [] }
of_get (some task, q) = record { after = q; entered = []; left = task ∷ [] }

unfoldable pub call : TaskQueue → Call → Effect
call q (puts task) = of_put q task (put q task)
call q gets = of_get (get q)
call q (drains n) = let (got, q') = drain n q in record { after = q'; entered = []; left = got }

unfoldable pub run : TaskQueue → List Call → Effect
run q [] = record { after = q; entered = []; left = [] }
run q (c ∷ cs) =
    let first = call q c in
    let rest = run first.after cs in
    record {
      after = rest.after;
      entered = first.entered ++ rest.entered;
      left = first.left ++ rest.left;
    }

-- Two stretches of a queue's history, joined.
append_chain :
    (all out mid inn out' rest inn' : List ℕ)
    → out ++ mid ≡ all ++ inn
    → out' ++ rest ≡ mid ++ inn'
    → (out ++ out') ++ rest ≡ all ++ (inn ++ inn')
append_chain all out mid inn out' rest inn' p p' =
    append_assoc out out' rest
    ∙ ap (◌++◌ out) p'
    ∙ sym (append_assoc out mid inn')
    ∙ ap (λ xs. xs ++ inn') p
    ∙ append_assoc all inn inn'

take_now_lem : (n : ℕ) (xs : List ℕ) → take_now n xs ≡ (take n xs, drop n xs)
take_now_lem zero xs = refl
take_now_lem (suc n) [] = refl
take_now_lem (suc n) (x ∷ xs) = rw (take_now_lem n xs)

-- `drain` takes the oldest tasks, up to its limit, and leaves the others in order.
pub drain_lem :
    (n : ℕ) (q : TaskQueue)
    → ((drain n q).0 ≡ take n q.items)
      × ((drain n q).1.items ≡ drop n q.items)
      × ((drain n q).1.total_dequeued ≡ q.total_dequeued + length (take n q.items))
unfolding drain
drain_lem n q = rw (take_now_lem n q.items) (refl, refl, refl)

-- What one call keeps: arrivals come out in order, and the counters count.
pub record Keeps (q : TaskQueue) (e : Effect) : Type 0 where
  pub order : e.left ++ e.after.items ≡ q.items ++ e.entered
  pub bound : e.after.maxsize ≡ q.maxsize
  pub counted_in : e.after.total_enqueued ≡ q.total_enqueued + length e.entered
  pub counted_out : e.after.total_dequeued ≡ q.total_dequeued + length e.left

get-Keeps : (q : TaskQueue) (xs : List ℕ) → q.items ≡ xs → Keeps q (of_get (get q))
unfolding get
get-Keeps q [] e =
    rw (e, get)
      (record {
        order = ground (arith, append-nil q.items);
        bound = refl;
        counted_in = omega arith;
        counted_out = omega arith;
      })
get-Keeps q (x ∷ xs) e =
    rw (e, get)
      (record {
        order = ground (arith, append-nil q.items);
        bound = refl;
        counted_in = omega arith;
        counted_out = omega arith;
      })

put-Keeps :
    (q : TaskQueue) (task : ℕ) (full : Bool)
    → is_full q ≡ full
    → Keeps q (of_put q task (put q task))
unfolding put
put-Keeps q task true e = rw e (record {
  order = rw append-nil refl;
  bound = refl;
  counted_in = omega arith;
  counted_out = omega arith;
})
put-Keeps q task false e =
    rw e
      (record { order = refl; bound = refl; counted_in = omega arith; counted_out = omega arith })

call-Keeps : (q : TaskQueue) (c : Call) → Keeps q (call q c)
unfolding call
call-Keeps q (puts task) = put-Keeps q task (is_full q) refl
call-Keeps q gets = get-Keeps q q.items refl
call-Keeps q (drains n) = record {
  order = rw ((drain_lem n q).0, (drain_lem n q).1) (rw append-nil (take-drop n q.items));
  bound = unfold drain in refl;
  counted_in = unfold drain in omega arith;
  counted_out = rw ((drain_lem n q).0, (drain_lem n q).2) refl;
}

-- No sequence of calls of `put`, `get` and `drain` loses, duplicates, makes up or reorders a task.
pub run-Keeps : (q : TaskQueue) (cs : List Call) → Keeps q (run q cs)
unfolding run
run-Keeps q [] = record {
  order = rw append-nil refl;
  bound = refl;
  counted_in = omega arith;
  counted_out = omega arith;
}
run-Keeps q (c ∷ cs) =
    let first = call-Keeps q c in
    let rest = run-Keeps (call q c).after cs in
    record {
      order =
          append_chain q.items (call q c).left (call q c).after.items (call q c).entered _ _ _
            first.order rest.order;
      bound = rest.bound ∙ first.bound;
      counted_in = omega (
        arith,
        first.counted_in,
        rest.counted_in,
        length-append (call q c).entered (run (call q c).after cs).entered,
      );
      counted_out = omega (
        arith,
        first.counted_out,
        rest.counted_out,
        length-append (call q c).left (run (call q c).after cs).left,
      );
    }

-- From an empty queue: what came out, followed by what is inside, is what went in, in order; and
-- the counters differ by the size.
pub run-new_queue :
    (n : ℕ) (cs : List Call)
    → let e = run (new_queue n) cs in
      (e.left ++ e.after.items ≡ e.entered)
      × ((stats e.after).enqueued ≡ (stats e.after).dequeued + (stats e.after).queue_size)
unfolding stats new_queue
run-new_queue n cs =
    let k = run-Keeps (new_queue n) cs in
    let e = run (new_queue n) cs in
    (
      k.order,
      omega (
        arith,
        k.counted_in,
        k.counted_out,
        ap length k.order,
        length-append e.left e.after.items,
      ),
    )

abbrev pub WithinBound : TaskQueue → Type 0
WithinBound q = 0 < q.maxsize → length q.items ≤ q.maxsize

length-drop-le : (n : ℕ) (xs : List ℕ) → length (drop n xs) ≤ length xs
length-drop-le zero xs = omega arith
length-drop-le (suc n) [] = omega arith
length-drop-le (suc n) (x ∷ xs) = omega (arith, length-drop-le n xs)

call-WithinBound : (q : TaskQueue) (c : Call) → WithinBound q → WithinBound (call q c).after
unfolding call put get
call-WithinBound q (puts task) h p = ground (arith, length-append q.items (task ∷ []))
call-WithinBound q gets h p = ground arith
call-WithinBound q (drains n) h p =
    rw (drain_lem n q).1 (unfold drain in omega (arith, length-drop-le n q.items, h p))

-- A bounded queue never holds more than `maxsize` tasks.
pub run-WithinBound :
    (q : TaskQueue) (cs : List Call) → WithinBound q → WithinBound (run q cs).after
unfolding run
run-WithinBound q [] h = h
run-WithinBound q (c ∷ cs) h = run-WithinBound (call q c).after cs (call-WithinBound q c h)
