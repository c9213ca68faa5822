-- ===== src/Server/Answers.antt =====
-- The answers of a call, by task.
use latency_aware_inference.Common.{
  ℕ, zero, suc, ◌+◌, ◌<◌, ◌≤◌, ◌≡◌, refl, sym, ap, subst, Bool, true, false, not, Option, none,
  some, String, str_eq, List, [], ◌∷◌, ◌++◌, map, length, leb, is_empty, if◌then◌else◌, arith,
  if_cases,
}
use latency_aware_inference.Proxy.Process.{Parsed, parsed, malformed, TaskResult}
use latency_aware_inference.Worker.{Square, square, type_error, squared, input_x}
use latency_aware_inference.Server.{
  preceded, ServerTask, Environment, deadlines, is_late, failure, sift, wait_loop, compute,
  computed, finish_loop, finished, total_ms, process_batch,
}

-- How often an identity occurs.
unfoldable pub count_tasks : String → List ServerTask → ℕ
count_tasks id [] = 0
count_tasks id (t ∷ ts) = (if str_eq t.task_id id then 1 else 0) + count_tasks id ts

unfoldable pub count_results : String → List TaskResult → ℕ
count_results id [] = 0
count_results id (r ∷ rs) = (if str_eq r.task_id id then 1 else 0) + count_results id rs

count_results-append :
    (id : String) (xs ys : List TaskResult)
    → count_results id (xs ++ ys) ≡ count_results id xs + count_results id ys
unfolding count_results
count_results-append id [] ys = omega arith
count_results-append id (x ∷ xs) ys = omega (arith, count_results-append id xs ys)

sift-counts :
    (id : String) (d : String → Option ℕ) (clock : ℕ → ℕ) (i : ℕ) (ts : List ServerTask)
    → let (results, active) = sift d clock i ts in
      count_results id results + count_tasks id active ≡ count_tasks id ts
unfolding count_results count_tasks
sift-counts id d clock i [] = omega arith
sift-counts id d clock i (t ∷ ts) =
    let (results, active) = sift d clock (suc i) ts in
    if_cases
      (λ (x : List TaskResult × List ServerTask).
        count_results id x.0 + count_tasks id x.1 ≡ count_tasks id (t ∷ ts))
      (is_late (d t.task_id) (clock i)) _ _ (λ _. omega (arith, sift-counts id d clock (suc i) ts))
      (λ _. omega (arith, sift-counts id d clock (suc i) ts))

compute-id : (n : ℕ) (t : ServerTask) → (compute n t).task_id ≡ t.task_id
unfolding compute
compute-id n t = outcome t.input_json
  where
    square_id : (x : Square) → (computed n t x).task_id ≡ t.task_id
    square_id (square m) = refl
    square_id (type_error m) = refl

    outcome :
        (x : Parsed)
        → (elim x as (λ _. TaskResult) [
          | parsed v ↦ computed n t (squared (input_x v))
          | malformed m ↦ failure m "" t
        ]).task_id
          ≡ t.task_id
    outcome (parsed v) = square_id (squared (input_x v))
    outcome (malformed m) = refl

finish_loop-counts :
    (id : String) (n : ℕ) (d : String → Option ℕ) (clock : ℕ → ℕ) (i : ℕ) (ts : List ServerTask)
    → count_results id (finish_loop n d clock i ts) ≡ count_tasks id ts
unfolding count_results count_tasks
finish_loop-counts id n d clock i [] = refl
finish_loop-counts id n d clock i (t ∷ ts) =
    if_cases
      (λ (x : TaskResult).
        count_results id (x ∷ finish_loop n d clock (suc i) ts) ≡ count_tasks id (t ∷ ts))
      (is_late (d t.task_id) (clock i)) _ _
      (λ _. omega (arith, finish_loop-counts id n d clock (suc i) ts))
      (λ _. rw (compute-id n t) (omega (arith, finish_loop-counts id n d clock (suc i) ts)))

map-counts :
    (id error code : String) (ts : List ServerTask)
    → count_results id (map (failure error code) ts) ≡ count_tasks id ts
unfolding count_results count_tasks
map-counts id error code [] = refl
map-counts id error code (t ∷ ts) = omega (arith, map-counts id error code ts)

-- The waiting loop ended with its tasks answered, or left to be computed.
record IsWaited (active : List ServerTask) (o : Option (List TaskResult × (List ServerTask × Bool)))
    : Type 0 where
  results : List TaskResult
  left : List ServerTask
  to_compute : Bool
  ends : o ≡ some (results, (left, to_compute))
  counts : (id : String) → count_results id results + count_tasks id left ≡ count_tasks id active
  none_left : to_compute ≡ false → left ≡ []

is_empty_lem : (ts : List ServerTask) → is_empty ts ≡ true → ts ≡ []
is_empty_lem [] e = refl
is_empty_lem (t ∷ ts) e = ground (arith, e)

preceded-IsWaited :
    (active remaining : List ServerTask) (results : List TaskResult)
    (o : Option (List TaskResult × (List ServerTask × Bool)))
    → ((id : String) → count_results id results + count_tasks id remaining ≡ count_tasks id active)
    → IsWaited remaining o
    → IsWaited active (preceded results o)
preceded-IsWaited active remaining results o c w = record {
  results = results ++ w.results;
  left = w.left;
  to_compute = w.to_compute;
  ends = ap (preceded results) w.ends;
  counts = λ id. omega (arith, c id, w.counts id, count_results-append id results w.results);
  none_left = w.none_left;
}

next_round :
    (clock : ℕ → ℕ) (finish_at fuel j k : ℕ)
    → finish_at ≤ clock (j + k)
    → k < suc fuel
    → leb finish_at (clock j) ≡ false
    → (m : ℕ) × ((finish_at ≤ clock (suc j + m)) × (m < fuel))
next_round clock finish_at fuel j zero l f more =
    absurd (over (subst (λ x. finish_at ≤ clock x) (omega arith) l))
  where
    over : finish_at ≤ clock j → ⊥
    over x = ground (arith, more, x)
next_round clock finish_at fuel j (suc m) l f more =
    (m, (subst (λ x. finish_at ≤ clock x) (omega arith) l, omega (arith, f)))

module _ (e : Environment) (d : String → Option ℕ) (finish_at : ℕ)
    (calling : (j : ℕ) → e.is_active j ≡ true) where
  -- A wait that has fuel for a round in which its time is over ends.
  wait_loop-IsWaited :
      (fuel j k : ℕ) (active : List ServerTask)
      → finish_at ≤ e.wait_clock (j + k)
      → k < fuel
      → IsWaited active (wait_loop fuel e d finish_at j active)
  unfolding wait_loop
  wait_loop-IsWaited zero j k active l f = absurd (omega (arith, f))
  wait_loop-IsWaited (suc fuel) j k active l f =
      let (results, remaining) = sift d (λ i. e.round_clock j) 0 active in
      let counts = λ (id : String). sift-counts id d (λ i. e.round_clock j) 0 active in
      if_cases (IsWaited active) (not (e.is_active j)) _ _
        (λ off. absurd (ground (arith, off, calling j)))
        (λ _.
          if_cases (IsWaited active) (is_empty remaining) _ _
            (λ z. record {
              results = results;
              left = [];
              to_compute = false;
              ends = refl;
              counts = λ id.
                  subst (λ ts. count_results id results + count_tasks id ts ≡ count_tasks id active)
                    (is_empty_lem remaining z) (counts id);
              none_left = λ x. refl;
            })
            (λ _.
              if_cases (IsWaited active) (leb finish_at (e.wait_clock j)) _ _
                (λ _. record {
                  results = results;
                  left = remaining;
                  to_compute = true;
                  ends = refl;
                  counts = counts;
                  none_left = λ x. ground (arith, x);
                })
                (λ more.
                  let (m, (l', f')) = next_round e.wait_clock finish_at fuel j k l f more in
                  preceded-IsWaited active remaining results
                    (wait_loop fuel e d finish_at (suc j) remaining) counts
                    (wait_loop-IsWaited fuel (suc j) m remaining l' f'))))

sift-length :
    (d : String → Option ℕ) (clock : ℕ → ℕ) (i : ℕ) (ts : List ServerTask)
    → length (sift d clock i ts).1 ≤ length ts
sift-length d clock i [] = omega arith
sift-length d clock i (t ∷ ts) =
    if_cases (λ (x : List TaskResult × List ServerTask). length x.1 ≤ length (t ∷ ts))
      (is_late (d t.task_id) (clock i)) _ _ (λ _. omega (arith, sift-length d clock (suc i) ts))
      (λ _. omega (arith, sift-length d clock (suc i) ts))

-- The tasks are answered, each identity as often as it occurs.
unfoldable pub IsAnswered : List ServerTask → Option (List TaskResult) → Type 0
IsAnswered tasks o =
    (rs : List TaskResult) × ((o ≡ some rs)
      × ((name : String) → count_results name rs ≡ count_tasks name tasks))

module _ (tasks active : List ServerTask) (results : List TaskResult)
    (c : (name : String)
      → count_results name results + count_tasks name active ≡ count_tasks name tasks) where
  finished-IsAnswered :
      (id : ℕ) (e : Environment) (d : String → Option ℕ)
      (o : Option (List TaskResult × (List ServerTask × Bool)))
      → IsWaited active o
      → IsAnswered tasks (finished id e d results o)
  unfolding IsAnswered count_tasks
  finished-IsAnswered id e d o w =
      subst (λ x. IsAnswered tasks (finished id e d results x)) (sym w.ends)
        (answer w.to_compute w.none_left)
    where
      answer :
          (b : Bool)
          → (b ≡ false → w.left ≡ [])
          → IsAnswered tasks (finished id e d results (some (w.results, (w.left, b))))
      answer true none_left = (
        results ++ w.results ++ finish_loop id d e.last_clock 0 w.left,
        (
          refl,
          λ name. omega (
            arith,
            c name,
            w.counts name,
            finish_loop-counts name id d e.last_clock 0 w.left,
            count_results-append name (results ++ w.results)
                (finish_loop id d e.last_clock 0 w.left),
            count_results-append name results w.results,
          ),
        ),
      )
      answer false none_left = (
        results ++ w.results,
        (
          refl,
          λ name. omega (arith, c name, emptied name, count_results-append name results w.results),
        ),
      )
        where
          emptied : (name : String) → count_results name w.results + 0 ≡ count_tasks name active
          emptied name =
              subst
                (λ ts. count_results name w.results + count_tasks name ts ≡ count_tasks name active)
                (none_left refl) (w.counts name)

  injected-IsAnswered :
      (m : String) → IsAnswered tasks (some (results ++ map (failure m "") active))
  unfolding IsAnswered
  injected-IsAnswered m = (
    results ++ map (failure m "") active,
    (
      refl,
      λ name. omega (
        arith,
        c name,
        map-counts name m "" active,
        count_results-append name results (map (failure m "") active),
      ),
    ),
  )

  emptied-IsAnswered : is_empty active ≡ true → IsAnswered tasks (some results)
  unfolding IsAnswered count_tasks
  emptied-IsAnswered z = (results, (refl, λ name. omega (arith, nothing name)))
    where
      nothing : (name : String) → count_results name results + 0 ≡ count_tasks name tasks
      nothing name =
          subst (λ ts. count_results name results + count_tasks name ts ≡ count_tasks name tasks)
            (is_empty_lem active z) (c name)

-- While the calling process stays, a batch whose wait can end in the fuel is answered, and each
-- identity is answered as often as the request holds it: no task is left out or answered twice,
-- whether it is late, fails or is computed.
pub process_batch-IsAnswered :
    (e : Environment) (fuel id k : ℕ) (tasks : List ServerTask)
    → ((j : ℕ) → e.is_active j ≡ true)
    → ((n : ℕ) → n ≤ length tasks → e.started + total_ms e.latency_ms n ≤ e.wait_clock k)
    → k < fuel
    → IsAnswered tasks (process_batch fuel id e tasks)
unfolding process_batch
process_batch-IsAnswered e fuel id k tasks calling l f =
    if_cases (IsAnswered tasks) (is_empty active) _ _ (emptied-IsAnswered tasks active results c)
      (λ _. drawn e.injected)
  where
    d : String → Option ℕ
    d = deadlines e.received tasks (λ name. none)

    results : List TaskResult
    results = (sift d e.first_clock 0 tasks).0

    active : List ServerTask
    active = (sift d e.first_clock 0 tasks).1

    c :
        (name : String)
        → count_results name results + count_tasks name active ≡ count_tasks name tasks
    c name = sift-counts name d e.first_clock 0 tasks

    finish_at : ℕ
    finish_at = e.started + total_ms e.latency_ms (length active)

    drawn :
        (x : Option String)
        → IsAnswered tasks (elim x as (λ _. Option (List TaskResult)) [
          | some m ↦ some (results ++ map (failure m "") active)
          | none ↦ finished id e d results (wait_loop fuel e d finish_at 0 active)
        ])
    drawn (some m) = injected-IsAnswered tasks active results c m
    drawn none =
        finished-IsAnswered tasks active results c id e d (wait_loop fuel e d finish_at 0 active) (
          wait_loop-IsWaited e d finish_at calling fuel 0 k active
            (subst (λ x. finish_at ≤ e.wait_clock x) (omega arith)
              (l (length active) (sift-length d e.first_clock 0 tasks)))
            f)
