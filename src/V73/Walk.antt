-- ===== src/V73/Walk.antt =====
-- The state file of a job, through `process`.
use latency_aware_inference.Common.{
  ℕ, ◌+◌, ◌≡◌, ◌≤◌, ◌<◌, refl, true, false, not, ◌&&◌, ◌||◌, Option, none, some, String, arith,
  if_cases, str_eq,
}
use latency_aware_inference.Common.Result.{Result, ok, raised, Ensures, returns, raises}
use latency_aware_inference.Task.Payload.{Value}
use latency_aware_inference.V73.{WorkerError}
use latency_aware_inference.V73.Payload.{is_text}
use latency_aware_inference.V73.Run.{
  Response, JobState, blank, is_blank, is_some, Disk, Outcome, returned, error, unexpected, died,
  Write, written, write_failed, died_before, died_after, Reply, answered, unresolved, lost, Host,
  is_in_time, late, write, fail, finish, exchange, call_daemon, after_download, infer, execute,
  recover, resumed, resolve, started, reported, decide, process, retry_later,
}

-- What a state may be written with when so many requests were sent: a request that may have been
-- sent has left its trace, and a result has the property `P`.
pub record IsTraced (P : Value → Type 0) (requests : ℕ) (st : JobState) : Type 0 where
  pub traced : 0 < requests → (st.running || is_some st.response) ≡ true
  pub kept : (v : Value) → st.result ≡ some v → P v

pub record IsSound (P : Value → Type 0) (d : Disk) : Type 0 where
  pub once : d.requests ≤ 1
  pub state : IsTraced P d.requests d.state

-- A value that is returned has the property.
unfoldable pub Gives : (Value → Type 0) → Outcome → Type 0
Gives P (returned v) = P v
Gives P (error e) = Unit {0}
Gives P unexpected = Unit {0}
Gives P died = Unit {0}

module _ (P : Value → Type 0) where
  abbrev pub IsGood : Outcome × Disk → Type 0
  IsGood x = IsSound P x.1 × Gives P x.0

  write-IsGood :
      (w : Write) (o : Outcome) (st : JobState) (d : Disk) (rest : Disk → Outcome × Disk)
      → IsSound P d
      → IsTraced P d.requests st
      → Gives P o
      → IsGood (rest (record d { state = st }))
      → IsGood (write w o st d rest)
  unfolding Gives
  write-IsGood written o st d rest s t g r = r
  write-IsGood write_failed o st d rest s t g r = (s, g)
  write-IsGood died_before o st d rest s t g r = (s, tt)
  write-IsGood died_after o st d rest s t g r = (record { once = s.once; state = t }, tt)

  fail-IsGood :
      (w : Write) (e : WorkerError) (st : JobState) (d : Disk)
      → IsSound P d
      → IsTraced P d.requests st
      → IsGood (fail w e st d)
  unfolding fail Gives
  fail-IsGood w e st d s t =
      let t' : IsTraced P d.requests (record st { error = some e }) = record {
        traced = t.traced;
        kept = t.kept;
      } in
      if_cases IsGood (e.retryable || str_eq e.code "deadline_exceeded") _ _ (λ _. (s, tt))
        (λ _.
          write-IsGood w unexpected (record st { error = some e }) d (λ d'. (error e, d')) s t' tt
            (record { once = s.once; state = t' }, tt))

  finish-IsGood :
      (h : Host) (st : JobState) (r : Result WorkerError Value) (d : Disk)
      → ((v : Value) → r ≡ ok v → P v)
      → IsSound P d
      → IsTraced P d.requests st
      → IsGood (finish h st r d)
  unfolding Gives
  finish-IsGood h st (ok v) d u s t =
      let t' : IsTraced P d.requests (record st { result = some v }) = record {
        traced = t.traced;
        kept = λ w e. u w (ground (arith, e));
      } in
      write-IsGood h.result_write unexpected (record st { result = some v }) d
        (λ d'. (returned v, d')) s t' tt (record { once = s.once; state = t' }, u v refl)
  finish-IsGood h st (raised e) d u s t = fail-IsGood h.error_write e st d s t

  -- What an upload answers has the property.
  abbrev pub Uploads : Host → Type 0
  Uploads h = (r : Response) (v : Value) → h.upload r ≡ ok v → P v

  exchange-IsGood :
      (h : Host) (st : JobState) (r : Reply) (d : Disk)
      → Uploads h
      → IsSound P d
      → IsTraced P d.requests st
      → IsGood (exchange h st r d)
  unfolding Gives
  exchange-IsGood h st (answered r) d u s t =
      let st' : JobState = record st { running = false; response = some r } in
      let t' : IsTraced P d.requests st' = record { traced = λ _. refl; kept = t.kept } in
      write-IsGood h.response_write unexpected st' d (finish h st' (h.upload r)) s t' tt (
        finish-IsGood h st' (h.upload r) (record d { state = st' }) (u r)
          (record { once = s.once; state = t' }) t')
  exchange-IsGood h st unresolved d u s t =
      fail-IsGood h.error_write (retry_later "already_running" "daemon result is unresolved")
        (record st { running = true }) d s (record { traced = λ _. refl; kept = t.kept })
  exchange-IsGood h st lost d u s t = (s, tt)

  -- A request is sent only where none was before.
  call_daemon-IsGood :
      (h : Host) (st : JobState) (d : Disk)
      → Uploads h
      → IsSound P d
      → IsTraced P d.requests st
      → d.requests ≡ 0
      → IsGood (call_daemon h st d)
  unfolding call_daemon Gives
  call_daemon-IsGood h st d u s t z =
      let unavailable : WorkerError =
        retry_later "worker_unavailable" "model socket is unavailable" in
      let st' : JobState = record st { running = true } in
      if_cases IsGood (not h.connects) _ _ (λ _. fail-IsGood h.error_write unavailable st d s t)
        (λ _.
          write-IsGood h.running_write (error unavailable) st' d
            (λ d'. exchange h st' h.reply (record d' { requests = d'.requests + 1 })) s
            (record { traced = λ _. refl; kept = t.kept }) tt
            (exchange-IsGood h st' h.reply (record { state = st'; requests = d.requests + 1 }) u
              (record {
                once = omega (arith, z);
                state = record { traced = λ _. refl; kept = t.kept };
              })
              (record { traced = λ _. refl; kept = t.kept })))

  after_download-IsGood :
      (h : Host) (deadline : Option ℕ) (st : JobState) (r : Result WorkerError (Unit {0}))
      (d : Disk)
      → Uploads h
      → IsSound P d
      → IsTraced P d.requests st
      → d.requests ≡ 0
      → IsGood (after_download h deadline st r d)
  after_download-IsGood h deadline st (raised e) d u s t z = fail-IsGood h.error_write e st d s t
  after_download-IsGood h deadline st (ok _) d u s t z =
      if_cases IsGood (is_in_time deadline h.downloaded) _ _
        (λ _. call_daemon-IsGood h st d u s t z) (λ _. fail-IsGood h.error_write late st d s t)

  infer-IsGood :
      (h : Host) (deadline : Option ℕ) (st : JobState) (o : Option Response) (d : Disk)
      → Uploads h
      → IsSound P d
      → IsTraced P d.requests st
      → (o ≡ none → d.requests ≡ 0)
      → IsGood (infer h deadline st o d)
  infer-IsGood h deadline st none d u s t z =
      after_download-IsGood h deadline st h.download d u s t (z refl)
  infer-IsGood h deadline st (some r) d u s t z = finish-IsGood h st (h.upload r) d (u r) s t

  -- What an execution starts from has a response, or no request was sent.
  abbrev Startable : ℕ → JobState → Type 0
  Startable requests st = IsTraced P requests st × (st.response ≡ none → requests ≡ 0)

  execute-IsGood :
      (h : Host) (deadline : Option ℕ) (fingerprint out : String) (st : JobState) (d : Disk)
      → Uploads h
      → IsSound P d
      → Startable d.requests st
      → IsGood (execute h deadline fingerprint out st d)
  unfolding execute Gives
  execute-IsGood h deadline fingerprint out st d u s (t, z) =
      let st' : JobState = record st { fingerprint = some fingerprint; output = some out } in
      let t' : IsTraced P d.requests st' = record { traced = t.traced; kept = t.kept } in
      write-IsGood h.first_write unexpected st' d (infer h deadline st' st'.response) s t' tt (
        infer-IsGood h deadline st' st'.response (record d { state = st' }) u
          (record { once = s.once; state = t' }) t' z)

  resumed-Startable :
      (requests : ℕ) (o : Option Response) (st : JobState)
      → IsTraced P requests st
      → Ensures (Startable requests) (resumed o st)
  resumed-Startable requests none st t = raises _
  resumed-Startable requests (some r) st t =
      returns _ (record { traced = λ _. refl; kept = t.kept }, λ e. absurd (cc e))

  resolve-Startable :
      (h : Host) (out : String) (st : JobState) (requests : ℕ)
      → IsTraced P requests st
      → Ensures (Startable requests) (resolve h out st)
  unfolding resolve
  resolve-Startable h out st requests t =
      let traced : 0 < requests → (st.running || is_some st.response) ≡ true = t.traced in
      if_cases (Ensures (Startable requests))
        (is_some st.response || not (st.running || h.output_exists)) _ _
        (λ e. returns st (t, λ f. ground (arith, e, f, traced)))
        (λ _.
          if_cases (Ensures (Startable requests))
            (st.running && is_text st.output out && not h.report_safe) _ _ (λ _. raises _)
            (λ _. resumed-Startable requests (recover h st out) st t))

  reported-IsGood :
      (h : Host) (deadline : Option ℕ) (o : Outcome) (d : Disk)
      → IsGood (o, d)
      → IsGood (reported h deadline (o, d))
  unfolding reported Gives
  reported-IsGood h deadline (returned v) d (s, g) =
      if_cases IsGood (is_in_time deadline h.waited) _ _ (λ _. (s, g)) (λ _. (s, tt))
  reported-IsGood h deadline (error e) d (s, g) =
      if_cases IsGood (is_in_time deadline h.waited) _ _ (λ _. (s, tt)) (λ _. (s, tt))
  reported-IsGood h deadline unexpected d (s, g) =
      if_cases IsGood (is_in_time deadline h.waited) _ _ (λ _. (s, tt)) (λ _. (s, tt))
  reported-IsGood h deadline died d (s, g) = (s, tt)

  started-IsGood :
      (h : Host) (deadline : Option ℕ) (fingerprint out : String) (r : Result WorkerError JobState)
      (d : Disk)
      → Uploads h
      → IsSound P d
      → Ensures (Startable d.requests) r
      → IsGood (started h deadline fingerprint out r d)
  unfolding Gives
  started-IsGood h deadline fingerprint out r d u s (raises e) = (s, tt)
  started-IsGood h deadline fingerprint out r d u s (returns st k) =
      if_cases IsGood (not h.model_free) _ _ (λ _. (s, tt))
        (λ _.
          let x = execute h deadline fingerprint out st d in
          reported-IsGood h deadline x.0 x.1 (execute-IsGood h deadline fingerprint out st d u s k))

  decide-IsGood :
      (h : Host) (deadline : Option ℕ) (fingerprint out : String) (v : Option Value)
      (e : Option WorkerError) (d : Disk)
      → Uploads h
      → IsSound P d
      → ((w : Value) → v ≡ some w → P w)
      → IsGood (decide h deadline fingerprint out v e d)
  unfolding Gives
  decide-IsGood h deadline fingerprint out (some v) e d u s k = (s, k v refl)
  decide-IsGood h deadline fingerprint out none (some e) d u s k = (s, tt)
  decide-IsGood h deadline fingerprint out none none d u s k =
      if_cases IsGood (not h.path_safe) _ _ (λ _. (s, tt))
        (λ _.
          started-IsGood h deadline fingerprint out (resolve h out d.state) d u s
            (resolve-Startable h out d.state d.requests s.state))

  pub process-IsGood :
      (h : Host) (deadline : Option ℕ) (fingerprint out : String) (d : Disk)
      → Uploads h
      → IsSound P d
      → IsGood (process h deadline fingerprint out d)
  unfolding process Gives
  process-IsGood h deadline fingerprint out d u s =
      if_cases IsGood (not (is_in_time deadline h.first)) _ _ (λ _. (s, tt))
        (λ _.
          if_cases IsGood (not h.job_free) _ _ (λ _. (s, tt))
            (λ _.
              if_cases IsGood
                (not (is_blank d.state) && not (is_text d.state.fingerprint fingerprint)) _ _
                (λ _. (s, tt))
                (λ _.
                  decide-IsGood h deadline fingerprint out d.state.result d.state.error d u s
                    s.state.kept)))

  pub blank-IsSound : IsSound P (record { state = blank; requests = 0 })
  blank-IsSound = record {
    once = omega arith;
    state = record { traced = λ p. absurd (omega (arith, p)); kept = λ v e. absurd (cc e) };
  }
