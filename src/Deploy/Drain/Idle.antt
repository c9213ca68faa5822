-- ===== src/Deploy/Drain/Idle.antt =====
-- The counted requests and the markers at the end of the wait.
use latency_aware_inference.Common.{
  ℕ, zero, suc, ◌+◌, ◌≡◌, ◌≤◌, ◌<◌, refl, sym, ap, ◌∙◌, subst, Bool, true, false, not, ◌&&◌, ◌||◌,
  Option, none, some, String, str_eq, str_eq_iff, List, All, arith, leb, ◌==◌, if_cases,
  if◌then◌else◌, inl, inr, ◌⊎◌,
}
use latency_aware_inference.Common.Int.{pos}
use latency_aware_inference.Common.Result.{Result, ok, raised}
use latency_aware_inference.Gate.{snapshot, marker_state, Gate, Phase}
use latency_aware_inference.Gate.Admission.{
  Event, events, counted, IsDraining, events-active, events-draining,
}
use latency_aware_inference.Deploy.Drain.{
  Boundary, gateway, worker, Platform, with_value, status, Publish, published, cut_before,
  cut_after, link, fence, is_zero, acknowledged,
}
use latency_aware_inference.Deploy.Drain.Wait.{
  Backend, Round, Step, read_status, confirmed, read_worker, close_worker, if_idle, gateway_read,
  quiet_read, backend_read, round, next_round, rounds, fenced, wait_idle,
}

-- What other processes may do: requests arrive at the gates, which read their markers, and end;
-- and a marker with the token of this deployment stays.
pub record Evolves (p q : Platform) : Type 0 where
  pub token : q.token ≡ p.token
  pub named : q.named ≡ p.named
  pub kept : (b : Boundary) → p.token ≡ p.control b → q.control b ≡ p.control b
  pub acts : Boundary → List Event
  pub requests :
      (b : Boundary)
      → events (acts b) ((p.process b).requests, (p.process b).gate)
        ≡ ((q.process b).requests, (q.process b).gate)
  pub draining : (b : Boundary) → p.token ≡ p.control b → All IsDraining (acts b)

-- The token is set and each gate counts its requests.
pub record IsReady (t : String) (p : Platform) : Type 0 where
  pub token : p.token ≡ some t
  pub counts : (b : Boundary) → (p.process b).gate.active ≡ pos (counted (p.process b).requests)

-- The boundary is closed by this deployment, and no counted request is left behind it.
pub record IsQuiet (t : String) (b : Boundary) (p : Platform) : Type 0 where
  pub closed : p.control b ≡ some t
  pub empty : counted (p.process b).requests ≡ 0

Evolves-IsReady : (t : String) (p q : Platform) → Evolves p q → IsReady t p → IsReady t q
Evolves-IsReady t p q e r = record {
  token = e.token ∙ r.token;
  counts = λ b.
      subst (λ (x : List Phase × Gate). x.1.active ≡ pos (counted x.0)) (e.requests b)
        (events-active (e.acts b) (p.process b).requests (p.process b).gate (r.counts b));
}

Evolves-IsQuiet :
    (t : String) (b : Boundary) (p q : Platform)
    → Evolves p q
    → IsReady t p
    → IsQuiet t b p
    → IsQuiet t b q
Evolves-IsQuiet t b p q e r k =
    let same : p.token ≡ p.control b = r.token ∙ sym k.closed in
    let falls =
      subst (λ (x : List Phase × Gate). counted x.0 ≤ counted (p.process b).requests) (e.requests b)
        (events-draining (e.acts b) (p.process b).requests (p.process b).gate
          (e.draining b same)) in
    record { closed = e.kept b same ∙ k.closed; empty = omega (arith, falls, k.empty) }

-- An acknowledgement without active requests is one of a closed, empty boundary.
acknowledged-IsQuiet :
    (t : String) (b : Boundary) (p : Platform)
    → IsReady t p
    → acknowledged p.token (status b p) ≡ ok true
    → IsQuiet t b p
unfolding acknowledged snapshot marker_state
acknowledged-IsQuiet t b p r h = read (p.control b) refl
  where
    read : (o : Option String) → p.control b ≡ o → IsQuiet t b p
    read none e = absurd (ground (arith, h, e))
    read (some s) e =
        let same : str_eq s t ≡ true = ground (arith, h, e, r.token) in
        let zeroes : is_zero (pos (counted (p.process b).requests)) ≡ true =
          ground (arith, h, e, r.token, r.counts b) in
        record { closed = e ∙ ap some ((str_eq_iff s t).0 same); empty = ground (arith, zeroes) }

fence-IsReady :
    (t : String) (how : Publish) (b : Boundary) (p : Platform)
    → IsReady t p
    → IsReady t (fence how b p).1
unfolding fence
fence-IsReady t how b p r = linked how (p.control b)
  where
    p' : Platform
    p' = record p { named = with_value b true p.named }

    linked : (how : Publish) (o : Option String) → IsReady t (link how b o p').1
    linked cut_before o = record { token = r.token; counts = r.counts }
    linked published none = record { token = r.token; counts = r.counts }
    linked cut_after none = record { token = r.token; counts = r.counts }
    linked published (some s) = record { token = r.token; counts = r.counts }
    linked cut_after (some s) = record { token = r.token; counts = r.counts }

-- The publication of one marker leaves the other one.
fence-IsQuiet :
    (t : String) (how : Publish) (p : Platform)
    → IsQuiet t gateway p
    → IsQuiet t gateway (fence how worker p).1
unfolding fence
fence-IsQuiet t how p k = linked how (p.control worker)
  where
    p' : Platform
    p' = record p { named = with_value worker true p.named }

    linked : (how : Publish) (o : Option String) → IsQuiet t gateway (link how worker o p').1
    linked cut_before o = record { closed = k.closed; empty = k.empty }
    linked published none = record { closed = k.closed; empty = k.empty }
    linked cut_after none = record { closed = k.closed; empty = k.empty }
    linked published (some s) = record { closed = k.closed; empty = k.empty }
    linked cut_after (some s) = record { closed = k.closed; empty = k.empty }

-- A round is fair where the other processes act as they may.
pub record IsFair (r : Round) : Type 0 where
  pub before_gateway : (p : Platform) → Evolves p (r.before_gateway p)
  pub before_worker : (p : Platform) → Evolves p (r.before_worker p)

module _ (t : String) where
  -- A step keeps what is known, and is over only where both boundaries are quiet.
  abbrev IsStep : Step → Type 0
  IsStep x = IsReady t x.1 × (x.0 ≡ ok true → IsQuiet t gateway x.1 × IsQuiet t worker x.1)

  read_status-IsQuiet :
      (answers : Bool) (b : Boundary) (p : Platform)
      → IsReady t p
      → read_status answers b p ≡ ok true
      → IsQuiet t b p
  read_status-IsQuiet true b p r h = acknowledged-IsQuiet t b p r h
  read_status-IsQuiet false b p r h = absurd (cc h)

  confirmed-IsStep :
      (r : Round) (x : Result String Bool) (p : Platform)
      → IsReady t p
      → IsQuiet t gateway p
      → (x ≡ ok true → IsQuiet t worker p)
      → IsStep (confirmed r x p)
  confirmed-IsStep r (raised e) p y k w = (y, λ h. absurd (cc h))
  confirmed-IsStep r (ok false) p y k w = (y, λ h. absurd (ground (arith, h)))
  confirmed-IsStep r (ok true) p y k w =
      if_cases IsStep r.is_protected _ _ (λ _. (y, λ h. (k, w refl))) (λ _. (y, λ h. absurd (cc h)))

  read_worker-IsStep :
      (r : Round) (x : Result String (Unit {0}) × Platform)
      → IsFair r
      → IsReady t x.1
      → IsQuiet t gateway x.1
      → IsStep (read_worker r x)
  read_worker-IsStep r (raised e, p) f y k = (y, λ h. absurd (cc h))
  read_worker-IsStep r (ok _, p) f y k =
      let p' = r.before_worker p in
      let y' = Evolves-IsReady t p p' (f.before_worker p) y in
      confirmed-IsStep r (read_status r.worker_answers worker p') p' y'
        (Evolves-IsQuiet t gateway p p' (f.before_worker p) y k)
        (read_status-IsQuiet r.worker_answers worker p' y')

  close_worker-IsStep :
      (r : Round) (p : Platform)
      → IsFair r
      → IsReady t p
      → IsQuiet t gateway p
      → IsStep (close_worker r p)
  unfolding close_worker
  close_worker-IsStep r p f y k = begun (p.named worker)
    where
      begun :
          (b : Bool) → IsStep (read_worker r (if b then (ok tt, p) else fence r.publish worker p))
      begun true = read_worker-IsStep r (ok tt, p) f y k
      begun false =
          read_worker-IsStep r (fence r.publish worker p) f (fence-IsReady t r.publish worker p y)
            (fence-IsQuiet t r.publish p k)

  if_idle-IsStep :
      (r : Round) (busy : Option Bool) (quiet is_idle : Bool) (p : Platform)
      → IsFair r
      → IsReady t p
      → (is_idle ≡ true → IsQuiet t gateway p)
      → IsStep (if_idle r busy (quiet && is_idle) p)
  if_idle-IsStep r none quiet is_idle p f y k = (y, λ h. absurd (cc h))
  if_idle-IsStep r (some busy) quiet is_idle p f y k =
      if_cases IsStep (not busy && (quiet && is_idle)) _ _
        (λ e. close_worker-IsStep r p f y (k (ground (arith, e))))
        (λ _. (y, λ h. absurd (ground (arith, h))))

  gateway_read-IsStep :
      (r : Round) (b : Backend) (quiet : Bool) (x : Result String Bool) (p : Platform)
      → IsFair r
      → IsReady t p
      → (x ≡ ok true → IsQuiet t gateway p)
      → IsStep (gateway_read r b quiet x p)
  gateway_read-IsStep r b quiet (raised e) p f y k = (y, λ h. absurd (cc h))
  gateway_read-IsStep r b quiet (ok is_idle) p f y k =
      if_cases IsStep (b.active_requests == 0 && b.active_operations == 0) _ _
        (λ _. if_idle-IsStep r r.busy quiet is_idle p f y (λ e. k (ap ok e)))
        (λ _. (y, λ h. absurd (ground (arith, h))))

  quiet_read-IsStep :
      (r : Round) (b : Backend) (quiet : Option Bool) (p : Platform)
      → IsFair r
      → IsReady t p
      → IsStep (quiet_read r b quiet p)
  quiet_read-IsStep r b none p f y = (y, λ h. absurd (cc h))
  quiet_read-IsStep r b (some quiet) p f y =
      let p' = r.before_gateway p in
      let y' = Evolves-IsReady t p p' (f.before_gateway p) y in
      gateway_read-IsStep r b quiet (read_status r.gateway_answers gateway p') p' f y'
        (read_status-IsQuiet r.gateway_answers gateway p' y')

  round-IsStep : (r : Round) (p : Platform) → IsFair r → IsReady t p → IsStep (round r p)
  unfolding round
  round-IsStep r p f y = asked r.backend
    where
      asked : (o : Option Backend) → IsStep (backend_read r o p)
      asked none = (y, λ h. absurd (cc h))
      asked (some b) =
          if_cases IsStep (not b.draining || not b.is_ours) _ _ (λ _. (y, λ h. absurd (cc h)))
            (λ _. quiet_read-IsStep r b r.quiet p f y)

-- The wait ends: it raises, or both boundaries are closed with the token and empty.
abbrev pub IsEnd : String → Result String (Unit {0}) × Platform → Type 0
IsEnd t x = ((e : String) × (x.0 ≡ raised e)) ⊎ (IsQuiet t gateway x.1 × IsQuiet t worker x.1)

abbrev pub Ends : String → Option (Result String (Unit {0}) × Platform) → Type 0
Ends t o = (x : Result String (Unit {0}) × Platform) × ((o ≡ some x) × IsEnd t x)

module _ (t : String) (r : ℕ → Round) (deadline : ℕ) (fair : (i : ℕ) → IsFair (r i)) where
  next_round-Ends :
      (late : Bool) (x : Step) (rest : Platform → Option (Result String (Unit {0}) × Platform))
      → IsStep t x
      → (late ≡ false → IsReady t x.1 → Ends t (rest x.1))
      → Ends t (next_round late x rest)
  next_round-Ends late (raised e, p) rest s k = ((raised e, p), (refl, inl (e, refl)))
  next_round-Ends late (ok true, p) rest s k = ((ok tt, p), (refl, inr (s.1 refl)))
  next_round-Ends true (ok false, p) rest s k = (_, (refl, inl (_, refl)))
  next_round-Ends false (ok false, p) rest s k = k refl s.0

  rounds-Ends :
      (fuel m i : ℕ) (p : Platform)
      → deadline ≤ (r (i + m)).now
      → m < fuel
      → IsReady t p
      → Ends t (rounds fuel r deadline i p)
  unfolding rounds
  rounds-Ends zero m i p l f y = absurd (omega (arith, f))
  rounds-Ends (suc fuel) zero i p l f y =
      let same : i + 0 ≡ i = omega arith in
      let l' = subst (λ j. deadline ≤ (r j).now) same l in
      next_round-Ends (leb deadline (r i).now) (round (r i) p) (rounds fuel r deadline (suc i))
        (round-IsStep t (r i) p (fair i) y) (λ e. absurd (ground (arith, e, l')))
  rounds-Ends (suc fuel) (suc m) i p l f y =
      let same : i + suc m ≡ suc i + m = omega arith in
      let l' = subst (λ j. deadline ≤ (r j).now) same l in
      next_round-Ends (leb deadline (r i).now) (round (r i) p) (rounds fuel r deadline (suc i))
        (round-IsStep t (r i) p (fair i) y)
        (λ e y'. rounds-Ends fuel m (suc i) (round (r i) p).1 l' (omega (arith, f)) y')

  -- The wait ends, at the latest in the round whose clock reaches the deadline. Where it does not
  -- raise, both boundaries are closed with the token of this deployment and no counted request is
  -- left behind either, under the conditions that the gates count their requests at the start, and
  -- that the other processes only send and end requests and leave the markers of this deployment.
  pub wait_idle-Ends :
      (fuel n : ℕ) (answers : Bool) (how : Publish) (p : Platform)
      → IsReady t p
      → deadline ≤ (r n).now
      → n < fuel
      → Ends t (wait_idle fuel answers how r deadline p)
  unfolding wait_idle
  wait_idle-Ends fuel n answers how p y l f =
      if_cases (Ends t) answers _ _
        (λ _. begun (fence how gateway p) (fence-IsReady t how gateway p y))
        (λ _. (_, (refl, inl (_, refl))))
    where
      begun :
          (x : Result String (Unit {0}) × Platform)
          → IsReady t x.1
          → Ends t (fenced x (rounds fuel r deadline 0))
      begun (raised e, q) y' = (_, (refl, inl (_, refl)))
      begun (ok _, q) y' =
          let same : n ≡ 0 + n = omega arith in
          rounds-Ends fuel n 0 q (subst (λ j. deadline ≤ (r j).now) same l) f y'
