-- ===== src/Configuration/Valid.antt =====
-- What the endpoints keep of the configuration, and what reaches the workers.
use latency_aware_inference.Common.{
  ℕ, ◌≡◌, ◌≤◌, refl, sym, ap, Bool, true, false, ◌&&◌, Option, none, some, String, str_eq,
  str_eq_iff, List, [], ◌∷◌, arith, leb, if_cases, Bool-cases, inl, inr, ◌⊎◌, if◌then◌else◌,
}
use latency_aware_inference.Common.Int.{ℤ, pos, negsuc}
use latency_aware_inference.Common.Text.{among}
use latency_aware_inference.Configuration.{
  SystemConfig, Simulation, Backend, local, remote, Server, Status, rate, server_error, strategies,
  update_config, with_simulation, push_config, sized, set_batch_size, set_scheduler, simulation,
  pushed, set_failure_rate,
}

module _ {F : Type 0} (is_rate : F → Bool) (narrow : F → F) where
  -- A strategy name on which a turn of the scheduler dispatches.
  abbrev pub IsKnown : String → Type 0
  IsKnown s = (s ≡ "fifo") ⊎ ((s ≡ "batching") ⊎ (s ≡ "latency_aware"))

  -- A configuration that the other components can read: a batch size in bounds, a strategy that the
  -- scheduler has, and a rate.
  pub record IsValid (c : SystemConfig F) : Type 0 where
    pub positive : 1 ≤ c.batch_size
    pub bounded : c.batch_size ≤ 512
    pub known : IsKnown c.scheduler_strategy
    pub rate : is_rate c.failure_rate ≡ true

  strategies-IsKnown : (s : String) → among s strategies ≡ true → IsKnown s
  strategies-IsKnown s h = elim (Bool-cases (str_eq "fifo" s)) [
    | inl e ↦ inl (sym ((str_eq_iff "fifo" s).0 e))
    | inr e ↦ elim (Bool-cases (str_eq "batching" s)) [
      | inl f ↦ inr (inl (sym ((str_eq_iff "batching" s).0 f)))
      | inr f ↦ elim (Bool-cases (str_eq "latency_aware" s)) [
        | inl g ↦ inr (inr (sym ((str_eq_iff "latency_aware" s).0 g)))
        | inr g ↦ absurd (ground (arith, e, f, g, h))
      ]
    ]
  ]

  -- A call of one of the endpoints.
  pub data Call : Type 0 where
    sizes : ℤ → Call
    schedules : String → Call
    rates : (String → Bool) → F → Call

  unfoldable pub call : Call → Server F → Server F
  unfolding set_batch_size set_scheduler set_failure_rate
  call (sizes n) s = (set_batch_size n s).1
  call (schedules name) s = (set_scheduler name s).1
  call (rates answers x) s = (set_failure_rate is_rate narrow answers x s).1

  unfoldable pub calls : List Call → Server F → Server F
  unfolding call
  calls [] s = s
  calls (c ∷ cs) s = calls cs (call c s)

  sized-IsValid : (n : ℤ) (s : Server F) → IsValid s.config → IsValid (set_batch_size n s).1.config
  unfolding set_batch_size
  sized-IsValid (negsuc n) s v = v
  sized-IsValid (pos n) s v =
      if_cases (λ (o : Option ℕ). IsValid (sized s o).1.config) (leb 1 n && leb n 512) (some n) none
        (λ e. record {
          positive = ground (arith, e);
          bounded = ground (arith, e);
          known = v.known;
          rate = v.rate;
        })
        (λ _. v)

  call-IsValid : (c : Call) (s : Server F) → IsValid s.config → IsValid (call c s).config
  unfolding call
  call-IsValid (sizes n) s v = sized-IsValid n s v
  call-IsValid (schedules name) s v =
      if_cases (λ (x : Status F × Server F). IsValid x.1.config) (among name strategies) _ _
        (λ e. record {
          positive = v.positive;
          bounded = v.bounded;
          known = strategies-IsKnown name e;
          rate = v.rate;
        })
        (λ _. v)
  call-IsValid (rates answers x) s v =
      if_cases (λ (y : Status F × Server F). IsValid y.1.config) (is_rate x) _ _
        (λ e. sent e s.backend) (λ _. v)
    where
      sent :
          is_rate x ≡ true
          → (b : Backend)
          → IsValid
              (pushed narrow answers
                (record s { config = record s.config { failure_rate = x } })
                b).1.config
      sent e local = record {
        positive = v.positive;
        bounded = v.bounded;
        known = v.known;
        rate = e;
      }
      sent e (remote ids) = record {
        positive = v.positive;
        bounded = v.bounded;
        known = v.known;
        rate = e;
      }

  -- Whatever the endpoints are sent, with valid and invalid bodies, and whichever workers a push
  -- reaches: from a valid configuration the batch size stays within 1 to 512, the strategy one that
  -- the scheduler has, and the failure rate one that the endpoint admits.
  pub calls-IsValid :
      (cs : List Call) (s : Server F) → IsValid s.config → IsValid (calls cs s).config
  unfolding calls
  calls-IsValid [] s v = v
  calls-IsValid (c ∷ cs) s v = calls-IsValid cs (call c s) (call-IsValid c s v)

-- The workers that a push is for.
abbrev pub is_member : Backend → String → Bool
is_member local id = false
is_member (remote ids) id = among id ids

module _ {F : Type 0} (narrow : F → F) (answers : String → Bool) where
  push_config_lem :
      (x : Simulation F) (ids : List String) (f : String → Simulation F) (id : String)
      → push_config narrow answers x ids f id ≡ (
          if among id ids && answers id
          then record {
            failure_rate = narrow x.failure_rate;
            inference_latency_ms = narrow x.inference_latency_ms;
          }
          else f id)
  unfolding push_config
  push_config_lem x [] f id = refl
  push_config_lem x (i ∷ ids) f id = elim (Bool-cases (str_eq i id)) [
    | inl e ↦
        let same : i ≡ id = (str_eq_iff i id).0 e in
        ground (
          arith,
          e,
          ap answers same,
          ap f same,
          push_config_lem x ids (with_simulation i (update_config narrow (answers i) x (f i)) f) id,
        )
    | inr e ↦ ground (
      arith,
      e,
      push_config_lem x ids (with_simulation i (update_config narrow (answers i) x (f i)) f) id,
    )
  ]

  abbrev pub answer : F → Backend → Status F
  answer x local = server_error
  answer x (remote ids) = rate x

  -- An admitted failure rate is set. It reaches, with the latency and each as a 32-bit float, exactly
  -- the members that answer the push; with the local pool the response is an error all the same.
  pub set_failure_rate_lem :
      (is_rate : F → Bool) (x : F) (s : Server F)
      → is_rate x ≡ true
      → ((set_failure_rate is_rate narrow answers x s).0 ≡ answer x s.backend)
        × (((set_failure_rate is_rate narrow answers x s).1.config
              ≡ record s.config { failure_rate = x })
            × ((id : String)
                → (set_failure_rate is_rate narrow answers x s).1.simulations id ≡ (
                    if is_member s.backend id && answers id
                    then record {
                      failure_rate = narrow x;
                      inference_latency_ms = narrow s.config.inference_latency_ms;
                    }
                    else s.simulations id)))
  unfolding set_failure_rate
  set_failure_rate_lem is_rate x s h = rw h (sent s.backend)
    where
      set : Server F
      set = record s { config = record s.config { failure_rate = x } }

      sent :
          (b : Backend)
          → ((pushed narrow answers set b).0 ≡ answer x b)
            × (((pushed narrow answers set b).1.config ≡ record s.config { failure_rate = x })
                × ((id : String)
                    → (pushed narrow answers set b).1.simulations id ≡ (
                        if is_member b id && answers id
                        then record {
                          failure_rate = narrow x;
                          inference_latency_ms = narrow s.config.inference_latency_ms;
                        }
                        else s.simulations id)))
      sent local = (refl, (refl, λ id. refl))
      sent (remote ids) =
          (refl, (refl, λ id. push_config_lem (simulation set.config) ids s.simulations id))
