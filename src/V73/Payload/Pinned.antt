-- ===== src/V73/Payload/Pinned.antt =====
-- What a payload that is accepted is known to be.
use latency_aware_inference.Common.{
  ◌≡◌, sym, ap, Bool-cases, Option-cases, inl, inr, ◌≤◌, ◌<◌, true, Option, none, some, String,
  str_append, str_eq, [], ◌∷◌, arith, ◌⊎◌, str_eq_iff,
}
use latency_aware_inference.Common.Result.{Result, ok, raised, ◌>>=◌, ◌>>◌, unless_raise, or_raise}
use latency_aware_inference.Common.Text.{is_hex_text, among}
use latency_aware_inference.Task.Payload.{Value, Fields}
use latency_aware_inference.V73.Payload.{
  Input, Spec, max_input_bytes, invalid, as_object, has_keys, text_at, object_at, is_text, base_of,
  same_uuid, check_uuid, not_canonical, validate_input, validate_spec, validate_payload,
}

same_uuid_lem :
    (r : Result String String) (s message : String) → same_uuid r s message ≡ ok tt → r ≡ ok s
same_uuid_lem (raised m) s message h = absurd (cc h)
same_uuid_lem (ok t) s message h = ap ok (ground (arith, str_eq_iff t s, h))

module _ (uuid : String → Result String String) where
  -- What an accepted input is: the job's own object, of a size in bounds, with a SHA-256.
  pub record IsPinnedInput (base prefix : String) (x : Input) : Type 0 where
    pub own_key : x.key ≡ str_append base "input.wav"
    pub own_prefix : prefix ≡ str_append base "results/"
    pub nonempty : 0 < x.size_bytes
    pub bounded : x.size_bytes ≤ max_input_bytes
    pub digest : is_hex_text 64 x.sha256 ≡ true

  pub record IsPinned (x : Spec) : Type 0 where
    pub job_uuid : uuid x.job_id ≡ ok x.job_id
    pub project_uuid : uuid x.project_id ≡ ok x.project_id
    pub known_mode : (x.mode ≡ "poly") ⊎ (x.mode ≡ "mono")
    pub own_prefix : x.output_prefix ≡ str_append (base_of x.project_id x.job_id) "results/"
    pub own_key : x.input.key ≡ str_append (base_of x.project_id x.job_id) "input.wav"
    pub nonempty : 0 < x.input.size_bytes
    pub bounded : x.input.size_bytes ≤ max_input_bytes
    pub digest : is_hex_text 64 x.input.sha256 ≡ true

  among_mode : (m : String) → among m ("poly" ∷ "mono" ∷ []) ≡ true → (m ≡ "poly") ⊎ (m ≡ "mono")
  among_mode m h = elim (Bool-cases (str_eq "poly" m)) [
    | inl e ↦ inl (sym ((str_eq_iff "poly" m).0 e))
    | inr e ↦ elim (Bool-cases (str_eq "mono" m)) [
      | inl f ↦ inr (sym ((str_eq_iff "mono" m).0 f))
      | inr f ↦ absurd (ground (arith, e, f, h))
    ]
  ]

  validate_input-IsPinned :
      (base : String) (prefix : Option String) (inp : Fields) (place : String) (x : Input)
      → validate_input uuid base prefix inp ≡ ok (place, x)
      → IsPinnedInput base place x
  unfolding validate_input
  validate_input-IsPinned base prefix inp place x h = ground (
    arith,
    str_eq_iff x.key (str_append base "input.wav"),
    str_eq_iff place (str_append base "results/"),
  )

  -- The input of an accepted spec is an accepted input.
  spec_input :
      (spec : Fields) (x : Spec)
      → validate_spec uuid spec ≡ ok x
      → (inp : Fields) × (validate_input uuid
            (base_of x.project_id x.job_id)
            (text_at "output_prefix" spec)
            inp
          ≡ ok (x.output_prefix, x.input))
  unfolding validate_spec
  spec_input spec x h = elim (Option-cases (object_at "input" spec)) [
    | inl e ↦ absurd (ground (arith, e, h))
    | inr (inp, e) ↦ (inp, ground (arith, e, h))
  ]

  spec_parts :
      (spec : Fields) (x : Spec)
      → validate_spec uuid spec ≡ ok x
      → (check_uuid uuid x.job_id not_canonical ≡ ok tt)
        × (check_uuid uuid x.project_id not_canonical ≡ ok tt)
        × (among x.mode ("poly" ∷ "mono" ∷ []) ≡ true)
  unfolding validate_spec
  spec_parts spec x h = ground (arith, h)

  validate_spec-IsPinned : (spec : Fields) (x : Spec) → validate_spec uuid spec ≡ ok x → IsPinned x
  validate_spec-IsPinned spec x h =
      let (inp, e) = spec_input spec x h in
      let parts = spec_parts spec x h in
      let pinned =
        validate_input-IsPinned (base_of x.project_id x.job_id) (text_at "output_prefix" spec) inp
          x.output_prefix x.input e in
      record {
        job_uuid = same_uuid_lem (uuid x.job_id) x.job_id not_canonical parts.0;
        project_uuid = same_uuid_lem (uuid x.project_id) x.project_id not_canonical parts.1;
        known_mode = among_mode x.mode parts.2;
        own_prefix = pinned.own_prefix;
        own_key = pinned.own_key;
        nonempty = pinned.nonempty;
        bounded = pinned.bounded;
        digest = pinned.digest;
      }

  -- A payload that is accepted names its project and its job by canonical UUIDs, has a known mode,
  -- and places its input and its outputs under the job's own prefix of the bucket; the input is of
  -- 1 byte to 50 MiB and has a SHA-256 of 64 hexadecimal digits.
  pub validate_payload-IsPinned :
      (payload : Value) (x : Spec) → validate_payload uuid payload ≡ ok x → IsPinned x
  unfolding validate_payload
  validate_payload-IsPinned payload x h = validated (as_object payload) h
    where
      spec_of :
          (o : Option Fields)
          → (or_raise o (invalid "unexpected spec fields") >>= validate_spec uuid) ≡ ok x
          → IsPinned x
      spec_of none g = absurd (cc g)
      spec_of (some spec) g = validate_spec-IsPinned spec x g

      validated :
          (o : Option Fields)
          → (do
            envelope ← or_raise o (invalid "invalid task envelope")
            unless_raise
                (has_keys ("kind" ∷ "spec" ∷ "attempt_id" ∷ []) envelope)
                (invalid "invalid task envelope")
            attempt ←
                or_raise
                  (text_at "attempt_id" envelope)
                  (invalid "invalid task kind or attempt UUID")
            unless_raise
                (is_text (text_at "kind" envelope) "synthx_v73")
                (invalid "invalid task kind or attempt UUID")
            check_uuid uuid attempt "invalid task kind or attempt UUID"
            spec ← or_raise (object_at "spec" envelope) (invalid "unexpected spec fields")
            validate_spec uuid spec)
            ≡ ok x
          → IsPinned x
      validated none g = absurd (cc g)
      validated (some envelope) g = spec_of (object_at "spec" envelope) (ground (arith, g))
