-- ===== src/Deploy/Drain/Owners.antt =====
-- Markers of another owner through drains.
use latency_aware_inference.Common.{
  ◌≡◌, refl, ap, subst, Bool, true, false, ◌||◌, Option, none, some, String, str_eq, List, [], ◌∷◌,
  All, arith, if_cases, if◌then◌else◌,
}
use latency_aware_inference.Common.Result.{Result, ok, raised}
use latency_aware_inference.Deploy.Drain.{
  Boundary, gateway, worker, Platform, is_same, with_value, Publish, published, cut_before,
  cut_after, link, fence, begin_drain, same_token, is_foreign, unlinked, end_drain,
}

-- The operations on the markers, and what other processes do between them.
pub data Event : Type 0 where
  begins : String → Bool → Event
  fences : Publish → Boundary → Event
  ends : Bool → Event
  others : (Platform → Platform) → Event

unfoldable pub event : Event → Platform → Platform
unfolding begin_drain fence end_drain
event (begins token answers) p = (begin_drain token answers p).1
event (fences how b) p = (fence how b p).1
event (ends answers) p = (end_drain answers p).1
event (others f) p = f p

unfoldable pub events : List Event → Platform → Platform
unfolding event
events [] p = p
events (e ∷ es) p = events es (event e p)

-- The marker is there, and its text is not the token.
pub record IsForeign (b : Boundary) (s : String) (p : Platform) : Type 0 where
  pub there : p.control b ≡ some s
  pub foreign : same_token (some s) p.token ≡ false

-- A new token is not the text of the marker, and the other processes leave the marker and the
-- token of this process.
unfoldable pub Leaves : Boundary → String → Event → Type 0
Leaves b s (begins token answers) = str_eq s token ≡ false
Leaves b s (fences how c) = Unit {0}
Leaves b s (ends answers) = Unit {0}
Leaves b s (others f) = (p : Platform) → IsForeign b s p → IsForeign b s (f p)

same_lem : (b c : Boundary) → is_same b c ≡ true → b ≡ c
same_lem gateway gateway e = refl
same_lem gateway worker e = absurd (cc e)
same_lem worker gateway e = absurd (cc e)
same_lem worker worker e = refl

module _ (b : Boundary) (s : String) where
  -- A marker is published only where there is none.
  placed :
      (c : Boundary) (p : Platform)
      → p.control c ≡ none
      → IsForeign b s p
      → IsForeign b s (record p { control = with_value c p.token p.control })
  placed c p e k = record {
    there =
        if_cases (λ (x : Option String). x ≡ some s) (is_same c b) _ _
          (λ q. absurd (cc (e, ap p.control (same_lem c b q), k.there))) (λ _. k.there);
    foreign = k.foreign;
  }

  link-IsForeign :
      (how : Publish) (c : Boundary) (o : Option String) (p : Platform)
      → p.control c ≡ o
      → IsForeign b s p
      → IsForeign b s (link how c o p).1
  link-IsForeign cut_before c o p e k = k
  link-IsForeign published c (some t) p e k = k
  link-IsForeign cut_after c (some t) p e k = k
  link-IsForeign published c none p e k = placed c p e k
  link-IsForeign cut_after c none p e k = placed c p e k

  -- Where no named marker is foreign, this one is not named.
  unnamed :
      (p : Platform)
      → (is_foreign p gateway (p.control gateway) || is_foreign p worker (p.control worker)) ≡ false
      → IsForeign b s p
      → p.named b ≡ false
  unnamed p e k =
      let none_foreign : is_foreign p b (p.control b) ≡ false = each b in
      let h = subst (λ (o : Option String). is_foreign p b o ≡ false) k.there none_foreign in
      ground (arith, h, k.foreign)
    where
      each : (c : Boundary) → is_foreign p c (p.control c) ≡ false
      each gateway = ground (arith, e)
      each worker = ground (arith, e)

  end_drain-IsForeign :
      (answers : Bool) (p : Platform) → IsForeign b s p → IsForeign b s (end_drain answers p).1
  unfolding end_drain
  end_drain-IsForeign answers p k =
      if_cases (λ (x : Result String (Unit {0}) × Platform). IsForeign b s x.1)
        (is_foreign p gateway (p.control gateway) || is_foreign p worker (p.control worker)) _ _
        (λ _. k) (λ e. opened (unnamed p e k) answers)
    where
      there : p.named b ≡ false → unlinked p b ≡ some s
      there u =
          if_cases (λ (o : Option String). o ≡ some s) (p.named b) _ _ (λ v. absurd (cc (u, v)))
            (λ _. k.there)

      reopened : Platform
      reopened = record p { control = unlinked p; named = λ c. false; token = none }

      opened :
          p.named b ≡ false
          → (ans : Bool)
          → IsForeign b s
              (if◌then◌else◌ {A = Result String (Unit {0}) × Platform} ans
                (ok tt, record reopened { backend_drains = false })
                (raised "backend failed", reopened)).1
      opened u true = record { there = there u; foreign = refl }
      opened u false = record { there = there u; foreign = refl }

  event-IsForeign :
      (e : Event) (p : Platform) → Leaves b s e → IsForeign b s p → IsForeign b s (event e p)
  unfolding event Leaves begin_drain fence
  event-IsForeign (begins token true) p l k = record { there = k.there; foreign = l }
  event-IsForeign (begins token false) p l k = record { there = k.there; foreign = l }
  event-IsForeign (fences how c) p l k =
      link-IsForeign how c (p.control c) (record p { named = with_value c true p.named }) refl
        (record { there = k.there; foreign = k.foreign })
  event-IsForeign (ends answers) p l k = end_drain-IsForeign answers p k
  event-IsForeign (others f) p l k = l p k

  -- A marker that another owner published is neither replaced nor removed, by any sequence of
  -- begun and ended drains and publications, complete or interrupted, whatever the backend
  -- answers, under the conditions that no new token is its text and that the other processes leave
  -- it.
  pub events-IsForeign :
      (es : List Event) (p : Platform)
      → All (Leaves b s) es
      → IsForeign b s p
      → IsForeign b s (events es p)
  unfolding events
  events-IsForeign [] p l k = k
  events-IsForeign (e ∷ es) p l k = events-IsForeign es (event e p) l.1 (event-IsForeign e p l.0 k)
