-- ===== src/Worker/Balance.antt =====
-- Which worker `submit` takes.
use latency_aware_inference.Common.{
  ℕ, zero, suc, ◌≡◌, ◌<◌, ◌%◌, true, false, not, some, List, [], ◌∷◌, length, get_elem?, select,
  is_empty, All, arith, if_cases, refl, ◌⊎◌, inl, inr,
}
use latency_aware_inference.Worker.{Worker, WorkerPool, busy, choose}

module _ {A : Type 0} (P : A → Type 0) where
  get_elem?-All :
      (xs : List A) (i : ℕ) → All P xs → i < length xs → (x : A) × ((get_elem? xs i ≡ some x) × P x)
  get_elem?-All [] i a l = absurd (omega (arith, l))
  get_elem?-All (x ∷ xs) zero a l = (x, (refl, a.0))
  get_elem?-All (x ∷ xs) (suc i) a l = get_elem?-All xs i a.1 (omega (arith, l))

unfoldable pub Among : Worker → List Worker → Type 0
Among w [] = ⊥
Among w (v ∷ vs) = (v ≡ w) ⊎ Among w vs

every : (ws : List Worker) → All (λ w. Among w ws) ws
unfolding Among
every [] = tt
every (v ∷ vs) = (inl refl, later vs (every vs))
  where
    later : (xs : List Worker) → All (λ w. Among w vs) xs → All (λ w. (v ≡ w) ⊎ Among w vs) xs
    later [] a = tt
    later (x ∷ xs) a = (inr a.0, later xs a.1)

module _ (P : Worker → Type 0) where
  select-idle :
      (ws : List Worker)
      → All P ws
      → All (λ w. P w × (busy w ≡ false)) (select (λ w. not (busy w)) ws)
  select-idle [] a = tt
  select-idle (w ∷ ws) a =
      if_cases (All (λ w. P w × (busy w ≡ false))) (not (busy w)) _ _
        (λ e. ((a.0, ground (arith, e)), select-idle ws a.1)) (λ _. select-idle ws a.1)

no_idle :
    (ws : List Worker)
    → is_empty (select (λ w. not (busy w)) ws) ≡ true
    → All (λ w. busy w ≡ true) ws
no_idle [] e = tt
no_idle (w ∷ ws) e = (ground (arith, e), no_idle ws (ground (arith, e)))

empty_length : {A : Type 0} (xs : List A) → is_empty xs ≡ false → 0 < length xs
empty_length [] e = ground (arith, e)
empty_length (x ∷ xs) e = omega arith

-- A submission to a pool with workers finds a worker of the pool for any round-robin index, and
-- an idle one unless each of them has queued work.
pub choose-idle :
    (p : WorkerPool)
    → is_empty p.workers ≡ false
    → (w : Worker) × ((choose p ≡ some w)
        × (Among w p.workers × (All (λ v. busy v ≡ true) p.workers ⊎ (busy w ≡ false))))
unfolding choose
choose-idle p full =
    if_cases
      (λ (pool : List Worker).
        (w : Worker) × ((get_elem? pool (p.rr_index % length pool) ≡ some w)
          × (Among w p.workers × (All (λ v. busy v ≡ true) p.workers ⊎ (busy w ≡ false)))))
      (is_empty (select (λ w. not (busy w)) p.workers)) _ _
      (λ e. pick p.workers full (mapped p.workers (no_idle p.workers e) (every p.workers)))
      (λ e. pick (select (λ w. not (busy w)) p.workers) e (
        idle (select (λ w. not (busy w)) p.workers)
          (select-idle (λ w. Among w p.workers) p.workers (every p.workers))))
  where
    IsFit : Worker → Type 0
    IsFit w = Among w p.workers × (All (λ v. busy v ≡ true) p.workers ⊎ (busy w ≡ false))

    mapped :
        (ws : List Worker)
        → All (λ v. busy v ≡ true) p.workers
        → All (λ w. Among w p.workers) ws
        → All IsFit ws
    mapped [] b a = tt
    mapped (w ∷ ws) b a = ((a.0, inl b), mapped ws b a.1)

    idle : (ws : List Worker) → All (λ w. Among w p.workers × (busy w ≡ false)) ws → All IsFit ws
    idle [] a = tt
    idle (w ∷ ws) a = ((a.0.0, inr a.0.1), idle ws a.1)

    pick :
        (ws : List Worker)
        → is_empty ws ≡ false
        → All IsFit ws
        → (w : Worker) × ((get_elem? ws (p.rr_index % length ws) ≡ some w) × IsFit w)
    pick ws e a =
        let positive = empty_length ws e in
        get_elem?-All IsFit ws (p.rr_index % length ws) a (omega (arith, positive))
