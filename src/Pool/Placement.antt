-- ===== src/Pool/Placement.antt =====
-- A batch that one proxy accepts: what the offers do to the list of proxies.
use latency_aware_inference.Common.{
  ℕ, ◌≡◌, refl, ap, Bool, true, false, ◌||◌, List, [], ◌∷◌, ◌++◌, elem, ◌==◌, ==_iff, Bool-cases,
  All, arith, inl, inr, ◌⊎◌,
}
use latency_aware_inference.Proxy.{GrpcWorker, try_submit}
use latency_aware_inference.Pool.{offer, offer_in}

-- One proxy, for which `C` holds, accepted the batch; the others are as they were.
pub data Placed (C : GrpcWorker → Type 0) (batch : List ℕ)
    : List GrpcWorker → List GrpcWorker → Type 0 where
  here :
      (w : GrpcWorker) (ws : List GrpcWorker)
      → C w
      → (try_submit w batch).0 ≡ true
      → Placed C batch (w ∷ ws) ((try_submit w batch).1 ∷ ws)
  there :
      (w : GrpcWorker) {ws ws' : List GrpcWorker}
      → Placed C batch ws ws'
      → Placed C batch (w ∷ ws) (w ∷ ws')

try_submit-refused :
    (w : GrpcWorker) (b : List ℕ) → (try_submit w b).0 ≡ false → (try_submit w b).1 ≡ w
unfolding try_submit
try_submit-refused w b h = ground arith

module _ (C : GrpcWorker → Type 0) (batch : List ℕ) where
  -- An offer is accepted by one proxy, or changes nothing.
  pub offer-Placed :
      (object : ℕ) (ws : List GrpcWorker)
      → All (λ w. w.identity ≡ object → C w) ws
      → ((offer object batch ws).0 ≡ true × Placed C batch ws (offer object batch ws).1)
        ⊎ ((offer object batch ws).0 ≡ false × ((offer object batch ws).1 ≡ ws))
  unfolding offer
  offer-Placed object [] a = inr (refl, refl)
  offer-Placed object (w ∷ ws) a = elim (Bool-cases (w.identity == object)) [
    | inl same ↦ elim (Bool-cases (try_submit w batch).0) [
      | inl taken ↦ rw same (inl (taken, here w ws (a.0 ((==_iff w.identity object).0 same)) taken))
      | inr refused ↦ rw same (inr (refused, ap (λ v. v ∷ ws) (try_submit-refused w batch refused)))
    ]
    | inr other ↦ elim (offer-Placed object ws a.1) [
      | inl (t, p) ↦ rw other (inl (t, there w p))
      | inr (t, e) ↦ rw other (inr (t, ap (λ v. w ∷ v) e))
    ]
  ]

  pub offer_in-Placed :
      (objects : List ℕ) (ws : List GrpcWorker)
      → All (λ object. All (λ w. w.identity ≡ object → C w) ws) objects
      → ((offer_in objects batch ws).0 ≡ true × Placed C batch ws (offer_in objects batch ws).1)
        ⊎ ((offer_in objects batch ws).0 ≡ false × ((offer_in objects batch ws).1 ≡ ws))
  unfolding offer_in
  offer_in-Placed [] ws a = inr (refl, refl)
  offer_in-Placed (object ∷ objects) ws a = elim (offer-Placed object ws a.0) [
    | inl (t, p) ↦ rw t (inl (t, p))
    | inr (t, e) ↦ rw t (offer_in-Placed objects ws a.1)
  ]

-- The tasks that wait in some proxy's queue.
abbrev pub in_batches : ℕ → List (List ℕ) → Bool
in_batches r [] = false
in_batches r (b ∷ bs) = elem r b || in_batches r bs

abbrev pub waiting : ℕ → List GrpcWorker → Bool
waiting r [] = false
waiting r (w ∷ ws) = in_batches r w.batch_queue || waiting r ws

in_batches-append :
    (r : ℕ) (b : List ℕ) (bs : List (List ℕ))
    → in_batches r (bs ++ b ∷ []) ≡ in_batches r bs || elem r b
in_batches-append r b [] = ground arith
in_batches-append r b (c ∷ bs) = ground (arith, in_batches-append r b bs)

try_submit-in_batches :
    (r : ℕ) (b : List ℕ) (w : GrpcWorker)
    → (try_submit w b).0 ≡ true
    → in_batches r (try_submit w b).1.batch_queue ≡ in_batches r w.batch_queue || elem r b
unfolding try_submit
try_submit-in_batches r b w h = ground (arith, in_batches-append r b w.batch_queue)

-- After a placement exactly the tasks that waited before and those of the batch wait.
pub Placed-waiting :
    (C : GrpcWorker → Type 0) (batch : List ℕ) (r : ℕ) {ws ws' : List GrpcWorker}
    → Placed C batch ws ws'
    → waiting r ws' ≡ waiting r ws || elem r batch
Placed-waiting C batch r (here w ws c taken) = ground (arith, try_submit-in_batches r batch w taken)
Placed-waiting C batch r (there w p) = ground (arith, Placed-waiting C batch r p)
