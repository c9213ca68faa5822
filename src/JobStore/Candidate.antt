-- ===== src/JobStore/Candidate.antt =====
-- The row that `claim` chooses.
use latency_aware_inference.Common.{
  ℕ, ◌≡◌, refl, subst, Bool, true, false, not, ◌&&◌, Option, none, some, List, [], ◌∷◌,
  if◌then◌else◌, arith, if_cases, All,
}
use latency_aware_inference.JobStore.{Job, is_due, is_wanted, precedes, first_of, candidate}

module _ (locked : ℕ → Bool) (wanted : Option ℕ) (now : ℕ) (rows : ℕ → Option Job) where
  -- A row that `claim` may take.
  unfoldable pub IsClaimable : ℕ → Job → Type 0
  IsClaimable i j =
      (rows i ≡ some j) × ((is_wanted wanted i && not (locked i) && is_due now j) ≡ true)

precedes_refl : (i : ℕ) (j : Job) → precedes i j i j ≡ true
unfolding precedes
precedes_refl i j = ground arith

precedes_total :
    (i : ℕ) (j : Job) (k : ℕ) (l : Job) → precedes i j k l ≡ false → precedes k l i j ≡ true
unfolding precedes
precedes_total i j k l h = ground arith

precedes_trans :
    (i : ℕ) (j : Job) (k : ℕ) (l : Job) (m : ℕ) (n : Job)
    → precedes i j k l ≡ true
    → precedes k l m n ≡ true
    → precedes i j m n ≡ true
unfolding precedes
precedes_trans i j k l m n h g = ground arith

-- What a choice over a list of keys says of each key.
unfoldable pub IsBest : (ℕ → Option Job) → (ℕ → Job → Type 0) → List ℕ → Option (ℕ × Job) → Type 0
IsBest rows C ids none = All (λ k. (l : Job) → C k l → ⊥) ids
IsBest rows C ids (some (i, j)) = C i j × All (λ k. (l : Job) → C k l → precedes i j k l ≡ true) ids

All-map : {P Q : ℕ → Type 0} → ((k : ℕ) → P k → Q k) → (ks : List ℕ) → All P ks → All Q ks
All-map f [] h = tt
All-map f (k ∷ ks) h = (f k h.0, All-map f ks h.1)

module _ (locked : ℕ → Bool) (wanted : Option ℕ) (now : ℕ) (rows : ℕ → Option Job) where
  same_row :
      (k : ℕ) (j l : Job)
      → IsClaimable locked wanted now rows k j
      → IsClaimable locked wanted now rows k l
      → j ≡ l
  unfolding IsClaimable
  same_row k j l c d = cc (c.0, d.0)

  skipped :
      (k : ℕ) (ids : List ℕ) (rest : Option (ℕ × Job))
      → ((l : Job) → IsClaimable locked wanted now rows k l → ⊥)
      → IsBest rows (IsClaimable locked wanted now rows) ids rest
      → IsBest rows (IsClaimable locked wanted now rows) (k ∷ ids) rest
  unfolding IsBest
  skipped k ids none never best = (never, best)
  skipped k ids (some (m, n)) never best = (best.0, (λ l c. elim (never l c) [ ], best.1))

  chosen :
      (k : ℕ) (j : Job) (ids : List ℕ) (rest : Option (ℕ × Job))
      → IsClaimable locked wanted now rows k j
      → IsBest rows (IsClaimable locked wanted now rows) ids rest
      → IsBest rows (IsClaimable locked wanted now rows) (k ∷ ids) (some (first_of k j rest))
  unfolding IsBest
  chosen k j ids none c best = (
    c,
    (
      λ l d. subst (λ x. precedes k j k x ≡ true) (same_row k j l c d) (precedes_refl k j),
      All-map (λ q never l d. elim (never l d) [ ]) ids best,
    ),
  )
  chosen k j ids (some (m, n)) c best =
      if_cases (λ x. IsBest rows (IsClaimable locked wanted now rows) (k ∷ ids) (some x))
        (precedes k j m n) _ _
        (λ e. (
          c,
          (
            λ l d. subst (λ x. precedes k j k x ≡ true) (same_row k j l c d) (precedes_refl k j),
            All-map (λ q p l d. precedes_trans k j m n q l e (p l d)) ids best.1,
          ),
        ))
        (λ e. (
          best.0,
          (
            λ l d.
                subst (λ x. precedes m n k x ≡ true) (same_row k j l c d)
                  (precedes_total k j m n e),
            best.1,
          ),
        ))

  -- The row that `claim` takes is one that it may take, and comes first in the order of the
  -- statement among the rows that it may take; if it takes none, it may take none.
  pub candidate-IsBest :
      (ids : List ℕ)
      → IsBest rows (IsClaimable locked wanted now rows) ids (candidate locked wanted now rows ids)
  unfolding IsBest IsClaimable
  candidate-IsBest [] = tt
  candidate-IsBest (k ∷ ids) = split (candidate-IsBest ids) (rows k) refl
    where
      split :
          IsBest rows
            (IsClaimable locked wanted now rows)
            ids
            (candidate locked wanted now rows ids)
          → (o : Option Job) → rows k ≡ o
          → let rest = candidate locked wanted now rows ids in
            IsBest rows (IsClaimable locked wanted now rows) (k ∷ ids) (elim o [
              | none ↦ rest
              | some j ↦
                  if is_wanted wanted k && not (locked k) && is_due now j
                  then some (first_of k j rest)
                  else rest
            ])
      split best none e =
          skipped k ids (candidate locked wanted now rows ids) (λ l c. ground (arith, e, c.0)) best
      split best (some j) e =
          let rest = candidate locked wanted now rows ids in
          if_cases (IsBest rows (IsClaimable locked wanted now rows) (k ∷ ids))
            (is_wanted wanted k && not (locked k) && is_due now j) _ _
            (λ f. chosen k j ids rest (e, f) best)
            (λ f. skipped k ids rest (λ l c. ground (arith, e, f, c.0, c.1)) best)
