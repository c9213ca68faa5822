-- ===== src/Discovery/Wakeup/Clean.antt =====
-- What the refresh thread knows of the nodes while no notification is pending and the wakeup is not
-- set, and that its steps and the changes that leave no notification keep it.
use latency_aware_inference.Common.{
  ◌≡◌, refl, sym, ap, ◌∙◌, subst, Bool, true, false, ◌||◌, Option, none, some, String, str_eq,
  str_eq_iff, List, [], ◌∷◌, if_cases, Bool-cases, inl, inr, ◌⊎◌, if◌then◌else◌,
}
use latency_aware_inference.Common.Text.{among}
use latency_aware_inference.Discovery.{Registered}
use latency_aware_inference.Discovery.Wakeup.{
  Nodes, Phase, idle, started, watching, reading, is_there, differs, with_name,
}

-- A name whose later changes leave a notification.
abbrev pub IsCovered : Nodes → (String → Bool) → String → Type 0
IsCovered nodes watched id = (watched id ≡ true) ⊎ (nodes id ≡ none)

abbrev pub IsRead : Nodes → (String → Bool) → Nodes → String → Type 0
IsRead nodes watched seen id = (seen id ≡ nodes id) × IsCovered nodes watched id

-- What a phase knows of the nodes, the watched names and the snapshot while nothing is to be
-- notified.
unfoldable pub Clean : Phase → Nodes → (String → Bool) → Nodes → Type 0
Clean idle nodes watched snapshot = (id : String) → IsRead nodes watched snapshot id
Clean started nodes watched snapshot = Unit {0}
Clean (watching rest ids) nodes watched snapshot =
    (id : String)
    → (among id ids ≡ is_there (nodes id))
      × ((among id ids ≡ false) ⊎ ((among id rest ≡ true) ⊎ (watched id ≡ true)))
Clean (reading rest seen) nodes watched snapshot =
    (id : String) → ((among id rest ≡ true) × (watched id ≡ true)) ⊎ IsRead nodes watched seen id

there_none : (o : Option Registered) → is_there o ≡ false → o ≡ none
there_none none e = refl
there_none (some r) e = absurd (cc e)

there_same : (a b : Bool) → differs a b ≡ false → a ≡ b
there_same true true e = refl
there_same true false e = absurd (cc e)
there_same false true e = absurd (cc e)
there_same false false e = refl

pub or_false : (a b : Bool) → (a || b) ≡ false → (a ≡ false) × (b ≡ false)
or_false true b e = absurd (cc e)
or_false false b e = (refl, e)

with_name_cases {ℓ} :
    {A : Type 0} (Q : A → Type ℓ) (id : String) (a : A) (f : String → A) (j : String)
    → (id ≡ j → Q a)
    → Q (f j)
    → Q (with_name id a f j)
with_name_cases Q id a f j p q =
    if_cases Q (str_eq id j) a (f j) (λ e. p ((str_eq_iff id j).0 e)) (λ _. q)

IsCovered-same :
    (a b : Nodes) (watched : String → Bool) (j : String)
    → a j ≡ b j
    → IsCovered a watched j
    → IsCovered b watched j
IsCovered-same a b watched j e (inl t) = inl t
IsCovered-same a b watched j e (inr n) = inr (sym e ∙ n)

-- A change that leaves no notification is none at a name that is covered.
module _ (nodes : Nodes) (watched : String → Bool) (id : String) (v : Option Registered)
    (quiet : (watched id || differs (is_there (nodes id)) (is_there v)) ≡ false) where
  unwatched : watched id ≡ false
  unwatched = (or_false _ _ quiet).0

  as_there : is_there (nodes id) ≡ is_there v
  as_there = there_same _ _ (or_false _ _ quiet).1

  after_there : (j : String) → is_there (nodes j) ≡ is_there (with_name id v nodes j)
  after_there j =
      with_name_cases (λ o. is_there (nodes j) ≡ is_there o) id v nodes j
        (λ e. sym (ap (λ k. is_there (nodes k)) e) ∙ as_there) refl

  still_none : nodes id ≡ none → v ≡ none
  still_none e = there_none v (sym as_there ∙ ap is_there e)

  changed_none : IsCovered nodes watched id → nodes id ≡ v
  changed_none (inl e) = absurd (cc (e, unwatched))
  changed_none (inr e) = e ∙ sym (still_none e)

  after_same : (j : String) → IsCovered nodes watched j → nodes j ≡ with_name id v nodes j
  after_same j c =
      with_name_cases (λ o. nodes j ≡ o) id v nodes j
        (λ e. subst (λ k. IsCovered nodes watched k → nodes k ≡ v) e changed_none c) refl

  after-IsRead :
      (seen : Nodes) (j : String)
      → IsRead nodes watched seen j
      → IsRead (with_name id v nodes) watched seen j
  after-IsRead seen j (e, c) =
      (e ∙ after_same j c, IsCovered-same nodes (with_name id v nodes) watched j (after_same j c) c)

  pub Clean-after :
      (p : Phase) (snapshot : Nodes)
      → Clean p nodes watched snapshot
      → Clean p (with_name id v nodes) watched snapshot
  unfolding Clean
  Clean-after idle snapshot c = λ j. after-IsRead snapshot j (c j)
  Clean-after started snapshot c = c
  Clean-after (watching rest ids) snapshot c = λ j. ((c j).0 ∙ after_there j, (c j).1)
  Clean-after (reading rest seen) snapshot c =
      λ j. elim (c j) [ inl l ↦ inl l | inr r ↦ inr (after-IsRead seen j r) ]

pub or_right : (a b : Bool) → b ≡ true → (a || b) ≡ true
or_right true b e = refl
or_right false b e = e

pub or_left : (a b : Bool) → a ≡ true → (a || b) ≡ true
or_left true b e = refl
or_left false b e = absurd (cc e)

or_true : (a b : Bool) → (a || b) ≡ true → (a ≡ true) ⊎ (b ≡ true)
or_true true b e = inl refl
or_true false b e = inr e

-- A step of the refresh thread that sets no wakeup.
pub watch-Clean :
    (id : String) (rest ids : List String) (nodes : Nodes) (watched : String → Bool)
    (snapshot : Nodes)
    → Clean (watching (id ∷ rest) ids) nodes watched snapshot
    → Clean (watching rest ids) nodes (with_name id true watched) snapshot
unfolding Clean
watch-Clean id rest ids nodes watched snapshot c j = ((c j).0, split (c j).1)
  where
    seen : watched j ≡ true → with_name id true watched j ≡ true
    seen t = with_name_cases (λ b. b ≡ true) id true watched j (λ _. refl) t

    listed :
        (str_eq id j ≡ true) ⊎ (among j rest ≡ true)
        → (among j rest ≡ true) ⊎ (with_name id true watched j ≡ true)
    listed (inl e) = inr (ap (λ b. if b then true else watched j) e)
    listed (inr l) = inl l

    split :
        ((among j ids ≡ false) ⊎ ((among j (id ∷ rest) ≡ true) ⊎ (watched j ≡ true)))
        → (among j ids ≡ false) ⊎ ((among j rest ≡ true) ⊎ (with_name id true watched j ≡ true))
    split (inl f) = inl f
    split (inr (inl l)) = inr (listed (or_true _ _ l))
    split (inr (inr t)) = inr (inr (seen t))

of_listed :
    {a : Bool} {b : Bool} → a ≡ true → ((a ≡ false) ⊎ ((false ≡ true) ⊎ (b ≡ true))) → b ≡ true
of_listed t (inl f) = absurd (cc (t, f))
of_listed t (inr (inl e)) = absurd (cc e)
of_listed t (inr (inr e)) = e

pub begin-Clean :
    (ids : List String) (nodes : Nodes) (watched : String → Bool) (snapshot : Nodes)
    → Clean (watching [] ids) nodes watched snapshot
    → Clean (reading ids (λ id. none)) nodes watched snapshot
unfolding Clean
begin-Clean ids nodes watched snapshot c j = elim (Bool-cases (among j ids)) [
  | inl t ↦ inl (t, of_listed t (c j).1)
  | inr f ↦ let gone = there_none (nodes j) (sym (c j).0 ∙ f) in inr (sym gone, inr gone)
]

pub read-Clean :
    (id : String) (rest : List String) (seen nodes : Nodes) (watched : String → Bool)
    (snapshot : Nodes)
    → Clean (reading (id ∷ rest) seen) nodes watched snapshot
    → Clean (reading rest (with_name id (nodes id) seen)) nodes watched snapshot
unfolding Clean
read-Clean id rest seen nodes watched snapshot c j = split (c j)
  where
    P : Type 0
    P =
        ((among j rest ≡ true) × (watched j ≡ true))
        ⊎ IsRead nodes watched (with_name id (nodes id) seen) j

    listed : watched j ≡ true → (str_eq id j ≡ true) ⊎ (among j rest ≡ true) → P
    listed t (inl e) =
        inr (ap (λ b. if b then nodes id else seen j) e ∙ ap nodes ((str_eq_iff id j).0 e), inl t)
    listed t (inr l) = inl (l, t)

    split : (((among j (id ∷ rest) ≡ true) × (watched j ≡ true)) ⊎ IsRead nodes watched seen j) → P
    split (inl (l, t)) = listed t (or_true _ _ l)
    split (inr (e, k)) =
        inr (with_name_cases (λ o. o ≡ nodes j) id (nodes id) seen j (ap nodes) e, k)

pub finish-Clean :
    (seen nodes : Nodes) (watched : String → Bool) (snapshot : Nodes)
    → Clean (reading [] seen) nodes watched snapshot
    → Clean idle nodes watched seen
unfolding Clean
finish-Clean seen nodes watched snapshot c j = elim (c j) [ inl l ↦ absurd (cc (l.0)) | inr r ↦ r ]
