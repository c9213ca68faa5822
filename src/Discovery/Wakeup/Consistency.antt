-- ===== src/Discovery/Wakeup/Consistency.antt =====
-- The snapshot against the nodes, along the steps of the discovery and of the world.
use latency_aware_inference.Common.{
  ◌≡◌, refl, sym, subst, Bool, true, false, ◌||◌, String, Bool-cases, inl, inr, ◌⊎◌,
}
use latency_aware_inference.Common.Text.{among}
use latency_aware_inference.Discovery.Wakeup.{
  Phase, idle, started, World, Step, changes, delivers, reconnects, wakes, lists, watches,
  begins_reading, reads, finishes, fails, Reach, here, next,
}
use latency_aware_inference.Discovery.Wakeup.Clean.{
  Clean, or_right, or_left, Clean-after, watch-Clean, begin-Clean, read-Clean, finish-Clean,
}

unfoldable Inv : World → Type 0
Inv w = ((w.pending || w.wakeup) ≡ true) ⊎ Clean w.phase w.nodes w.watched w.snapshot

-- The case of a step that keeps what is to be notified.
kept :
    {A B : Type 0} (p q q' : Bool)
    → (q ≡ true → q' ≡ true)
    → (A → B)
    → ((p || q) ≡ true) ⊎ A
    → ((p || q') ≡ true) ⊎ B
kept true q q' f g (inl e) = inl refl
kept false q q' f g (inl e) = inl (f e)
kept p q q' f g (inr a) = inr (g a)

delivered : {A : Type 0} (p q : Bool) → ((p || q) ≡ true) ⊎ A → ((false || (q || p)) ≡ true) ⊎ A
delivered true q i = inl (or_right q true refl)
delivered false true i = inl refl
delivered false false (inl e) = inl e
delivered false false (inr a) = inr a

changed :
    {A B : Type 0} (p n q : Bool)
    → (n ≡ false → A → B)
    → ((p || q) ≡ true) ⊎ A
    → (((p || n) || q) ≡ true) ⊎ B
changed true n q f i = inl refl
changed false true q f i = inl refl
changed false false q f (inl e) = inl e
changed false false q f (inr a) = inr (f refl a)

at :
    (w : World) {p : Phase}
    → w.phase ≡ p
    → Clean w.phase w.nodes w.watched w.snapshot
    → Clean p w.nodes w.watched w.snapshot
at w e c = subst (λ p. Clean p w.nodes w.watched w.snapshot) e c

step-Inv : (w : World) {u : World} → Step w u → Inv w → Inv u
unfolding Inv Clean
step-Inv w (changes id v) i =
    changed w.pending _ w.wakeup
      (λ quiet. Clean-after w.nodes w.watched id v quiet w.phase w.snapshot) i
step-Inv w delivers i = delivered w.pending w.wakeup i
step-Inv w reconnects i = inl (or_right w.pending true refl)
step-Inv w (wakes e t) i = inr tt
step-Inv w (lists ids e l) i = inr (λ j. (l j, listed j))
  where
    listed : (j : String) → (among j ids ≡ false) ⊎ ((among j ids ≡ true) ⊎ (w.watched j ≡ true))
    listed j = elim (Bool-cases (among j ids)) [ inl t ↦ inr (inl t) | inr f ↦ inl f ]
step-Inv w (watches id rest ids called e) i =
    kept w.pending w.wakeup _ (or_left w.wakeup _)
      (λ c. watch-Clean id rest ids w.nodes w.watched w.snapshot (at w e c)) i
step-Inv w (begins_reading ids e) i =
    kept w.pending w.wakeup _ (λ t. t)
      (λ c. begin-Clean ids w.nodes w.watched w.snapshot (at w e c)) i
step-Inv w (reads id rest seen e) i =
    kept w.pending w.wakeup _ (λ t. t)
      (λ c. read-Clean id rest seen w.nodes w.watched w.snapshot (at w e c)) i
step-Inv w (finishes seen e) i =
    kept w.pending w.wakeup _ (λ t. t)
      (λ c. finish-Clean seen w.nodes w.watched w.snapshot (at w e c)) i
step-Inv w fails i = inl (or_right w.pending true refl)

reach-Inv : (w : World) {u : World} → Reach w u → Inv w → Inv u
reach-Inv w here i = i
reach-Inv w (next {u} r s) i = step-Inv u s (reach-Inv w r i)

-- From a refresh thread that starts a refresh, after any steps of it and of the world around it:
-- when the thread is idle again, no notification is pending and the wakeup is not set, the last
-- snapshot is the data of every node, and it has no other node.
pub reach-snapshot :
    (w u : World)
    → w.phase ≡ started
    → Reach w u
    → u.phase ≡ idle
    → u.pending ≡ false
    → u.wakeup ≡ false
    → (id : String) → u.snapshot id ≡ u.nodes id
unfolding Inv Clean
reach-snapshot w u s r e p k id =
    known (reach-Inv w r (inr (subst (λ q. Clean q w.nodes w.watched w.snapshot) (sym s) tt)))
  where
    known : Inv u → u.snapshot id ≡ u.nodes id
    known (inl t) = absurd (cc (t, p, k))
    known (inr c) = (at u e c id).0
