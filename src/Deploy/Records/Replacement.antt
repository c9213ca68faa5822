-- ===== src/Deploy/Records/Replacement.antt =====
-- What the two attempts of `run` to replace the running release do with the files: the new release,
-- and in its rollback the previous one.
use latency_aware_inference.Common.{
  ◌≡◌, ◌≢◌, refl, sym, ap, Bool, true, false, some, String, str_eq, str_eq_iff, [], ◌∷◌, arith,
  Bool-cases, inl, inr, if◌then◌else◌,
}
use latency_aware_inference.Common.Text.{among}
use latency_aware_inference.Common.Result.{Result, ok, raised}
use latency_aware_inference.Deploy.{Action, Runtime, continue, ◌then◌, raises, replace, roll_back}
use latency_aware_inference.Deploy.Command.{Environment, dev, staging}
use latency_aware_inference.Deploy.Records.{
  Shared, Files, Write, written, cut_before, cut_after, Host, containers, updated, saved, save,
  and_save, write_record, restore, runtime,
}

module _ {S : Type 0} where
  continue-elim :
      {E A B : Type 0} (P : Result E B × S → Type 0) (x : Result E A × S) (rest : A → Action S E B)
      → ((a : A) (s : S) → P (rest a s))
      → ((e : E) (s : S) → P (raised e, s))
      → P (continue x rest)
  continue-elim P (ok a, s) rest p q = p a s
  continue-elim P (raised e, s) rest p q = q e s

-- A predicate of the files, if the operation returned.
abbrev pub IfOk : {H : Type 0} → (Files → Type 0) → Result String Unit × (H × Files) → Type 0
IfOk Q (ok _, (h, g)) = Q g
IfOk Q (raised m, s) = Unit

-- The containers of the two services, by the names of their Compose project.
abbrev pub service_containers : Environment → String × String
service_containers dev = ("deploy-gateway-1", "deploy-text-worker-1")
service_containers staging =
    ("synthx-staging-platform-gateway-1", "synthx-staging-platform-text-worker-1")

-- Both containers are pinned to the image, and all else is as it was.
pub record IsPinned (e : Environment) (image : String) (old new : Shared) : Type 0 where
  pub gateway : new.dependency_images (service_containers e).0 ≡ some image
  pub text_worker : new.dependency_images (service_containers e).1 ≡ some image
  pub others :
      (name : String)
      → name ≢ (service_containers e).0
      → name ≢ (service_containers e).1
      → new.dependency_images name ≡ old.dependency_images name
  pub settings : new.settings ≡ old.settings

among_two : (a b name : String) → name ≢ a → name ≢ b → among name (a ∷ b ∷ []) ≡ false
among_two a b name p q = elim (Bool-cases (str_eq a name)) [
  | inl e ↦ elim (p (sym ((str_eq_iff a name).0 e))) [ ]
  | inr e ↦ elim (Bool-cases (str_eq b name)) [
    | inl g ↦ elim (q (sym ((str_eq_iff b name).0 g))) [ ]
    | inr g ↦ ground (arith, e, g)
  ]
]

updated-IsPinned :
    (e : Environment) (image : String) (old : Shared)
    → IsPinned e image old (updated (containers e) image old)
updated-IsPinned dev image old = record {
  gateway = refl;
  text_worker = refl;
  others = λ name p q.
      ap (λ b. if b then some image else old.dependency_images name) (among_two _ _ name p q);
  settings = refl;
}
updated-IsPinned staging image old = record {
  gateway = refl;
  text_worker = refl;
  others = λ name p q.
      ap (λ b. if b then some image else old.dependency_images name) (among_two _ _ name p q);
  settings = refl;
}

module _ (document : String → String × String → String) (e : Environment) (shared : Shared)
    (f : Files) where
  -- The files of a release with its image.
  abbrev pub IsRecorded : String → String → Files → Type 0
  IsRecorded release image g =
      (g.current ≡ (document release f.current, image)) × IsPinned e image shared g.shared_file

  abbrev pub IsRestored : Files → Type 0
  IsRestored g = (g.current ≡ f.current) × (g.shared_file ≡ shared)

module _ {H : Type 0} (host : Host H) where
  -- After a write that returns, the files are changed.
  pub save-elim :
      (P : Result String Unit × (H × Files) → Type 0) (change : Files → Files) (s : H × Files)
      → ((h : H) → P (ok tt, (h, change s.1)))
      → ((m : String) (t : H × Files) → P (raised m, t))
      → P (save host change s)
  save-elim P change (h, f) p q = after (host.write h)
    where
      after : (x : Write × H) → P (saved change f x)
      after (written, h') = p h'
      after (cut_before, h') = q _ _
      after (cut_after, h') = q _ _

  both-elim :
      (P : Result String Unit × (H × Files) → Type 0) (change other : Files → Files) (s : H × Files)
      → ((h : H) → P (ok tt, (h, other (change s.1))))
      → ((m : String) (t : H × Files) → P (raised m, t))
      → P (and_save host other (save host change s))
  both-elim P change other s p q =
      save-elim (λ x. P (and_save host other x)) change s
        (λ h. save-elim P other (h, change s.1) p q) q

  module _ (document : String → String × String → String) (e : Environment) (shared : Shared)
      (f : Files) where
    abbrev r : Runtime (H × Files)
    r = runtime host document e shared

    abbrev Recorded : String → String → Files → Type 0
    Recorded = IsRecorded document e shared f

    abbrev Restored : Files → Type 0
    Restored = IsRestored document e shared f

    restart-IfOk :
        (Q : Files → Type 0) (release images : String)
        (rest : Bool → Action (H × Files) String Unit)
        → ((fine : Bool) (s : H × Files) → IfOk Q (rest fine s))
        → (s : H × Files)
        → IfOk Q ((r.stop then λ _. r.start release images then λ _. r.healthy images then rest) s)
    unfolding runtime
    restart-IfOk Q release images rest k s =
        continue-elim (IfOk Q) (r.stop s)
          (λ _. r.start release images then λ _. r.healthy images then rest)
          (λ _ t.
            continue-elim (IfOk Q) (r.start release images t) (λ _. r.healthy images then rest)
              (λ _ u. continue-elim (IfOk Q) (r.healthy images u) rest k (λ m v. tt)) (λ m v. tt))
          (λ m v. tt)

    pub replace-IfOk :
        (release image : String) (s : H × Files)
        → IfOk (Recorded release image) (replace r release image f.current s)
    unfolding replace runtime write_record
    replace-IfOk release image s =
        restart-IfOk (Recorded release image) release image
          (λ fine.
            (if fine
              then r.write_record release image f.current
              else raises "Platform health or Vast connectivity check failed"))
          checked s
      where
        checked :
            (fine : Bool) (t : H × Files)
            → IfOk (Recorded release image) (
                (if fine
                    then r.write_record release image f.current
                    else raises "Platform health or Vast connectivity check failed")
                  t)
        checked true t =
            both-elim (IfOk (Recorded release image))
              (λ g. record g { shared_file = updated (containers e) image shared })
              (λ g. record g { current = (document release f.current, image) }) t
              (λ h. (refl, updated-IsPinned e image shared)) (λ m u. tt)
        checked false t = tt

    pub roll_back-IfOk : (s : H × Files) → IfOk Restored (roll_back r f.current s)
    unfolding roll_back runtime restore
    roll_back-IfOk s =
        restart-IfOk Restored f.current.0 f.current.1
          (λ fine. (if fine then r.restore f.current else raises "Previous platform is unhealthy"))
          checked s
      where
        checked :
            (fine : Bool) (t : H × Files)
            → IfOk Restored
                ((if fine then r.restore f.current else raises "Previous platform is unhealthy") t)
        checked true t =
            both-elim (IfOk Restored) (λ g. record g { shared_file = shared })
              (λ g. record g { current = f.current }) t (λ h. (refl, refl)) (λ m u. tt)
        checked false t = tt
