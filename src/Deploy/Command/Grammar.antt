-- ===== src/Deploy/Command/Grammar.antt =====
-- The commands that are accepted, as they are printed.
use Prim.Native.Char.{Char, code}
use text.Mathlib.TextEquality.{Char-path}
use text.Mathlib.TextLemmas.{nil-append, cons-append, append-nil}
use latency_aware_inference.Common.{
  ℕ, zero, suc, ◌≡◌, ◌↔◌, refl, sym, ap, ◌∙◌, subst, Bool, true, false, ◌&&◌, Option, none, some,
  String, str_append, str_eq, str_eq_iff, arith, Option-cases, Bool-cases, inl, inr, ◌==◌, ==_iff,
  ==_refl,
}
use latency_aware_inference.Common.Result.{ok}
use latency_aware_inference.Common.Text.{is_hex, is_hex_text}
use latency_aware_inference.Deploy.Command.{
  Environment, dev, staging, after, digits, Request, ended, spaced, summed, suffixed, parse_command,
}

after-append : (p s : String) → after p (str_append p s) ≡ some s
unfolding after
after-append String.[] s = ap some (nil-append s)
after-append (String.◌∷◌ c p) s = rw (cons-append c p s) (rw (==_refl (code c)) (after-append p s))

after_lem : (p s r : String) → after p s ≡ some r → s ≡ str_append p r
unfolding after
after_lem String.[] s r h = sym (nil-append r ∙ sym (cc h))
after_lem (String.◌∷◌ c p) String.[] r h = absurd (cc h)
after_lem (String.◌∷◌ c p) (String.◌∷◌ d s) r h = elim (Bool-cases (code c == code d)) [
  | inl e ↦
      let same : c ≡ d = Char-path c d ((==_iff (code c) (code d)).0 e) in
      cc (same, after_lem p s r (ground (arith, e, h)), cons-append c p r)
  | inr e ↦ absurd (ground (arith, e, h))
]

digits-append :
    (n : ℕ) (t s : String) → is_hex_text n t ≡ true → digits n (str_append t s) ≡ some (t, s)
unfolding digits is_hex_text
digits-append zero String.[] s h = ap (λ (r : String). some ("", r)) (nil-append s)
digits-append zero (String.◌∷◌ c t) s h = absurd (ground (arith, h))
digits-append (suc n) String.[] s h = absurd (ground (arith, h))
digits-append (suc n) (String.◌∷◌ c t) s h =
    let tail : is_hex_text n t ≡ true = ground (arith, h) in
    let hex : is_hex (code c) ≡ true = ground (arith, h) in
    rw (cons-append c t s) (rw (hex, digits-append n t s tail) refl)

-- A text is cut in front of what remains.
abbrev Cut : ℕ → String → Option (String × String) → Type 0
Cut n s o = (t r : String) → o ≡ some (t, r) → (s ≡ str_append t r) × (is_hex_text n t ≡ true)

digits-Cut : (n : ℕ) (s : String) → Cut n s (digits n s)
unfolding digits is_hex_text
digits-Cut zero s t r h =
    let none_left : "" ≡ t = ground (arith, h) in
    let whole : s ≡ r = ground (arith, h) in
    (
      whole ∙ sym (nil-append r) ∙ ap (λ (x : String). str_append x r) none_left,
      subst (λ (x : String). is_hex_text 0 x ≡ true) none_left refl,
    )
digits-Cut (suc n) String.[] t r h = absurd (cc h)
digits-Cut (suc n) (String.◌∷◌ c s) t r h = elim (Bool-cases (is_hex (code c))) [
  | inr e ↦ absurd (ground (arith, e, h))
  | inl e ↦ elim (Option-cases (digits n s)) [
    | inl f ↦ absurd (ground (arith, e, f, h))
    | inr ((t', r'), f) ↦
        let first : String.◌∷◌ c t' ≡ t = ground (arith, e, f, h) in
        let last : r' ≡ r = ground (arith, e, f, h) in
        let (whole, hex) = digits-Cut n s t' r' f in
        (
          ap (String.◌∷◌ c) whole
              ∙ sym (cons-append c t' r')
              ∙ ap (λ (x : String). str_append x r') first
              ∙ ap (str_append t) last,
          subst (λ (x : String). is_hex_text (suc n) x ≡ true) first (ground (arith, e, hex)),
        )
  ]
]

-- A command as an operator writes it.
abbrev pub suffix : Environment → String
suffix dev = ""
suffix staging = "-staging"

unfoldable pub print : Request → String
print q = str_append "deploy-platform" (
    str_append (suffix q.environment)
      (str_append " " (str_append q.sha (str_append " " q.checksum))))

-- What is accepted: digests in lower-case hexadecimal.
abbrev pub is_digested : Request → Bool
is_digested q = is_hex_text 40 q.sha && is_hex_text 64 q.checksum

after_other :
    (c d : Char) (p t s : String)
    → (code d == code c) ≡ false
    → after (String.◌∷◌ d p) (str_append (String.◌∷◌ c t) s) ≡ none
unfolding after
after_other c d p t s h = rw (cons-append c t s) (rw h refl)

no_suffix : (s : String) → after "-staging" (str_append " " s) ≡ none
no_suffix s = after_other _ _ "staging" "" s refl

print-suffixed :
    (e : Environment) (s : String)
    → suffixed
        (str_append (suffix e) (str_append " " s))
        (after "-staging" (str_append (suffix e) (str_append " " s)))
      ≡ summed e (digits 40 s)
print-suffixed dev s = rw (nil-append (str_append " " s), no_suffix s, after-append " " s) refl
print-suffixed staging s = rw (after-append "-staging" (str_append " " s), after-append " " s) refl

parse_command-print : (q : Request) → is_digested q ≡ true → parse_command (print q) ≡ ok q
unfolding parse_command print
parse_command-print q h =
    let sha : is_hex_text 40 q.sha ≡ true = ground (arith, h) in
    let checksum : is_hex_text 64 q.checksum ≡ true = ground (arith, h) in
    let rest = str_append " " q.checksum in
    let whole : digits 64 q.checksum ≡ some (q.checksum, "") =
      subst (λ (x : String). digits 64 x ≡ some (q.checksum, "")) (append-nil q.checksum)
        (digits-append 64 q.checksum "" checksum) in
    rw
      (
        after-append "deploy-platform"
            (str_append (suffix q.environment) (str_append " " (str_append q.sha rest))),
        print-suffixed q.environment (str_append q.sha rest),
        digits-append 40 q.sha rest sha,
        after-append " " q.checksum,
        whole,
      )
      refl

-- What is known of a request that was read from the text after the environment's suffix.
abbrev Ended : Environment → String → String → Request → Type 0
Ended e sha s q =
    (s ≡ str_append " " q.checksum)
    × ((is_hex_text 64 q.checksum ≡ true) × ((q.environment ≡ e) × (q.sha ≡ sha)))

ended-Ended :
    (e : Environment) (sha s : String) (q : Request)
    → ended e sha (spaced (after " " s) 64) ≡ some q
    → Ended e sha s q
ended-Ended e sha s q h = elim (Option-cases (after " " s)) [
  | inl f ↦ absurd (ground (arith, f, h))
  | inr (s', f) ↦ elim (Option-cases (digits 64 s')) [
    | inl g ↦ absurd (ground (arith, f, g, h))
    | inr ((sum, rest), g) ↦ elim (Bool-cases (str_eq rest "")) [
      | inr x ↦ absurd (ground (arith, f, g, x, h))
      | inl x ↦
          let (cut, hex) = digits-Cut 64 s' sum rest g in
          let over : rest ≡ "" = (str_eq_iff rest "").0 x in
          let same : sum ≡ q.checksum = ground (arith, f, g, x, h) in
          (
            after_lem " " s s' f
                ∙ ap (str_append " ") (cut ∙ ap (str_append sum) over ∙ append-nil sum ∙ same),
            (
              subst (λ (y : String). is_hex_text 64 y ≡ true) same hex,
              (ground (arith, f, g, x, h), ground (arith, f, g, x, h)),
            ),
          )
    ]
  ]
]

summed_lem :
    (e : Environment) (s : String) (q : Request)
    → summed e (spaced (after " " s) 40) ≡ some q
    → (s ≡ str_append " " (str_append q.sha (str_append " " q.checksum)))
      × ((is_digested q ≡ true) × (q.environment ≡ e))
summed_lem e s q h = elim (Option-cases (after " " s)) [
  | inl f ↦ absurd (ground (arith, f, h))
  | inr (s', f) ↦ elim (Option-cases (digits 40 s')) [
    | inl g ↦ absurd (ground (arith, f, g, h))
    | inr ((sha, rest), g) ↦
        let (cut, hex) = digits-Cut 40 s' sha rest g in
        let (tail, (sum_hex, (same, name))) = ended-Ended e sha rest q (ground (arith, f, g, h)) in
        let sha_hex = subst (λ (y : String). is_hex_text 40 y ≡ true) (sym name) hex in
        (
          after_lem " " s s' f
              ∙ ap (str_append " ") (
                  cut
                  ∙ ap (str_append sha) tail
                  ∙ ap (λ (y : String). str_append y (str_append " " q.checksum)) (sym name)),
          (rw (sha_hex, sum_hex) refl, same),
        )
  ]
]

suffixed_lem :
    (s : String) (q : Request)
    → suffixed s (after "-staging" s) ≡ some q
    → (s
        ≡ str_append
            (suffix q.environment)
            (str_append " " (str_append q.sha (str_append " " q.checksum))))
      × (is_digested q ≡ true)
suffixed_lem s q h = elim (Option-cases (after "-staging" s)) [
  | inl f ↦
      let (cut, (hex, e)) = summed_lem dev s q (ground (arith, f, h)) in
      (cut ∙ sym (rw e (nil-append _)), hex)
  | inr (s', f) ↦
      let (cut, (hex, e)) = summed_lem staging s' q (ground (arith, f, h)) in
      (rw e (after_lem "-staging" s s' f ∙ ap (str_append "-staging") cut), hex)
]

-- A command is accepted, as a request, exactly when it is that request as it is written and both
-- digests are of lower-case hexadecimal digits, 40 and 64 of them.
pub parse_command_iff :
    (command : String) (q : Request)
    → (parse_command command ≡ ok q) ↔ ((command ≡ print q) × (is_digested q ≡ true))
unfolding parse_command print
parse_command_iff command q = (
  λ h. elim (Option-cases (after "deploy-platform" command)) [
    | inl f ↦ absurd (ground (arith, f, h))
    | inr (s, f) ↦ elim (Option-cases (suffixed s (after "-staging" s))) [
      | inl g ↦ absurd (ground (arith, f, g, h))
      | inr (r, g) ↦
          let same : r ≡ q = ground (arith, f, g, h) in
          let (cut, hex) = suffixed_lem s q (g ∙ ap some same) in
          (after_lem "deploy-platform" command s f ∙ ap (str_append "deploy-platform") cut, hex)
    ]
  ],
  λ (e, hex). rw e (parse_command-print q hex),
)
