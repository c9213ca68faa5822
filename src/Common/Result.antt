-- ===== src/Common/Result.antt =====
-- Results of fallible code: a value, or an error. What a computation ensures of its value.
use mathlib.Core.Path.{◌≡◌, refl, subst}
use mathlib.Core.Logic.{◌⊎◌, inl, inr}
use mathlib.Core.Bool.{Bool, true, false}
use mathlib.Core.Option.{Option, none, some}

pub data Result (E A : Type 0) : Type 0 where
  ok : A → Result E A
  raised : E → Result E A

infixl 5 ◌>>=◌ ◌>>◌
abbrev pub ◌>>=◌ : {E A B : Type 0} → Result E A → (A → Result E B) → Result E B
ok a >>= f = f a
raised e >>= f = raised e

abbrev pub ◌>>◌ : {E B : Type 0} → Result E (Unit {0}) → Result E B → Result E B
m >> k = m >>= λ _. k

-- `if not test: raise error`
abbrev pub unless_raise : {E : Type 0} → Bool → E → Result E (Unit {0})
unless_raise true e = ok tt
unless_raise false e = raised e

abbrev pub or_raise : {E A : Type 0} → Option A → E → Result E A
or_raise none e = raised e
or_raise (some a) e = ok a

-- The value, if there is one, has the property.
pub data Ensures {E A : Type 0} (P : A → Type 0) : Result E A → Type 0 where
  returns : (a : A) → P a → Ensures P (ok a)
  raises : (e : E) → Ensures P (raised e)

module _ {E A : Type 0} {P : A → Type 0} where
  pub unless_raise-Ensures :
      (b : Bool) (e : E) (k : Result E A)
      → (b ≡ true → Ensures P k)
      → Ensures P (unless_raise b e >> k)
  unless_raise-Ensures true e k h = h refl
  unless_raise-Ensures false e k h = raises e

  pub or_raise-Ensures :
      {B : Type 0} (o : Option B) (e : E) (k : B → Result E A)
      → ((b : B) → o ≡ some b → Ensures P (k b))
      → Ensures P (or_raise o e >>= k)
  or_raise-Ensures none e k h = raises e
  or_raise-Ensures (some b) e k h = h b refl

  pub >>=-Ensures :
      {B : Type 0} {Q : B → Type 0} (m : Result E B) (k : B → Result E A)
      → Ensures Q m
      → ((b : B) → Q b → Ensures P (k b))
      → Ensures P (m >>= k)
  >>=-Ensures m k (returns b q) h = h b q
  >>=-Ensures m k (raises e) h = raises e

  pub Ensures-ok : {a : A} (m : Result E A) → Ensures P m → m ≡ ok a → P a
  Ensures-ok m (returns b p) e = subst P (cc e) p
  Ensures-ok m (raises x) e = absurd (cc e)

pub Result-cases :
    {E A : Type 0} (r : Result E A) → ((a : A) × (r ≡ ok a)) ⊎ ((e : E) × (r ≡ raised e))
Result-cases (ok a) = inl (a, refl)
Result-cases (raised e) = inr (e, refl)
