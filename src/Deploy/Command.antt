-- ===== src/Deploy/Command.antt =====
-- deploy/ci/deploy_platform.py: `parse_command`, and `Environment` with its fixed identities.
pub mod Grammar
use Prim.Native.Char.{Char, code}
use Prim.Native.String
use latency_aware_inference.Common.{
  ℕ, zero, suc, Bool, Option, none, some, String, str_append, str_eq, ◌==◌, if◌then◌else◌,
}
use latency_aware_inference.Common.Result.{Result, ok, raised, ◌>>=◌, or_raise}
use latency_aware_inference.Common.Text.{is_hex}

-- `environment.name`
pub data Environment : Type 0 where
  dev staging : Environment

abbrev pub name : Environment → String
name dev = "dev"
name staging = "staging"

-- The text after a prefix.
unfoldable pub after : String → String → Option String
after String.[] s = some s
after (String.◌∷◌ c p) String.[] = none
after (String.◌∷◌ c p) (String.◌∷◌ d s) =
    let rest = after p s in if code c == code d then rest else none

abbrev pub with_digit : Char → Option (String × String) → Option (String × String)
with_digit c none = none
with_digit c (some (digits, rest)) = some (String.◌∷◌ c digits, rest)

-- `n` digits of `[0-9a-f]`, and the text after them.
unfoldable pub digits : ℕ → String → Option (String × String)
digits zero s = some ("", s)
digits (suc n) String.[] = none
digits (suc n) (String.◌∷◌ c s) =
    let rest = digits n s in if is_hex (code c) then with_digit c rest else none

abbrev pub is_end : String → Bool
is_end s = str_eq s ""

pub record Request : Type 0 where
  pub environment : Environment
  pub sha : String
  pub checksum : String

-- The part ` ([0-9a-f]{64})` to the end of the text, and the part ` ([0-9a-f]{40})` before it.
abbrev pub ended : Environment → String → Option (String × String) → Option Request
ended e sha none = none
ended e sha (some (checksum, rest)) =
    if is_end rest then some (record { environment = e; sha = sha; checksum = checksum }) else none

abbrev pub spaced : Option String → ℕ → Option (String × String)
spaced none n = none
spaced (some s) n = digits n s

abbrev pub summed : Environment → Option (String × String) → Option Request
summed e none = none
summed e (some (sha, rest)) = ended e sha (spaced (after " " rest) 64)

abbrev pub suffixed : String → Option String → Option Request
suffixed s none = summed dev (spaced (after " " s) 40)
suffixed s (some rest) = summed staging (spaced (after " " rest) 40)

abbrev pub named : Option String → Option Request
named none = none
named (some s) = suffixed s (after "-staging" s)

-- `re.fullmatch(r'deploy-platform(-staging)? ([0-9a-f]{40}) ([0-9a-f]{64})', command)`
unfoldable pub parse_command : String → Result String Request
unfolding after digits
parse_command command =
    or_raise (named (after "deploy-platform" command))
      "Only deploy-platform[-staging] SHA ARCHIVE_SHA256 is permitted"
