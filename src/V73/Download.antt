-- ===== src/V73/Download.antt =====
-- system/worker_v73.py: `_download`. The object is read in pieces of any length; `hash` is the
-- SHA-256 of bytes in hexadecimal.
use latency_aware_inference.Common.{
  ℕ, ◌+◌, ◌≡◌, ◌≤◌, sym, ap, subst, Bool, true, false, not, ◌||◌, Option, none, some, String,
  str_eq, str_eq_refl, List, [], ◌∷◌, ◌++◌, length, ltb, ◌==◌, length-append, is_empty,
  if◌then◌else◌, arith, All,
}
use mathlib.Core.List.{append-nil, append_assoc}
use latency_aware_inference.Common.Result.{Result, ok, raised, ◌>>=◌}
use latency_aware_inference.V73.{WorkerError, worker_error}
use latency_aware_inference.V73.Payload.{Input, max_input_bytes}

-- A read of the body: some bytes, none at the end, or an exception.
pub data Piece : Type 0 where
  bytes : List ℕ → Piece
  broken : Piece

-- What the storage answers: an exception, or an object with its length, if that is told.
pub data Answer : Type 0 where
  refused : Answer
  object : Option ℕ → List Piece → Answer

abbrev pub integrity : String → WorkerError
integrity message = worker_error "input_integrity_error" message

abbrev pub storage_error : WorkerError
storage_error = record {
  code = "storage_error";
  message = "input download failed";
  retryable = true;
}

abbrev pub same_length : Option ℕ → ℕ → Bool
same_length none n = true
same_length (some m) n = m == n

-- The loop over the body, with what was written so far.
unfoldable pub read_loop : ℕ → List ℕ → List Piece → Result WorkerError (List ℕ)
read_loop size done [] = ok done
read_loop size done (broken ∷ rest) = raised storage_error
read_loop size done (bytes piece ∷ rest) =
    let total = length done + length piece in
    let more = read_loop size (done ++ piece) rest in
    if is_empty piece
    then ok done
    else if ltb max_input_bytes total || ltb size total
    then raised (integrity "download exceeds declared input size")
    else more

module _ (hash : List ℕ → String) where
  abbrev pub checked : Input → List ℕ → Result WorkerError (List ℕ)
  checked inp content =
      if not (length content == inp.size_bytes) || not (str_eq (hash content) inp.sha256)
      then raised (integrity "download SHA256 or size differs from spec")
      else ok content

  -- The content that replaces the input file.
  unfoldable pub download : Input → Answer → Result WorkerError (List ℕ)
  unfolding read_loop
  download inp refused = raised storage_error
  download inp (object told pieces) =
      if not (same_length told inp.size_bytes)
      then raised (integrity "download size differs from spec")
      else read_loop inp.size_bytes [] pieces >>= checked inp

-- The bytes of a list of pieces.
unfoldable pub joined : List (List ℕ) → List ℕ
joined [] = []
joined (p ∷ ps) = p ++ joined ps

unfoldable pub pieces_of : List (List ℕ) → List Piece
pieces_of [] = []
pieces_of (p ∷ ps) = bytes p ∷ pieces_of ps

read_loop-pieces :
    (size : ℕ) (done : List ℕ) (ps : List (List ℕ))
    → All (λ p. is_empty p ≡ false) ps
    → length (done ++ joined ps) ≤ size
    → size ≤ max_input_bytes
    → read_loop size done (pieces_of ps) ≡ ok (done ++ joined ps)
unfolding read_loop joined pieces_of
read_loop-pieces size done [] f l m = ap ok (sym (append-nil done))
read_loop-pieces size done (p ∷ ps) f l m =
    let l' = subst (λ (x : List ℕ). length x ≤ size) (sym (append_assoc done p (joined ps))) l in
    ground (
      arith,
      f.0,
      read_loop-pieces size (done ++ p) ps f.1 l' m,
      append_assoc done p (joined ps),
      length-append done p,
      length-append (done ++ p) (joined ps),
      l',
    )

-- An object of the declared size, at most 50 MiB, with the declared digest is downloaded whole and
-- unchanged, into whatever non-empty pieces its body is cut, whether or not its length is told.
pub download-object :
    (hash : List ℕ → String) (inp : Input) (told : Option ℕ) (ps : List (List ℕ))
    → All (λ p. is_empty p ≡ false) ps
    → length (joined ps) ≡ inp.size_bytes
    → hash (joined ps) ≡ inp.sha256
    → inp.size_bytes ≤ max_input_bytes
    → same_length told inp.size_bytes ≡ true
    → download hash inp (object told (pieces_of ps)) ≡ ok (joined ps)
unfolding download
download-object hash inp told ps f l d m t =
    rw (t, read_loop-pieces inp.size_bytes [] ps f (omega (arith, l)) m)
      (ground (arith, l, d, str_eq_refl inp.sha256))
