-- ===== src/Cursor/Base64.antt =====
-- `_b64` and `_unb64` of _naming.py, with the base64 module's URL-safe coding as they use it. The
-- decoder is the lenient one: it skips what is no digit, and stops at the padding.
pub mod Laws
use meridian_ociadapter.Prelude.{
  ℕ, zero, suc, ◌+◌, ◌-◌, ◌*◌, ◌/◌, ◌%◌, ◌≡◌, Bool, true, false, ◌&&◌, ◌||◌, List, [], ◌∷◌, ◌++◌,
  Option, none, some, leb, ltb, ◌==◌, length, all, if◌then◌else◌,
}
use meridian_ociadapter.Effect.{Result, ok, err, value_error, bind_result}
use meridian_ociadapter.Hashing.{Bytes}

-- The digit of a value below 64.
abbrev pub char_of : ℕ → ℕ
char_of x =
    if ltb x 26
    then x + b'A'
    else if ltb x 52
    then x - 26 + b'a'
    else if ltb x 62
    then x - 52 + b'0'
    else if x == 62
    then b'-'
    else b'_'

-- The value of a digit; `urlsafe_b64decode` maps `-` and `_` to `+` and `/`, which are digits too.
abbrev pub value_of : ℕ → Option ℕ
value_of c =
    if leb b'A' c && leb c b'Z'
    then some (c - b'A')
    else if leb b'a' c && leb c b'z'
    then some (c - b'a' + 26)
    else if leb b'0' c && leb c b'9'
    then some (c - b'0' + 52)
    else if c == b'-' || c == b'+'
    then some 62
    else if c == b'_' || c == b'/'
    then some 63
    else none

-- `base64.urlsafe_b64encode`, with its padding
unfoldable pub urlsafe_b64encode : Bytes → List ℕ
urlsafe_b64encode [] = []
urlsafe_b64encode (a ∷ []) = char_of (a / 4) ∷ char_of (a % 4 * 16) ∷ b'=' ∷ b'=' ∷ []
urlsafe_b64encode (a ∷ b ∷ []) =
    char_of (a / 4) ∷ char_of (a % 4 * 16 + b / 16) ∷ char_of (b % 16 * 4) ∷ b'=' ∷ []
urlsafe_b64encode (a ∷ b ∷ c ∷ rest) =
    char_of (a / 4)
    ∷ char_of (a % 4 * 16 + b / 16)
    ∷ char_of (b % 16 * 4 + c / 64)
    ∷ char_of (c % 64)
    ∷ urlsafe_b64encode rest

-- How far a group of four digits has been read, with the bits left over.
pub data Quad : Type 0 where
  empty : Quad
  one two three : ℕ → Quad

-- What one character does: end the input, change the state, or complete a byte.
pub data Move : Type 0 where
  stop : Move
  keep : Quad → ℕ → Move
  emit : ℕ → Quad → Move

-- `pads` counts the padding just read.
abbrev pad_move : Quad → ℕ → Move
pad_move (two l) pads = if leb 4 (2 + (pads + 1)) then stop else keep (two l) (pads + 1)
pad_move (three l) pads = stop
pad_move q pads = keep q pads

abbrev digit_move : Quad → ℕ → Move
digit_move empty v = keep (one v) 0
digit_move (one l) v = emit (l * 4 + v / 16) (two (v % 16))
digit_move (two l) v = emit (l * 16 + v / 4) (three (v % 4))
digit_move (three l) v = emit (l * 64 + v) empty

abbrev char_move : Option ℕ → Quad → ℕ → Move
char_move none q pads = keep q pads
char_move (some v) q pads = digit_move q v

unfoldable pub move : Quad → ℕ → ℕ → Move
move q pads c = if c == b'=' then pad_move q pads else char_move (value_of c) q pads

abbrev pub quad_after : Move → Quad
quad_after stop = empty
quad_after (keep q pads) = q
quad_after (emit b q) = q

abbrev pub pads_after : Move → ℕ
pads_after (keep q pads) = pads
pads_after _ = 0

abbrev push : ℕ → Result Bytes → Result Bytes
push b (ok bs) = ok (b ∷ bs)
push b (err e) = err e

-- The result after a move, from the result for the characters that follow.
abbrev finish : Move → Result Bytes → Result Bytes
finish stop rest = ok []
finish (keep q pads) rest = rest
finish (emit b q) rest = push b rest

-- `binascii.a2b_base64`, not strict
unfoldable pub a2b : Quad → ℕ → List ℕ → Result Bytes
a2b empty pads [] = ok []
a2b q pads [] = err value_error
a2b q pads (c ∷ cs) = let m = move q pads c in finish m (a2b (quad_after m) (pads_after m) cs)

-- `base64.urlsafe_b64decode`: a text that is not ASCII is refused
unfoldable pub urlsafe_b64decode : List ℕ → Result Bytes
urlsafe_b64decode text = if all (λ c. ltb c 128) text then a2b empty 0 text else err value_error

abbrev strip : ℕ → List ℕ → List ℕ
strip c [] = if c == b'=' then [] else c ∷ []
strip c (d ∷ ds) = c ∷ d ∷ ds

-- `text.rstrip("=")`
unfoldable pub rstrip_pad : List ℕ → List ℕ
rstrip_pad [] = []
rstrip_pad (c ∷ cs) = strip c (rstrip_pad cs)

abbrev pub pads : ℕ → List ℕ
pads zero = []
pads (suc n) = b'=' ∷ pads n

unfoldable pub b64 : Bytes → List ℕ
b64 value = rstrip_pad (urlsafe_b64encode value)

-- `-len(value) % 4` is what is missing to a multiple of four.
unfoldable pub unb64 : List ℕ → Result Bytes
unb64 value = urlsafe_b64decode (value ++ pads ((4 - length value % 4) % 4))
