-- ===== src/Prelude/Text.antt =====
-- Native texts: their code points, and the pieces that the source takes of them.
use Prim.Native.Nat.{ℕ, zero, suc}
use Prim.Native.Char.{code}
use Prim.Native.String
use Prim.Native.String.{String}
use Prim.Native.String.append
use Prim.Native.String.count
use mathlib.Core.Path.{◌≡◌, refl, ap, ap₂, sym, ◌∙◌}
use mathlib.Core.Bool.{Bool, false, ◌||◌}
use mathlib.Core.List.{List, [], ◌∷◌, ◌++◌}
use mathlib.Core.Logic.{inl, inr}
use mathlib.Core.Option.{Option, none, some, some-injective}
use native.Mathlib.Omega.{arith}
use text.Mathlib.Text
use text.Mathlib.TextEquality.{Char-path}
use text.Mathlib.TextLemmas.{append_inj}
use meridian_ociadapter.Prelude.Lists.{length, take}
use meridian_ociadapter.Prelude.Tests.{◌==◌, ==→eq, Bool-cases, if◌then◌else◌}

infix 50 ◌=ˢ◌
-- Python's `==` on texts.
abbrev pub ◌=ˢ◌ : String → String → Bool
s =ˢ t = Text.◌==◌ s t

infixr 65 ◌<>◌
-- An f-string joins texts.
abbrev pub ◌<>◌ : String → String → String
s <> t = String.◌++◌ s t

-- The code points of a text.
unfoldable pub codes : String → List ℕ
codes String.[] = []
codes (String.◌∷◌ c s) = code c ∷ codes s

-- `s[:n]`, counted in characters.
unfoldable pub first_chars : ℕ → String → String
first_chars zero s = String.[]
first_chars (suc n) String.[] = String.[]
first_chars (suc n) (String.◌∷◌ c s) = String.◌∷◌ c (first_chars n s)

abbrev pub contains_text : String → List String → Bool
contains_text s [] = false
contains_text s (t ∷ ts) = s =ˢ t || contains_text s ts

pub codes-append : (s t : String) → codes (s <> t) ≡ codes s ++ codes t
unfolding codes
codes-append String.[] t = ap codes (append.nil t)
codes-append (String.◌∷◌ c s) t =
    ap codes (append.cons c s t) ∙ ap (λ l. code c ∷ l) (codes-append s t)

-- What follows a prefix of a text.
unfoldable pub strip_prefix : String → String → Option String
strip_prefix String.[] s = some s
strip_prefix (String.◌∷◌ c p) String.[] = none
strip_prefix (String.◌∷◌ c p) (String.◌∷◌ d s) = if code c == code d then strip_prefix p s else none

pub strip_prefix-append : (p s : String) → strip_prefix p (p <> s) ≡ some s
unfolding strip_prefix
strip_prefix-append String.[] s = ap (strip_prefix String.[]) (append.nil s)
strip_prefix-append (String.◌∷◌ c p) s =
    ap (strip_prefix (String.◌∷◌ c p)) (append.cons c p s) ∙ ground (arith, strip_prefix-append p s)

-- A text from which a prefix was stripped is the prefix and the rest.
pub append-strip_prefix : (p s r : String) → strip_prefix p s ≡ some r → s ≡ p <> r
unfolding strip_prefix
append-strip_prefix String.[] s r h = some-injective _ _ h ∙ sym (append.nil r)
append-strip_prefix (String.◌∷◌ c p) String.[] r h = cc
append-strip_prefix (String.◌∷◌ c p) (String.◌∷◌ d s) r h = elim (Bool-cases (code c == code d)) [
  | inl e ↦
      ap₂ String.◌∷◌ (sym (Char-path c d (==→eq _ _ e))) (append-strip_prefix p s r (rw e at h))
      ∙ sym (append.cons c p r)
  | inr e ↦ let h' : none ≡ some r = rw e at h in cc
]

pub codes-first_chars : (n : ℕ) (s : String) → codes (first_chars n s) ≡ take n (codes s)
unfolding codes first_chars
codes-first_chars zero s = refl
codes-first_chars (suc n) String.[] = refl
codes-first_chars (suc n) (String.◌∷◌ c s) = ap (λ l. code c ∷ l) (codes-first_chars n s)

pub count-eq-length : (s : String) → String.count s ≡ length (codes s)
unfolding codes
count-eq-length String.[] = count.nil
count-eq-length (String.◌∷◌ c s) = count.cons c s ∙ ap suc (count-eq-length s)

-- Texts that start with parts of one length are equal part by part.
pub append_parts :
    (s t u v : String) → length (codes s) ≡ length (codes t) → s <> u ≡ t <> v → (s ≡ t) × (u ≡ v)
append_parts s t u v l e = append_inj e (count-eq-length s ∙ l ∙ sym (count-eq-length t))
