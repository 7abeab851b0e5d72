-- ===== src/Binding/Repository.antt =====
-- The grammar of repository names in descriptor/config.py, as the automaton of its regular expression:
-- components of words joined by a dot, one or two underscores, or dashes, and separated by slashes.
use mathlib.Core.Path.{subst}
use meridian_ociadapter.Prelude.{
  ℕ, ◌≡◌, refl, sym, ◌∙◌, Bool, true, false, ◌&&◌, ◌||◌, List, [], ◌∷◌, String, ◌==◌, leb, codes,
  if◌then◌else◌, arith,
}

-- A start of a component, a word, a dot, an underscore, two of them, dashes, and a failure.
pub data NameState : Type 0 where
  start word dot underscore two_underscores dashes failed : NameState

-- `[a-z0-9]`
abbrev is_name_char : ℕ → Bool
is_name_char c = (leb b'a' c && leb c b'z') || (leb b'0' c && leb c b'9')

abbrev after_word : ℕ → NameState
after_word c =
    if is_name_char c
    then word
    else if c == b'.'
    then dot
    else if c == b'_'
    then underscore
    else if c == b'-'
    then dashes
    else if c == b'/'
    then start
    else failed

abbrev next_state : NameState → ℕ → NameState
next_state start c = if is_name_char c then word else failed
next_state word c = after_word c
next_state dot c = if is_name_char c then word else failed
next_state underscore c =
    if is_name_char c then word else if c == b'_' then two_underscores else failed
next_state two_underscores c = if is_name_char c then word else failed
next_state dashes c = if is_name_char c then word else if c == b'-' then dashes else failed
next_state failed c = failed

abbrev accepts : NameState → Bool
accepts word = true
accepts _ = false

unfoldable run_name : NameState → List ℕ → Bool
run_name s [] = accepts s
run_name s (c ∷ cs) = run_name (next_state s c) cs

-- `_REPOSITORY_RE.fullmatch(value) is not None`
unfoldable pub is_repository : String → Bool
unfolding run_name
is_repository value = run_name start (codes value)

abbrev is_separator : ℕ → Bool
is_separator c = c == b'.' || c == b'/'

-- Each character is one of the grammar's, and no dot or slash follows another or comes first or last;
-- `fresh` says that the last character was one of them, or that there was none.
abbrev pub IsPlain : Bool → List ℕ → Type 0
IsPlain fresh [] = fresh ≡ false
IsPlain fresh (c ∷ cs) =
    (fresh && is_separator c ≡ false)
    × (is_name_char c || (is_separator c || (c == b'_' || c == b'-')) ≡ true)
    × IsPlain (is_separator c) cs

abbrev is_fresh : NameState → Bool
is_fresh start = true
is_fresh dot = true
is_fresh _ = false

run_failed : (cs : List ℕ) → run_name failed cs ≡ false
unfolding run_name
run_failed [] = refl
run_failed (c ∷ cs) = run_failed cs

abbrev is_failed : NameState → Bool
is_failed failed = true
is_failed _ = false

step-fresh :
    (s : NameState) (c : ℕ)
    → is_failed (next_state s c) ≡ false
    → (is_fresh (next_state s c) ≡ is_separator c)
      × ((is_fresh s && is_separator c ≡ false)
          × (is_name_char c || (is_separator c || (c == b'_' || c == b'-')) ≡ true))
step-fresh start c h = ground arith
step-fresh word c h = ground arith
step-fresh dot c h = ground arith
step-fresh underscore c h = ground arith
step-fresh two_underscores c h = ground arith
step-fresh dashes c h = ground arith
step-fresh failed c h = cc

failed-run : (s : NameState) (cs : List ℕ) → run_name s cs ≡ true → is_failed s ≡ false
failed-run failed cs h = (let no : false ≡ true = sym (run_failed cs) ∙ h in cc)
failed-run start cs h = refl
failed-run word cs h = refl
failed-run dot cs h = refl
failed-run underscore cs h = refl
failed-run two_underscores cs h = refl
failed-run dashes cs h = refl

accepted-fresh : (s : NameState) → accepts s ≡ true → is_fresh s ≡ false
accepted-fresh word h = refl
accepted-fresh start h = cc
accepted-fresh dot h = cc
accepted-fresh underscore h = cc
accepted-fresh two_underscores h = cc
accepted-fresh dashes h = cc
accepted-fresh failed h = cc

run_name-IsPlain : (s : NameState) (cs : List ℕ) → run_name s cs ≡ true → IsPlain (is_fresh s) cs
unfolding run_name
run_name-IsPlain s [] h = accepted-fresh s h
run_name-IsPlain s (c ∷ cs) h =
    let (f, (a, b)) = step-fresh s c (failed-run (next_state s c) cs h) in
    (a, b, subst (λ x. IsPlain x cs) f (run_name-IsPlain (next_state s c) cs h))

-- A repository name that the grammar admits has letters, digits, dots, slashes, underscores and dashes
-- only, and no dot or slash comes first, last, or after another: no path segment of it is empty or goes
-- up.
pub is_repository-IsPlain :
    (value : String) → is_repository value ≡ true → IsPlain true (codes value)
unfolding is_repository
is_repository-IsPlain value h = run_name-IsPlain start (codes value) h
