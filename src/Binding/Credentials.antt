-- ===== src/Binding/Credentials.antt =====
-- The credential providers of descriptor/config.py, and what they answer.
use mathlib.Core.Path.{subst}
use meridian_ociadapter.Prelude.{
  ℕ, ◌≡◌, refl, ap, ◌∙◌, Bool, true, false, ◌&&◌, ◌||◌, not, or-false, List, [], String, Option,
  none, some, ◌==◌, ◌<>◌, codes, codes-append, all, all-append, Bool-cases, inl, inr, if◌then◌else◌,
}
use meridian_ociadapter.Effect.{Result, ok, err, value_error, fail_if}
use meridian_ociadapter.Effect.Rules.{ok-injective}

-- `any(character in "\r\n" for character in text)`, negated
unfoldable pub is_single_line : String → Bool
is_single_line s = all (λ c. not (c == 13 || c == 10)) (codes s)

abbrev no_text : List ℕ → Bool
no_text [] = true
no_text _ = false

-- `not value or any(…)`
unfoldable pub is_refused : String → Bool
is_refused s = no_text (codes s) || not (is_single_line s)

-- The providers, with what the callback's resolver answers.
pub data Credentials : Type 0 where
  anonymous : Credentials
  basic : String → String → Credentials
  bearer : String → Credentials
  callback : Result (Option String) → Credentials

-- `__post_init__` of each provider
unfoldable pub check_credentials : Credentials → Result (Unit {0})
check_credentials anonymous = ok tt
check_credentials (basic username password) =
    if is_refused username then err value_error else fail_if (is_refused password) value_error
check_credentials (bearer token) = fail_if (is_refused token) value_error
check_credentials (callback resolver) = ok tt

abbrev resolved : Result (Option String) → Result (Option String)
resolved (err e) = err e
resolved (ok none) = ok none
resolved (ok (some value)) = if is_refused value then err value_error else ok (some value)

-- `base64.b64encode(text.encode()).decode("ascii")` is a parameter.
unfoldable pub authorization_header : (String → String) → Credentials → Result (Option String)
authorization_header b64encode anonymous = ok none
authorization_header b64encode (basic username password) =
    ok (some ("Basic " <> b64encode (username <> ":" <> password)))
authorization_header b64encode (bearer token) = ok (some ("Bearer " <> token))
authorization_header b64encode (callback resolver) = resolved resolver

not-false : (b : Bool) → not b ≡ false → b ≡ true
not-false true h = refl
not-false false h = cc

is_refused-single : (s : String) → is_refused s ≡ false → is_single_line s ≡ true
unfolding is_refused
is_refused-single s h =
    not-false (is_single_line s) ((or-false (no_text (codes s)) (not (is_single_line s)) h).1)

is_single_line-append :
    (s t : String)
    → is_single_line s ≡ true
    → is_single_line t ≡ true
    → is_single_line (s <> t) ≡ true
unfolding is_single_line
is_single_line-append s t h k =
    let f = λ (c : ℕ). not (c == 13 || c == 10) in
    ap (all f) (codes-append s t) ∙ all-append f (codes s) (codes t) ∙ (λ i. h i && k i)

basic_single : is_single_line "Basic " ≡ true
unfolding is_single_line codes
basic_single = refl

bearer_single : is_single_line "Bearer " ≡ true
unfolding is_single_line codes
bearer_single = refl

answered :
    {s t : String} → ok (some s) ≡ ok (some t) → is_single_line s ≡ true → is_single_line t ≡ true
answered e h = subst (λ x. is_single_line x ≡ true) (cc) h

fail_if-ok : (b : Bool) → fail_if b value_error ≡ ok tt → b ≡ false
fail_if-ok true h = cc
fail_if-ok false h = refl

-- Whatever value a provider with valid parts answers has no line break, so it cannot end its header.
pub authorization_header-single :
    (b64encode : String → String)
    → ((s : String) → is_single_line (b64encode s) ≡ true)
    → (c : Credentials) → check_credentials c ≡ ok tt
    → (value : String) → authorization_header b64encode c ≡ ok (some value)
    → is_single_line value ≡ true
unfolding check_credentials authorization_header
authorization_header-single b64encode single anonymous h value e =
    (let no : none ≡ some value = ok-injective e in cc)
authorization_header-single b64encode single (basic u p) h value e =
    answered e (is_single_line-append "Basic " (b64encode (u <> ":" <> p)) basic_single (single _))
authorization_header-single b64encode single (bearer t) h value e = answered e (
    is_single_line-append "Bearer " t bearer_single
      (is_refused-single t (fail_if-ok (is_refused t) h)))
authorization_header-single b64encode single (callback (ok none)) h value e =
    (let no : none ≡ some value = ok-injective e in cc)
authorization_header-single b64encode single (callback (err x)) h value e = cc
authorization_header-single b64encode single (callback (ok (some s))) h value e =
    elim (Bool-cases (is_refused s)) [
      | inl r ↦ let no : err value_error ≡ ok (some value) = rw r at e in cc
      | inr r ↦
          let same : ok (some s) ≡ ok (some value) = rw r at e in
          answered same (is_refused-single s r)
    ]
