-- ===== src/Effect/Rules.antt =====
-- Postconditions of computations, one rule for each way to build one.
use mathlib.Core.Path.{subst}
use meridian_ociadapter.Prelude.{
  arith, ◌≡◌, refl, ap, Bool, true, false, if◌then◌else◌, ◌⊎◌, inl, inr,
}
use meridian_ociadapter.Effect.{
  Error, Result, ok, err, M, pure, raise, lift, handle, try_except, continue, ◌>>=◌, ◌>>◌, raise_if,
  bind_result, translate,
}

-- Where `m` returns, its value has `P`.
pub record Ensures {W A : Type 0} (m : M W A) (P : A → Type 0) : Type 0 where
  pub at : (w : W) (a : A) → (m w).0 ≡ ok a → P a

abbrev value_or {ℓ} : {A : Type ℓ} → A → Result A → A
value_or d (ok a) = a
value_or d (err e) = d

pub ok-injective {ℓ} : {A : Type ℓ} {a b : A} → ok a ≡ ok b → a ≡ b
ok-injective {a} e = ap (value_or a) e

pub Result-cases {ℓ} :
    {A : Type ℓ} (r : Result A) → ((e : Error) × (r ≡ err e)) ⊎ ((a : A) × (r ≡ ok a))
Result-cases (ok a) = inr (a, refl)
Result-cases (err e) = inl (e, refl)

module _ {W A : Type 0} {P : A → Type 0} where
  pub Ensures-pure : (a : A) → P a → Ensures {W = W} (pure a) P
  unfolding pure
  Ensures-pure a h = record { at = λ w b e. subst P (ok-injective e) h }

  pub Ensures-raise : (e : Error) → Ensures {W = W} (raise e) P
  unfolding raise
  Ensures-raise e = record { at = λ w b h. cc }

  pub Ensures-lift : (r : Result A) → ((a : A) → r ≡ ok a → P a) → Ensures {W = W} (lift r) P
  unfolding lift
  Ensures-lift r h = record { at = λ w a e. h a e }

  pub Ensures-if :
      (b : Bool) (m n : M W A)
      → (b ≡ true → Ensures m P)
      → (b ≡ false → Ensures n P)
      → Ensures (if b then m else n) P
  Ensures-if true m n hm hn = hm refl
  Ensures-if false m n hm hn = hn refl

  pub Ensures-weaken :
      {m : M W A} (Q : A → Type 0) → Ensures m Q → ((a : A) → Q a → P a) → Ensures m P
  Ensures-weaken Q h k = record { at = λ w a e. k a (h.at w a e) }

  Ensures-handle :
      (r : Result A) (h : Error → M W A) (w : W)
      → ((a : A) → r ≡ ok a → P a)
      → ((e : Error) → Ensures (h e) P)
      → (a : A) → (handle r h w).0 ≡ ok a
      → P a
  Ensures-handle (ok b) h w kr kh a e = kr a e
  Ensures-handle (err x) h w kr kh a e = (kh x).at w a e

  pub Ensures-try :
      (m : M W A) (h : Error → M W A)
      → Ensures m P
      → ((e : Error) → Ensures (h e) P)
      → Ensures (try_except m h) P
  unfolding try_except
  Ensures-try m h km kh = record { at = λ w a e. Ensures-handle (m w).0 h (m w).1 (km.at w) kh a e }

module _ {W A B : Type 0} {P : B → Type 0} where
  -- The rest may use that the first part returned.
  Ensures-continue :
      (r : Result A) (f : A → M W B) (w : W)
      → ((a : A) → r ≡ ok a → Ensures (f a) P)
      → (b : B) → (continue r f w).0 ≡ ok b
      → P b
  Ensures-continue (ok a) f w h b e = (h a refl).at w b e
  Ensures-continue (err x) f w h b e = cc

  pub Ensures-bind :
      (m : M W A) (f : A → M W B) (Q : A → Type 0)
      → Ensures m Q
      → ((a : A) → Q a → Ensures (f a) P)
      → Ensures (m >>= f) P
  unfolding ◌>>=◌
  Ensures-bind m f Q hm hf = record {
    at = λ w b e. Ensures-continue (m w).0 f (m w).1 (λ a x. hf a (hm.at w a x)) b e;
  }

  -- Where nothing is known of the first part's value.
  pub Ensures-then : (m : M W A) (f : A → M W B) → ((a : A) → Ensures (f a) P) → Ensures (m >>= f) P
  unfolding ◌>>=◌
  Ensures-then m f hf = record {
    at = λ w b e. Ensures-continue (m w).0 f (m w).1 (λ a x. hf a) b e;
  }

  pub Ensures-lifted :
      (r : Result A) (f : A → M W B)
      → ((a : A) → r ≡ ok a → Ensures (f a) P)
      → Ensures (lift r >>= f) P
  unfolding ◌>>=◌
  Ensures-lifted r f hf = record { at = λ w b e. Ensures-continue r f w hf b e }

module _ {W B : Type 0} {P : B → Type 0} where
  -- What follows a guard may use that the guard passed.
  pub Ensures-guard :
      (b : Bool) (e : Error) (k : M W B) → (b ≡ false → Ensures k P) → Ensures (raise_if b e >> k) P
  unfolding ◌>>=◌
  Ensures-guard true e k h = record { at = λ w a x. cc }
  Ensures-guard false e k h = record { at = λ w a x. (h refl).at w a x }

-- Inversion of what returned.
module _ {W A B : Type 0} where
  bind-continue :
      (r : Result A) (f : A → M W B) (w : W) {b : B}
      → (continue r f w).0 ≡ ok b
      → (a : A) × (r ≡ ok a) × ((f a w).0 ≡ ok b)
  bind-continue (ok a) f w h = (a, refl, h)
  bind-continue (err e) f w h = cc

  pub bind-eq-ok :
      (m : M W A) (f : A → M W B) (w : W) {b : B}
      → ((m >>= f) w).0 ≡ ok b
      → (a : A) × ((m w).0 ≡ ok a) × ((f a (m w).1).0 ≡ ok b)
  unfolding ◌>>=◌
  bind-eq-ok m f w h = bind-continue (m w).0 f (m w).1 h

module _ {ℓ κ} {A : Type ℓ} {B : Type κ} where
  pub bind_result-eq-ok :
      (r : Result A) (f : A → Result B) {b : B}
      → bind_result r f ≡ ok b
      → (a : A) × (r ≡ ok a) × (f a ≡ ok b)
  bind_result-eq-ok (ok a) f h = (a, refl, h)
  bind_result-eq-ok (err e) f h = cc

pub translate-eq-ok {ℓ} :
    {A : Type ℓ} (caught : Error → Bool) (e : Error) (r : Result A) {a : A}
    → translate caught e r ≡ ok a
    → r ≡ ok a
translate-eq-ok caught e r h = ground arith

pub ruleset ensures_rules = (Ensures-raise, Ensures-if, Ensures-guard, Ensures-then)
