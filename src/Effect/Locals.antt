-- ===== src/Effect/Locals.antt =====
-- Mutable local variables of a method, as a second part of the world, and a logic for them.
use meridian_ociadapter.Prelude.{◌≡◌, refl, Bool, true, false}
use meridian_ociadapter.Effect.{
  Error, Result, ok, err, M, pure, raise, lift, continue, ◌>>=◌, ◌>>◌, raise_if,
}
use mathlib.Core.Path.{subst}
use meridian_ociadapter.Effect.Rules.{Ensures, ok-injective}

module _ {W L : Type 0} where
  -- A step that does not touch the variables.
  unfoldable pub on_world : {A : Type 0} → M W A → M (W × L) A
  on_world m (w, l) = let r = m w in (r.0, (r.1, l))

  unfoldable pub locals : M (W × L) L
  locals (w, l) = (ok l, (w, l))

  unfoldable pub assign : (L → L) → M (W × L) (Unit {0})
  assign f (w, l) = (ok tt, (w, f l))

-- From variables with `P`, where `m` returns, its value and the variables have `Q`.
pub record Triple {W L A : Type 0} (P : L → Type 0) (m : M (W × L) A) (Q : A → L → Type 0)
    : Type 0 where
  pub at : (w : W) (l : L) → P l → (a : A) → (m (w, l)).0 ≡ ok a → Q a (m (w, l)).1.1

module _ {W L A : Type 0} {P : L → Type 0} {Q : A → L → Type 0} where
  pub Triple-pure : (a : A) → ((l : L) → P l → Q a l) → Triple {W = W} P (pure a) Q
  unfolding pure
  Triple-pure a h = record { at = λ w l p b e. subst (λ x. Q x l) (ok-injective e) (h l p) }

  pub Triple-raise : (e : Error) → Triple {W = W} P (raise e) Q
  unfolding raise
  Triple-raise e = record { at = λ w l p b h. cc }

  pub Triple-lift :
      (r : Result A) → ((a : A) → r ≡ ok a → (l : L) → P l → Q a l) → Triple {W = W} P (lift r) Q
  unfolding lift
  Triple-lift r h = record { at = λ w l p a e. h a e l p }

  pub Triple-on_world :
      (m : M W A) (R : A → Type 0)
      → Ensures m R
      → ((a : A) (l : L) → R a → P l → Q a l)
      → Triple P (on_world m) Q
  unfolding on_world
  Triple-on_world m R h k = record { at = λ w l p a e. k a l (h.at w a e) p }

Triple-continue :
    {W L A B : Type 0} (Q : B → L → Type 0) (r : Result A) (f : A → M (W × L) B) (s : W × L)
    → ((a : A) → r ≡ ok a → (b : B) → (f a s).0 ≡ ok b → Q b (f a s).1.1)
    → (b : B) → (continue r f s).0 ≡ ok b
    → Q b (continue r f s).1.1
Triple-continue Q (ok a) f s h b e = h a refl b e
Triple-continue Q (err x) f s h b e = cc

module _ {W L A B : Type 0} {P : L → Type 0} {Q : B → L → Type 0} where
  pub Triple-bind :
      (m : M (W × L) A) (f : A → M (W × L) B) (R : A → L → Type 0)
      → Triple P m R
      → ((a : A) → Triple (R a) (f a) Q)
      → Triple P (m >>= f) Q
  unfolding ◌>>=◌
  Triple-bind m f R hm hf = record {
    at = λ w l p b e.
        let (w', l') = (m (w, l)).1 in
        Triple-continue Q (m (w, l)).0 f (m (w, l)).1
          (λ a x b' e'. (hf a).at w' l' (hm.at w l p a x) b' e') b e;
  }

  pub Triple-lifted :
      (r : Result A) (f : A → M (W × L) B)
      → ((a : A) → r ≡ ok a → Triple P (f a) Q)
      → Triple P (lift r >>= f) Q
  unfolding ◌>>=◌
  Triple-lifted (ok a) f h = h a refl
  Triple-lifted (err x) f h = record { at = λ w l p b e. cc }

module _ {W L B : Type 0} {P : L → Type 0} {Q : B → L → Type 0} where
  pub Triple-guard :
      (b : Bool) (e : Error) (k : M (W × L) B)
      → (b ≡ false → Triple P k Q)
      → Triple P (raise_if b e >> k) Q
  unfolding ◌>>=◌
  Triple-guard true e k h = record { at = λ w l p a x. cc }
  Triple-guard false e k h = record { at = λ w l p a x. (h refl).at w l p a x }

  pub Triple-locals :
      (f : L → M (W × L) B)
      → ((l : L) → P l → Triple (λ x. x ≡ l) (f l) Q)
      → Triple P (locals >>= f) Q
  unfolding ◌>>=◌ locals
  Triple-locals f h = record { at = λ w l p a x. (h l p).at w l refl a x }

  pub Triple-assign :
      (g : L → L) (k : M (W × L) B) (R : L → Type 0)
      → ((l : L) → P l → R (g l))
      → Triple R k Q
      → Triple P (assign g >> k) Q
  unfolding ◌>>=◌ assign
  Triple-assign g k R h hk = record { at = λ w l p a x. hk.at w (g l) (h l p) a x }

module _ {W L : Type 0} {P : L → Type 0} {Q : Unit {0} → L → Type 0} where
  pub Triple-assign_last :
      (g : L → L) → ((l : L) → P l → Q tt (g l)) → Triple {W = W} P (assign g) Q
  unfolding assign
  Triple-assign_last g h = record { at = λ w l p a x. h l p }

-- What does not depend on the variables stays known.
pub Triple-frame :
    {W L A : Type 0} {P : L → Type 0} {m : M (W × L) A} {Q : A → L → Type 0} (X : Type 0)
    → Triple P m Q
    → Triple (λ l. X × P l) m (λ a l. X × Q a l)
Triple-frame X h = record { at = λ w l (x, p) a e. (x, h.at w l p a e) }

-- Where nothing is known after the first part.
pub Triple-then :
    {W L A B : Type 0} {P : L → Type 0} {Q : B → L → Type 0} (m : M (W × L) A) (f : A → M (W × L) B)
    → ((a : A) → Triple (λ _. Unit) (f a) Q)
    → Triple P (m >>= f) Q
Triple-then m f h = Triple-bind m f (λ _ _. Unit) (record { at = λ w l p a e. tt }) h

pub Triple-known :
    {W L A : Type 0} {X : Type 0} {m : M (W × L) A} {Q : A → L → Type 0}
    → (X → Triple (λ _. Unit) m Q)
    → Triple (λ _. X) m Q
Triple-known h = record { at = λ w l x a e. (h x).at w l tt a e }

-- From variables with `P`, `m` leaves variables with `I`, whether it returns or raises.
pub record Kept {W L A : Type 0} (P : L → Type 0) (m : M (W × L) A) (I : L → Type 0) : Type 0 where
  pub at : (w : W) (l : L) → P l → I (m (w, l)).1.1

module _ {W L A : Type 0} {P I : L → Type 0} (start : (l : L) → P l → I l) where
  pub Kept-pure : (a : A) → Kept {W = W} P (pure a) I
  unfolding pure
  Kept-pure a = record { at = λ w l p. start l p }

  pub Kept-raise : (e : Error) → Kept {W = W} {A = A} P (raise e) I
  unfolding raise
  Kept-raise e = record { at = λ w l p. start l p }

  pub Kept-lift : (r : Result A) → Kept {W = W} P (lift r) I
  unfolding lift
  Kept-lift r = record { at = λ w l p. start l p }

  pub Kept-on_world : (m : M W A) → Kept P (on_world m) I
  unfolding on_world
  Kept-on_world m = record { at = λ w l p. start l p }

Kept-continue :
    {W L A B : Type 0} (I : L → Type 0) (r : Result A) (f : A → M (W × L) B) (s : W × L)
    → ((a : A) → r ≡ ok a → I (f a s).1.1)
    → I s.1
    → I (continue r f s).1.1
Kept-continue I (ok a) f s h i = h a refl
Kept-continue I (err x) f s h i = i

module _ {W L A B : Type 0} {P I : L → Type 0} where
  pub Kept-bind :
      (m : M (W × L) A) (f : A → M (W × L) B) (R : A → L → Type 0)
      → Triple P m R
      → Kept P m I
      → ((a : A) → Kept (R a) (f a) I)
      → Kept P (m >>= f) I
  unfolding ◌>>=◌
  Kept-bind m f R hm hi hf = record {
    at = λ w l p.
        let (w', l') = (m (w, l)).1 in
        Kept-continue I (m (w, l)).0 f (m (w, l)).1 (λ a x. (hf a).at w' l' (hm.at w l p a x))
          (hi.at w l p);
  }

  pub Kept-then :
      (m : M (W × L) A) (f : A → M (W × L) B)
      → Kept P m I
      → ((a : A) → Kept I (f a) I)
      → Kept P (m >>= f) I
  unfolding ◌>>=◌
  Kept-then m f hm hf = record {
    at = λ w l p.
        let (w', l') = (m (w, l)).1 in
        Kept-continue I (m (w, l)).0 f (m (w, l)).1 (λ a x. (hf a).at w' l' (hm.at w l p))
          (hm.at w l p);
  }

  pub Kept-lifted :
      (r : Result A) (f : A → M (W × L) B)
      → ((l : L) → P l → I l)
      → ((a : A) → r ≡ ok a → Kept P (f a) I)
      → Kept P (lift r >>= f) I
  unfolding ◌>>=◌
  Kept-lifted (ok a) f s h = h a refl
  Kept-lifted (err x) f s h = record { at = λ w l p. s l p }

  pub Kept-made :
      {r : Result A} {a : A} (f : A → M (W × L) B)
      → r ≡ ok a
      → Kept P (f a) I
      → Kept P (lift r >>= f) I
  unfolding ◌>>=◌
  Kept-made f e h = record { at = λ w l p. rw e (h.at w l p) }

module _ {W L B : Type 0} {P I : L → Type 0} where
  pub Kept-guard :
      (b : Bool) (e : Error) (k : M (W × L) B)
      → ((l : L) → P l → I l)
      → (b ≡ false → Kept P k I)
      → Kept P (raise_if b e >> k) I
  unfolding ◌>>=◌
  Kept-guard true e k s h = record { at = λ w l p. s l p }
  Kept-guard false e k s h = record { at = λ w l p. (h refl).at w l p }

  pub Kept-locals :
      (f : L → M (W × L) B) → ((l : L) → P l → Kept (λ x. x ≡ l) (f l) I) → Kept P (locals >>= f) I
  unfolding ◌>>=◌ locals
  Kept-locals f h = record { at = λ w l p. (h l p).at w l refl }

  pub Kept-assign :
      (g : L → L) (k : M (W × L) B) (R : L → Type 0)
      → ((l : L) → P l → R (g l))
      → Kept R k I
      → Kept P (assign g >> k) I
  unfolding ◌>>=◌ assign
  Kept-assign g k R h hk = record { at = λ w l p. hk.at w (g l) (h l p) }

module _ {W L A : Type 0} {m : M (W × L) A} {I : L → Type 0} where
  pub Kept-known : {X : Type 0} {P : L → Type 0} → (X → Kept P m I) → Kept (λ l. X × P l) m I
  Kept-known h = record { at = λ w l (x, p). (h x).at w l p }

  pub Kept-weaken : {P Q : L → Type 0} → ((l : L) → P l → Q l) → Kept Q m I → Kept P m I
  Kept-weaken k h = record { at = λ w l p. h.at w l (k l p) }

-- Where the first part does not touch the variables.
pub Kept-world :
    {W L A B : Type 0} {I : L → Type 0} (m : M W A) (f : A → M (W × L) B) (R : A → Type 0)
    → Ensures m R
    → ((a : A) → R a → Kept I (f a) I)
    → Kept I (on_world m >>= f) I
Kept-world m f R h k =
    Kept-bind (on_world m) f (λ a l. R a × _) (Triple-on_world m R h λ a l r p. (r, p))
      (Kept-on_world (λ l i. i) m) λ a. Kept-known (k a)

pub Triple-weaken :
    {W L A : Type 0} {P R : L → Type 0} {m : M (W × L) A} {Q : A → L → Type 0}
    → ((l : L) → P l → R l)
    → Triple R m Q
    → Triple P m Q
Triple-weaken k h = record { at = λ w l p a e. h.at w l (k l p) a e }

pub Triple-after :
    {W L A : Type 0} {P : L → Type 0} {m : M (W × L) A} {Q R : A → L → Type 0}
    → ((a : A) (l : L) → Q a l → R a l)
    → Triple P m Q
    → Triple P m R
Triple-after k h = record { at = λ w l p a e. k a _ (h.at w l p a e) }
