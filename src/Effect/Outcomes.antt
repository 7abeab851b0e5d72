-- ===== src/Effect/Outcomes.antt =====
-- A logic of computations over mutable variables that says what holds of the variables after a return
-- and what after an exception.
use meridian_ociadapter.Prelude.{◌≡◌, refl, Bool, true, false}
use meridian_ociadapter.Effect.{
  Error, Result, ok, err, M, pure, raise, lift, handle, try_except, continue, ◌>>=◌, ◌>>◌, raise_if,
}
use meridian_ociadapter.Effect.Locals.{on_world, locals, assign}

module _ {W L : Type 0} where
  abbrev pub Post : {A : Type 0} → (A → L → Type 0) → (L → Type 0) → Result A × (W × L) → Type 0
  Post Q E (ok a, (w, l)) = Q a l
  Post Q E (err e, (w, l)) = E l

  -- From variables with `P`, `m` returns a value and variables with `Q`, or raises and leaves `E`.
  pub record Ends {A : Type 0} (P : L → Type 0) (m : M (W × L) A) (Q : A → L → Type 0)
      (E : L → Type 0) : Type 0 where
    pub at : (w : W) (l : L) → P l → Post Q E (m (w, l))

  module _ {A B : Type 0} {Q : B → L → Type 0} {E : L → Type 0} where
    continue-Post :
        (R : A → L → Type 0) (f : A → M (W × L) B)
        → ((a : A) → Ends (R a) (f a) Q E)
        → (r : Result A × (W × L)) → Post R E r
        → Post Q E (continue r.0 f r.1)
    continue-Post R f h (ok a, (w, l)) q = (h a).at w l q
    continue-Post R f h (err e, (w, l)) q = q

  module _ {B : Type 0} {Q : B → L → Type 0} {E : L → Type 0} where
    handle-Post :
        (G : L → Type 0) (h : Error → M (W × L) B)
        → ((e : Error) → Ends G (h e) Q E)
        → (r : Result B × (W × L)) → Post Q G r
        → Post Q E (handle r.0 h r.1)
    handle-Post G h k (ok b, (w, l)) q = q
    handle-Post G h k (err e, (w, l)) q = (k e).at w l q

  module _ {A B : Type 0} {P : L → Type 0} {Q : B → L → Type 0} {E : L → Type 0} where
    pub Ends-bind :
        (m : M (W × L) A) (f : A → M (W × L) B) (R : A → L → Type 0)
        → Ends P m R E
        → ((a : A) → Ends (R a) (f a) Q E)
        → Ends P (m >>= f) Q E
    unfolding ◌>>=◌
    Ends-bind m f R hm hf = record { at = λ w l p. continue-Post R f hf (m (w, l)) (hm.at w l p) }

    pub Ends-lifted :
        (r : Result A) (f : A → M (W × L) B)
        → ((l : L) → P l → E l)
        → ((a : A) → r ≡ ok a → Ends P (f a) Q E)
        → Ends P (lift r >>= f) Q E
    unfolding ◌>>=◌
    Ends-lifted (ok a) f s h = record { at = λ w l p. (h a refl).at w l p }
    Ends-lifted (err e) f s h = record { at = λ w l p. s l p }

    world-Post :
        (f : A → M (W × L) B)
        → ((a : A) → Ends P (f a) Q E)
        → (r : Result A × W) (l : L) → P l
        → E l
        → Post Q E (continue r.0 f (r.1, l))
    world-Post f h (ok a, w) l p e = (h a).at w l p
    world-Post f h (err x, w) l p e = e

    pub Ends-world :
        (m : M W A) (f : A → M (W × L) B)
        → ((l : L) → P l → E l)
        → ((a : A) → Ends P (f a) Q E)
        → Ends P (on_world m >>= f) Q E
    unfolding ◌>>=◌ on_world
    Ends-world m f s h = record { at = λ w l p. world-Post f h (m w) l p (s l p) }

  module _ {B : Type 0} {P : L → Type 0} {Q : B → L → Type 0} {E : L → Type 0} where
    pub Ends-pure : (b : B) → ((l : L) → P l → Q b l) → Ends P (pure b) Q E
    unfolding pure
    Ends-pure b h = record { at = λ w l p. h l p }

    pub Ends-lift :
        (r : Result B)
        → ((e : Error) → r ≡ err e → (l : L) → P l → E l)
        → ((b : B) → r ≡ ok b → (l : L) → P l → Q b l)
        → Ends P (lift r) Q E
    unfolding lift
    Ends-lift (ok b) h k = record { at = λ w l p. k b refl l p }
    Ends-lift (err e) h k = record { at = λ w l p. h e refl l p }

    pub Ends-raise : (e : Error) → ((l : L) → P l → E l) → Ends P (raise e) Q E
    unfolding raise
    Ends-raise e h = record { at = λ w l p. h l p }

    pub Ends-guard :
        (b : Bool) (e : Error) (k : M (W × L) B)
        → ((l : L) → P l → E l)
        → (b ≡ false → Ends P k Q E)
        → Ends P (raise_if b e >> k) Q E
    unfolding ◌>>=◌
    Ends-guard true e k s h = record { at = λ w l p. s l p }
    Ends-guard false e k s h = record { at = λ w l p. (h refl).at w l p }

    pub Ends-locals :
        (f : L → M (W × L) B)
        → ((l : L) → P l → Ends (λ x. x ≡ l) (f l) Q E)
        → Ends P (locals >>= f) Q E
    unfolding ◌>>=◌ locals
    Ends-locals f h = record { at = λ w l p. (h l p).at w l refl }

    pub Ends-assign :
        (g : L → L) (k : M (W × L) B) (R : L → Type 0)
        → ((l : L) → P l → R (g l))
        → Ends R k Q E
        → Ends P (assign g >> k) Q E
    unfolding ◌>>=◌ assign
    Ends-assign g k R h hk = record { at = λ w l p. hk.at w (g l) (h l p) }

    pub Ends-try :
        (m : M (W × L) B) (h : Error → M (W × L) B) (G : L → Type 0)
        → Ends P m Q G
        → ((e : Error) → Ends G (h e) Q E)
        → Ends P (try_except m h) Q E
    unfolding try_except
    Ends-try m h G hm hh = record { at = λ w l p. handle-Post G h hh (m (w, l)) (hm.at w l p) }

    pub Ends-weaken :
        {m : M (W × L) B} (R : L → Type 0) → ((l : L) → P l → R l) → Ends R m Q E → Ends P m Q E
    Ends-weaken R k h = record { at = λ w l p. h.at w l (k l p) }

  world-Post_same :
      {A : Type 0} (P E : L → Type 0) (r : Result A × W) (l : L)
      → P l
      → E l
      → Post (λ _. P) E (r.0, (r.1, l))
  world-Post_same P E (ok a, w) l p e = p
  world-Post_same P E (err x, w) l p e = e

  module _ {P E : L → Type 0} where
    pub Ends-on_world :
        {A : Type 0} (m : M W A) → ((l : L) → P l → E l) → Ends P (on_world m) (λ _. P) E
    unfolding on_world
    Ends-on_world m s = record { at = λ w l p. world-Post_same P E (m w) l p (s l p) }

    pub Ends-assign_last :
        (g : L → L) (R : L → Type 0) → ((l : L) → P l → R (g l)) → Ends P (assign g) (λ _. R) E
    unfolding assign
    Ends-assign_last g R h = record { at = λ w l p. h l p }

  -- What is known of the outcomes may be weakened.
  Post-weaken :
      {A : Type 0} {Q R : A → L → Type 0} {E F : L → Type 0} (r : Result A × (W × L))
      → ((a : A) (l : L) → Q a l → R a l)
      → ((l : L) → E l → F l)
      → Post Q E r
      → Post R F r
  Post-weaken (ok a, (w, l)) h k p = h a l p
  Post-weaken (err e, (w, l)) h k p = k l p

  pub Ends-after :
      {A : Type 0} {P : L → Type 0} {m : M (W × L) A} {Q R : A → L → Type 0} {E F : L → Type 0}
      → ((a : A) (l : L) → Q a l → R a l)
      → ((l : L) → E l → F l)
      → Ends P m Q E
      → Ends P m R F
  Ends-after {m} h k d = record { at = λ w l p. Post-weaken (m (w, l)) h k (d.at w l p) }
