-- ===== src/Probe/Accounts.antt =====
-- Accounts of the canaries of probe/__init__.py: which published manifests were requested to be
-- deleted, and which a variable still holds.
use mathlib.Core.Path.{subst}
use meridian_ociadapter.Prelude.{
  ◌≡◌, refl, sym, true, List, [], ◌∷◌, String, Option, none, some, ◌=ˢ◌, eq_refl, contains_text,
  All, ◌⊎◌, inl, inr, Bool-cases,
}
use meridian_ociadapter.Transport.Models.{OciDescriptor}
use meridian_ociadapter.Probe.Recording.{Log, publishes, deletes}

abbrev pub Names : Option OciDescriptor → String → Type 0
Names none d = ⊥
Names (some x) d = x.digest ≡ d

-- Its deletion was requested, or a variable still holds it.
abbrev pub Covered : Option OciDescriptor → Option OciDescriptor → List String → String → Type 0
Covered a v deleted d = (contains_text d deleted ≡ true) ⊎ (Names a d ⊎ Names v d)

abbrev pub Accounted : Option OciDescriptor → Option OciDescriptor → Log → Type 0
Accounted a v g = All (Covered a v g.deleted) g.published

pub All-mono :
    {P Q : String → Type 0} (ds : List String) → ((d : String) → P d → Q d) → All P ds → All Q ds
All-mono [] h a = tt
All-mono (d ∷ ds) h (p, a) = (h d p, All-mono ds h a)

pub contains-later :
    (d e : String) (ds : List String) → contains_text d ds ≡ true → contains_text d (e ∷ ds) ≡ true
contains-later d e ds h = elim (Bool-cases (d =ˢ e)) [ inl q ↦ rw q refl | inr q ↦ rw q h ]

pub contains-first : (d e : String) (ds : List String) → e ≡ d → contains_text d (e ∷ ds) ≡ true
contains-first d e ds p = subst (λ x. contains_text d (x ∷ ds) ≡ true) (sym p) (rw (eq_refl d) refl)

module _ (a v : Option OciDescriptor) where
  pub Accounted-deletes : (d : String) (g : Log) → Accounted a v g → Accounted a v (deletes d g)
  Accounted-deletes d g h =
      All-mono g.published
        (λ x c. elim c [ inl q ↦ inl (contains-later x d g.deleted q) | inr q ↦ inr q ]) h

  pub Accounted-anchor :
      (x : OciDescriptor) (g : Log)
      → Accounted none v g
      → Accounted (some x) v (publishes x.digest g)
  Accounted-anchor x g h = (
    inr (inl refl),
    All-mono g.published
        (λ d c. elim c [
          | inl q ↦ inl q
          | inr q ↦ elim q [ inl r ↦ absurd r | inr r ↦ inr (inr r) ]
        ])
        h,
  )

  pub Accounted-version :
      (x : OciDescriptor) (g : Log)
      → Accounted a none g
      → Accounted a (some x) (publishes x.digest g)
  Accounted-version x g h = (
    inr (inr refl),
    All-mono g.published
        (λ d c. elim c [
          | inl q ↦ inl q
          | inr q ↦ elim q [ inl r ↦ inr (inl r) | inr r ↦ absurd r ]
        ])
        h,
  )

  pub Accounted-dropped :
      (x : OciDescriptor) (g : Log) → Accounted a (some x) g → Accounted a none (deletes x.digest g)
  Accounted-dropped x g h =
      All-mono g.published
        (λ d c. elim c [
          | inl q ↦ inl (contains-later d x.digest g.deleted q)
          | inr q ↦ elim q [
            | inl r ↦ inr (inl r)
            | inr r ↦ inl (contains-first d x.digest g.deleted r)
          ]
        ])
        h

  pub Accounted-released :
      (x : OciDescriptor) (g : Log) → Accounted (some x) v g → Accounted none v (deletes x.digest g)
  Accounted-released x g h =
      All-mono g.published
        (λ d c. elim c [
          | inl q ↦ inl (contains-later d x.digest g.deleted q)
          | inr q ↦ elim q [
            | inl r ↦ inl (contains-first d x.digest g.deleted r)
            | inr r ↦ inr (inr r)
          ]
        ])
        h

  pub Accounted-weaker : (g : Log) → Accounted none v g → Accounted a v g
  Accounted-weaker g h =
      All-mono g.published
        (λ d c. elim c [
          | inl q ↦ inl q
          | inr q ↦ elim q [ inl r ↦ absurd r | inr r ↦ inr (inr r) ]
        ])
        h

  pub Accounted-looser : (g : Log) → Accounted a none g → Accounted a v g
  Accounted-looser g h =
      All-mono g.published
        (λ d c. elim c [
          | inl q ↦ inl q
          | inr q ↦ elim q [ inl r ↦ inr (inl r) | inr r ↦ absurd r ]
        ])
        h
