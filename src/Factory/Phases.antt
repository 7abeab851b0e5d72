-- ===== src/Factory/Phases.antt =====
-- The phases of the runtime of _factory.py, and what its attributes are in each of them.
use meridian_ociadapter.Prelude.{◌≡◌, refl, Bool, true, false, Option, none, some}
use meridian_ociadapter.Adapter.{OciDistributionAdapter}
use meridian_ociadapter.Factory.{AdapterProbe, Runtime}

-- The phases of a runtime, as its callers see them.
pub data Phase : Type 0 where
  closed open_ verified : Phase

-- A phase with an adapter, by whether it is verified.
abbrev pub live : Bool → Phase
live false = open_
live true = verified

module _ {W : Type 0} where
  abbrev StandsAs : Option (OciDistributionAdapter W) → Option AdapterProbe → Bool → Phase → Type 0
  StandsAs none none false closed = Unit
  StandsAs (some a) (some p) false open_ = Unit
  StandsAs (some a) (some p) true verified = Unit
  StandsAs _ _ _ _ = ⊥

  -- The attributes of a runtime in a phase: the adapter and the probe are both there or both not.
  abbrev pub Stands : Phase → Runtime W → Type 0
  Stands p s = StandsAs s.adapter s.probe s.verified p

  abbrev Parts : Option (OciDistributionAdapter W) → Option AdapterProbe → Bool → Bool → Type 0
  Parts a p v x =
      (b : OciDistributionAdapter W) × (q : AdapterProbe) × (a ≡ some b) × (p ≡ some q) × (v ≡ x)

  pub live-Parts :
      (a : Option (OciDistributionAdapter W)) (p : Option AdapterProbe) (v x : Bool)
      → StandsAs a p v (live x)
      → Parts a p v x
  live-Parts (some a) (some p) false false h = (a, p, refl, refl, refl)
  live-Parts (some a) (some p) true true h = (a, p, refl, refl, refl)
  live-Parts (some a) (some p) false true h = absurd h
  live-Parts (some a) (some p) true false h = absurd h
  live-Parts none none false false h = absurd h
  live-Parts none none false true h = absurd h
  live-Parts none none true false h = absurd h
  live-Parts none none true true h = absurd h
  live-Parts none (some p) false false h = absurd h
  live-Parts none (some p) true false h = absurd h
  live-Parts none (some p) false true h = absurd h
  live-Parts none (some p) true true h = absurd h
  live-Parts (some a) none false false h = absurd h
  live-Parts (some a) none true false h = absurd h
  live-Parts (some a) none false true h = absurd h
  live-Parts (some a) none true true h = absurd h

  pub closed-Parts :
      (a : Option (OciDistributionAdapter W)) (p : Option AdapterProbe) (v : Bool)
      → StandsAs a p v closed
      → (a ≡ none) × (p ≡ none) × (v ≡ false)
  closed-Parts none none false h = (refl, refl, refl)
  closed-Parts none none true h = absurd h
  closed-Parts none (some p) false h = absurd h
  closed-Parts none (some p) true h = absurd h
  closed-Parts (some a) none false h = absurd h
  closed-Parts (some a) none true h = absurd h
  closed-Parts (some a) (some p) false h = absurd h
  closed-Parts (some a) (some p) true h = absurd h
