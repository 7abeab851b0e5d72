-- ===== src/Adapter/Handlers/Recording.antt =====
-- An adapter whose calls of `delete_manifest` are recorded, and a logic of what was recorded.
use mathlib.Core.Path.{subst}
use meridian_ociadapter.Prelude.{
  ◌≡◌, refl, Bool, true, false, List, ◌∷◌, String, ◌⊎◌, inl, inr, ◌∙◌,
}
use meridian_ociadapter.Effect.{
  Error, Result, ok, err, M, pure, lift, continue, ◌>>=◌, ◌>>◌, raise_if,
}
use meridian_ociadapter.Effect.Locals.{on_world, assign}
use meridian_ociadapter.Effect.Rules.{Ensures}
use meridian_ociadapter.Transport.Interface.{Transport}
use meridian_ociadapter.Adapter.{OciDistributionAdapter}

-- The manifests whose deletion was requested, the last one first.
abbrev pub Log : Type 0
Log = List String

abbrev pub recording_transport : {W : Type 0} → Transport W → Transport (W × Log)
recording_transport t = record {
  head_blob = λ d. on_world (t.head_blob d);
  start_upload = on_world t.start_upload;
  patch_upload = λ u c. on_world (t.patch_upload u c);
  finish_upload = λ u d. on_world (t.finish_upload u d);
  abort_upload = λ u. on_world (t.abort_upload u);
  upload_blob_bytes = λ b m. on_world (t.upload_blob_bytes b m);
  get_blob_bytes = λ d n. on_world (t.get_blob_bytes d n);
  get_manifest = λ r. on_world (t.get_manifest r);
  manifest_exists = λ r. on_world (t.manifest_exists r);
  put_manifest = λ r b. on_world (t.put_manifest r b);
  delete_manifest = λ d. assign (λ log. d ∷ log) >> on_world (t.delete_manifest d);
  list_tags = λ n last. on_world (t.list_tags n last);
}

abbrev pub recording : {W : Type 0} → OciDistributionAdapter W → OciDistributionAdapter (W × Log)
recording self = record {
  binding = self.binding;
  transport = recording_transport self.transport;
  clock = on_world self.clock;
  payloads = record {
    register = λ s n d. on_world (self.payloads.register s n d);
    open_chunks = λ p n. on_world (self.payloads.open_chunks p n);
  };
  common = self.common;
  hashing = self.hashing;
  codec = self.codec;
  cursor_json = self.cursor_json;
  capability_fingerprint = self.capability_fingerprint;
}

-- A computation that requests no deletion, and one that, run in a world and a log, requests at most one,
-- of a manifest with `P`.
pub record Quiet {W A : Type 0} (m : M (W × Log) A) : Type 0 where
  pub at : (w : W) (l : Log) → (m (w, l)).1.1 ≡ l

abbrev pub Asks : {W A : Type 0} → (String → Type 0) → M (W × Log) A → W × Log → Type 0
Asks P m s = ((m s).1.1 ≡ s.1) ⊎ ((d : String) × P d × ((m s).1.1 ≡ d ∷ s.1))

module _ {W A : Type 0} where
  pub Ensures-on_world :
      {m : M W A} {P : A → Type 0} → Ensures m P → Ensures (on_world {L = Log} m) P
  unfolding on_world
  Ensures-on_world h = record { at = λ (w, l) a e. h.at w a e }

  pub Quiet-on_world : (m : M W A) → Quiet (on_world m)
  unfolding on_world
  Quiet-on_world m = record { at = λ w l. refl }

  pub Quiet-lift : (r : Result A) → Quiet {W = W} (lift r)
  unfolding lift
  Quiet-lift r = record { at = λ w l. refl }

  pub Quiet-pure : (a : A) → Quiet {W = W} (pure a)
  unfolding pure
  Quiet-pure a = record { at = λ w l. refl }

module _ {W : Type 0} where
  pub Quiet-raise_if : (b : Bool) (e : Error) → Quiet {W = W} (raise_if b e)
  unfolding raise_if
  Quiet-raise_if true e = record { at = λ w l. refl }
  Quiet-raise_if false e = record { at = λ w l. refl }

module _ {W A B : Type 0} where
  Quiet-continue :
      (r : Result A) (f : A → M (W × Log) B) (s : W × Log)
      → ((a : A) → Quiet (f a))
      → (continue r f s).1.1 ≡ s.1
  Quiet-continue (ok a) f (w, l) h = (h a).at w l
  Quiet-continue (err e) f s h = refl

  pub Quiet-bind :
      (m : M (W × Log) A) (f : A → M (W × Log) B)
      → Quiet m
      → ((a : A) → Quiet (f a))
      → Quiet (m >>= f)
  unfolding ◌>>=◌
  Quiet-bind m f hm hf = record {
    at = λ w l. Quiet-continue (m (w, l)).0 f (m (w, l)).1 hf ∙ hm.at w l;
  }

module _ {W A B : Type 0} {P : String → Type 0} where
  Asks-continue :
      (r : Result A) (f : A → M (W × Log) B) (s : W × Log) (l : Log)
      → s.1 ≡ l
      → ((a : A) → r ≡ ok a → Asks P (f a) s)
      → ((continue r f s).1.1 ≡ l) ⊎ ((d : String) × P d × ((continue r f s).1.1 ≡ d ∷ l))
  Asks-continue (ok a) f s l e h =
      subst (λ x. ((f a s).1.1 ≡ x) ⊎ ((d : String) × P d × ((f a s).1.1 ≡ d ∷ x))) e (h a refl)
  Asks-continue (err x) f s l e h = inl e

  -- The first part requests nothing, and the rest knows what it returned, and in which world.
  pub Asks-bind :
      (m : M (W × Log) A) (f : A → M (W × Log) B) (s : W × Log)
      → Quiet m
      → ((a : A) → (m s).0 ≡ ok a → Asks P (f a) (m s).1)
      → Asks P (m >>= f) s
  unfolding ◌>>=◌
  Asks-bind m f s quiet hf = Asks-continue (m s).0 f (m s).1 s.1 (quiet.at s.0 s.1) hf

  pub Asks-then :
      (m : M (W × Log) A) (f : A → M (W × Log) B) (s : W × Log)
      → Asks P m s
      → ((a : A) → Quiet (f a))
      → Asks P (m >>= f) s
  unfolding ◌>>=◌
  Asks-then m f s hm hf =
      let same = Quiet-continue (m s).0 f (m s).1 hf in
      elim hm [ inl e ↦ inl (same ∙ e) | inr (d, p, e) ↦ inr (d, p, same ∙ e) ]
