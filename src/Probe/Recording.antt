-- ===== src/Probe/Recording.antt =====
-- A probe whose publications that return and whose deletions are recorded, and a logic of the record and of the
-- probe's variables.
use meridian_ociadapter.Prelude.{Bool, true, false, List, ◌∷◌, String}
use meridian_ociadapter.Effect.{
  Error, Result, ok, err, M, pure, lift, continue, ◌>>=◌, ◌>>◌, raise_if,
}
use meridian_ociadapter.Effect.Locals.{on_world, locals, assign}
use meridian_ociadapter.Transport.Models.{OciDescriptor}
use meridian_ociadapter.Transport.Interface.{Transport}
use meridian_ociadapter.Probe.{OciDistributionProbe}

-- The digests of the manifests whose publication returned, and of those whose deletion was requested,
-- the last one first. A publication that raises is not recorded, though the registry may have stored
-- the manifest.
pub record Log : Type 0 where
  pub published : List String
  pub deleted : List String

abbrev pub publishes : String → Log → Log
publishes d g = record g { published = d ∷ g.published }

abbrev pub deletes : String → Log → Log
deletes d g = record g { deleted = d ∷ g.deleted }

module _ {W : Type 0} where
  unfoldable pub record_publication : M W OciDescriptor → M (W × Log) OciDescriptor
  record_publication m = do d ← on_world m; assign (publishes d.digest); pure d

  unfoldable pub request_deletion : String → M W Bool → M (W × Log) Bool
  request_deletion d m = do assign (deletes d); on_world m

  abbrev pub recording_calls : Transport W → Transport (W × Log)
  recording_calls t = record {
    head_blob = λ d. on_world (t.head_blob d);
    start_upload = on_world t.start_upload;
    patch_upload = λ u c. on_world (t.patch_upload u c);
    finish_upload = λ u d. on_world (t.finish_upload u d);
    abort_upload = λ u. on_world (t.abort_upload u);
    upload_blob_bytes = λ b m. on_world (t.upload_blob_bytes b m);
    get_blob_bytes = λ d n. on_world (t.get_blob_bytes d n);
    get_manifest = λ r. on_world (t.get_manifest r);
    manifest_exists = λ r. on_world (t.manifest_exists r);
    put_manifest = λ r b. record_publication (t.put_manifest r b);
    delete_manifest = λ d. request_deletion d (t.delete_manifest d);
    list_tags = λ n last. on_world (t.list_tags n last);
  }

  abbrev pub recording_probe : OciDistributionProbe W → OciDistributionProbe (W × Log)
  recording_probe self = record {
    transport = record {
      calls = recording_calls self.transport.calls;
      ping = on_world self.transport.ping;
      open_blob = λ d r. on_world (self.transport.open_blob d r);
      get_referrers = λ d t. on_world (self.transport.get_referrers d t);
    };
    binding = self.binding;
    hashing = self.hashing;
    codec = self.codec;
    operation_version = self.operation_version;
    canonical = self.canonical;
    token_hex = on_world self.token_hex;
    now_text = on_world self.now_text;
  }

module _ {W L : Type 0} where
  -- A value with `Q`, or an error with `E`.
  abbrev pub After :
      {A : Type 0}
      → (A → Log → L → Type 0)
      → (Log → L → Type 0)
      → Result A × ((W × Log) × L)
      → Type 0
  After Q E (ok a, ((w, g), l)) = Q a g l
  After Q E (err e, ((w, g), l)) = E g l

  pub record Run {A : Type 0} (P : Log → L → Type 0) (m : M ((W × Log) × L) A)
      (Q : A → Log → L → Type 0) (E : Log → L → Type 0) : Type 0 where
    pub at : (w : W) (g : Log) (l : L) → P g l → After Q E (m ((w, g), l))

  module _ {A B : Type 0} {Q : B → Log → L → Type 0} {E : Log → L → Type 0} where
    continue-After :
        (R : A → Log → L → Type 0) (f : A → M ((W × Log) × L) B)
        → ((a : A) → Run (R a) (f a) Q E)
        → (r : Result A × ((W × Log) × L)) → After R E r
        → After Q E (continue r.0 f r.1)
    continue-After R f h (ok a, ((w, g), l)) q = (h a).at w g l q
    continue-After R f h (err e, ((w, g), l)) q = q

  module _ {B : Type 0} {Q : B → Log → L → Type 0} {E : Log → L → Type 0} where
    record_publication-After :
        (f : OciDescriptor → M ((W × Log) × L) B) (R : OciDescriptor → Log → L → Type 0)
        → ((d : OciDescriptor) → Run (R d) (f d) Q E)
        → (r : Result OciDescriptor × W) (g : Log) (l : L)
        → ((d : OciDescriptor) → R d (publishes d.digest g) l)
        → E g l
        → After Q E (
            let s =
              (continue r.0
                (λ (d : OciDescriptor). assign (publishes d.digest) >> pure d)
                (r.1, g)) in
            continue s.0 f (s.1, l))
    unfolding ◌>>=◌ assign pure
    record_publication-After f R h (ok d, w) g l p e = (h d).at w (publishes d.digest g) l (p d)
    record_publication-After f R h (err x, w) g l p e = e

  module _ {A B : Type 0} {P : Log → L → Type 0} {Q : B → Log → L → Type 0}
      {E : Log → L → Type 0} where
    pub Run-bind :
        (m : M ((W × Log) × L) A) (f : A → M ((W × Log) × L) B) (R : A → Log → L → Type 0)
        → Run P m R E
        → ((a : A) → Run (R a) (f a) Q E)
        → Run P (m >>= f) Q E
    unfolding ◌>>=◌
    Run-bind m f R hm hf = record {
      at = λ w g l p. continue-After R f hf (m ((w, g), l)) (hm.at w g l p);
    }

    quiet-After :
        (f : A → M ((W × Log) × L) B)
        → ((a : A) → Run P (f a) Q E)
        → (r : Result A × W) (g : Log) (l : L) → P g l
        → E g l
        → After Q E (continue r.0 f ((r.1, g), l))
    quiet-After f h (ok a, w) g l p e = (h a).at w g l p
    quiet-After f h (err x, w) g l p e = e

    -- A call that is not recorded.
    pub Run-quiet :
        ((g : Log) (l : L) → P g l → E g l)
        → (m : M W A) (f : A → M ((W × Log) × L) B) → ((a : A) → Run P (f a) Q E)
        → Run P (on_world (on_world m) >>= f) Q E
    unfolding ◌>>=◌ on_world
    Run-quiet k m f h = record { at = λ w g l p. quiet-After f h (m w) g l p (k g l p) }

    pub Run-lifted :
        ((g : Log) (l : L) → P g l → E g l)
        → (r : Result A) (f : A → M ((W × Log) × L) B) → ((a : A) → Run P (f a) Q E)
        → Run P (lift r >>= f) Q E
    unfolding ◌>>=◌
    Run-lifted k (ok a) f h = record { at = λ w g l p. (h a).at w g l p }
    Run-lifted k (err e) f h = record { at = λ w g l p. k g l p }

  module _ {B : Type 0} {P : Log → L → Type 0} {Q : B → Log → L → Type 0}
      {E : Log → L → Type 0} where
    pub Run-assign :
        (f : L → L) (k : M ((W × Log) × L) B) (R : Log → L → Type 0)
        → ((g : Log) (l : L) → P g l → R g (f l))
        → Run R k Q E
        → Run P (assign f >> k) Q E
    unfolding ◌>>=◌ assign
    Run-assign f k R h hk = record { at = λ w g l p. hk.at w g (f l) (h g l p) }

    pub Run-pure : (b : B) → ((g : Log) (l : L) → P g l → Q b g l) → Run P (pure b) Q E
    unfolding pure
    Run-pure b h = record { at = λ w g l p. h g l p }

    pub Run-locals :
        (f : L → M ((W × Log) × L) B) → ((l : L) → Run P (f l) Q E) → Run P (locals >>= f) Q E
    unfolding ◌>>=◌ locals
    Run-locals f h = record { at = λ w g l p. (h l).at w g l p }

    pub Run-record_publication :
        (m : M W OciDescriptor) (f : OciDescriptor → M ((W × Log) × L) B)
        (R : OciDescriptor → Log → L → Type 0)
        → ((g : Log) (l : L) → P g l → E g l)
        → ((d : OciDescriptor) (g : Log) (l : L) → P g l → R d (publishes d.digest g) l)
        → ((d : OciDescriptor) → Run (R d) (f d) Q E)
        → Run P (on_world (record_publication m) >>= f) Q E
    unfolding ◌>>=◌ on_world record_publication
    Run-record_publication m f R e h k = record {
      at = λ w g l p. record_publication-After f R k (m w) g l (λ d. h d g l p) (e g l p);
    }

    pub Run-request :
        (d : String) (m : M W Bool) (f : Bool → M ((W × Log) × L) B) (R : Log → L → Type 0)
        → ((g : Log) (l : L) → P g l → R (deletes d g) l)
        → ((g : Log) (l : L) → R g l → E g l)
        → ((b : Bool) → Run R (f b) Q E)
        → Run P (on_world (request_deletion d m) >>= f) Q E
    unfolding ◌>>=◌ on_world request_deletion assign
    Run-request d m f R h e k = record {
      at = λ w g l p. quiet-After f k (m w) (deletes d g) l (h g l p) (e (deletes d g) l (h g l p));
    }

    pub Run-guard :
        ((g : Log) (l : L) → P g l → E g l)
        → (b : Bool) (e : Error) (k : M ((W × Log) × L) B) → Run P k Q E
        → Run P (raise_if b e >> k) Q E
    unfolding ◌>>=◌
    Run-guard s true e k h = record { at = λ w g l p. s g l p }
    Run-guard s false e k h = record { at = λ w g l p. h.at w g l p }

  pub Run-raise_if :
      {P E : Log → L → Type 0}
      → ((g : Log) (l : L) → P g l → E g l)
      → (b : Bool) (e : Error) → Run P (raise_if b e) (λ _. P) E
  unfolding raise_if
  Run-raise_if k true e = record { at = λ w g l p. k g l p }
  Run-raise_if k false e = record { at = λ w g l p. p }

  pub Run-assign_last :
      {P E : Log → L → Type 0} (f : L → L) (R : Log → L → Type 0)
      → ((g : Log) (l : L) → P g l → R g (f l))
      → Run P (assign f) (λ _. R) E
  unfolding assign
  Run-assign_last f R h = record { at = λ w g l p. h g l p }
