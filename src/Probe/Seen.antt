-- ===== src/Probe/Seen.antt =====
-- On `deep` of probe/__init__.py: the answers of the registry behind the flags of a probe that passes.
use mathlib.Core.Path.{subst}
use meridian_ociadapter.Prelude.{
  ◌≡◌, refl, sym, ap, ◌∙◌, Bool, true, false, ◌&&◌, ◌||◌, not, and-true, List, String, none, some,
  take, drop, ◌<>◌, eq_iff, if◌then◌else◌,
}
use meridian_ociadapter.Effect.{Error, Result, ok, err, M, continue, ◌>>=◌, raise_if}
use meridian_ociadapter.Effect.Locals.{
  on_world, Triple, Triple-pure, Triple-bind, Triple-lifted, Triple-assign, Triple-assign_last,
  Triple-locals, Triple-known,
}
use meridian_ociadapter.Cursor.RoundTrip.{same_bytes-eq}
use meridian_ociadapter.Naming.{object_id_hash}
use meridian_ociadapter.Transport.Models.{
  OciDescriptor, ManifestDocument, build_anchor_manifest, build_object_manifest,
  meridian_object_artifact_type,
}
use meridian_ociadapter.Transport.Stream.{IteratorReader, read}
use meridian_ociadapter.Probe.{
  OciDistributionProbe, Canary, payload_value, has_digest, push_canaries, pull_canaries,
  remove_canaries, deep_passes, deep_body,
}

-- A call of the registry answered with `a`.
abbrev pub Answered : {W A : Type 0} → M W A → A → Type 0
Answered m a = (w : _) × ((m w).0 ≡ ok a)

module _ {W L A B : Type 0} {P : L → Type 0} {Q : B → L → Type 0} where
  continue-Answered :
      (m : M W A) (f : A → M (W × L) B) (w : W) (l : L)
      → ((a : A) → Answered m a → Triple P (f a) Q)
      → P l
      → (r : Result A) → (m w).0 ≡ r
      → (b : B) → (continue r f ((m w).1, l)).0 ≡ ok b
      → Q b (continue r f ((m w).1, l)).1.1
  continue-Answered m f w l h p (ok a) q b e = (h a (w, q)).at (m w).1 l p b e
  continue-Answered m f w l h p (err x) q b e = cc

  -- The rest knows what the registry answered.
  Triple-answered :
      (m : M W A) (f : A → M (W × L) B)
      → ((a : A) → Answered m a → Triple P (f a) Q)
      → Triple P (on_world m >>= f) Q
  unfolding ◌>>=◌ on_world
  Triple-answered m f h = record {
    at = λ w l p b e. continue-Answered m f w l h p (m w).0 refl b e;
  }

Triple-raise_if :
    {W L : Type 0} {P : L → Type 0} (b : Bool) (x : Error)
    → Triple {W = W} P (raise_if b x) (λ _ l. P l)
unfolding raise_if
Triple-raise_if true x = record { at = λ w l p a e. cc }
Triple-raise_if false x = record { at = λ w l p a e. p }

pub or_not : (a b : Bool) → (a || not b) ≡ true → b ≡ true → a ≡ true
or_not true b h e = refl
or_not false true h e = cc
or_not false false h e = cc

pub if_true : (b x : Bool) → (if b then x else true) ≡ true → b ≡ true → x ≡ true
if_true true x h e = h
if_true false x h e = cc

module _ {W : Type 0} (self : OciDistributionProbe W) (token : String) where
  -- The canaries: what the registry answered for the payload and for the two manifests.
  pub record ArePushed (payload anchor version : OciDescriptor) : Type 0 where
    pub config : OciDescriptor
    pub created_at : String
    pub stored :
        Answered
          (self.transport.calls.upload_blob_bytes payload_value "application/octet-stream")
          payload
    pub anchored :
        Answered
          (self.transport.calls.put_manifest
            ("m-probe-a-" <> token)
            (build_anchor_manifest self.hashing self.codec (object_id_hash self.hashing token)))
          anchor
    pub published :
        Answered
          (self.transport.calls.put_manifest ("m-probe-v-" <> token) (
            build_object_manifest self.codec anchor config payload
              (object_id_hash self.hashing token)
              created_at
              "immutable"))
          version

  -- The version's tag was read as the manifest that was published.
  abbrev IsPulled : OciDescriptor → Type 0
  IsPulled version =
      (d : ManifestDocument) × Answered (self.transport.calls.get_manifest ("m-probe-v-" <> token))
        d
      × (d.digest ≡ version.digest)

  -- A read of the payload's bytes 1 to 3 was answered with those bytes.
  abbrev IsRanged : OciDescriptor → Type 0
  IsRanged payload =
      (stream : IteratorReader) × Answered
        (self.transport.open_blob payload.digest (some (record { start = 1; end = some 3 }))) stream
      × ((read none stream).0 ≡ ok (take 3 (drop 1 payload_value)))

  -- The version was among the anchor's referrers.
  abbrev IsDiscovered : OciDescriptor → OciDescriptor → Type 0
  IsDiscovered anchor version =
      (found : List OciDescriptor) × Answered
        (self.transport.get_referrers anchor.digest meridian_object_artifact_type) found
      × (has_digest version.digest found ≡ true)

  abbrev IsDeleted : OciDescriptor → Type 0
  IsDeleted d = Answered (self.transport.calls.delete_manifest d.digest) true

  abbrev AreDeleted : OciDescriptor → OciDescriptor → Type 0
  AreDeleted anchor version = IsDeleted version × IsDeleted anchor

  -- What a probe that passes has seen.
  pub record IsWitnessed : Type 0 where
    pub payload : OciDescriptor
    pub anchor : OciDescriptor
    pub version : OciDescriptor
    pub pushed : ArePushed payload anchor version
    pub pulled : IsPulled version
    pub ranged : IsRanged payload
    pub discovered : self.binding.referrers_required ≡ true → IsDiscovered anchor version
    pub deleted : self.binding.deletion_enabled ≡ true → AreDeleted anchor version

  abbrev Flags : OciDescriptor → OciDescriptor → OciDescriptor → Canary → Type 0
  Flags payload anchor version c =
      (c.push_pull ≡ true → IsPulled version)
      × (c.range_read ≡ true → IsRanged payload)
      × (c.referrers ≡ true → IsDiscovered anchor version)

  push_canaries-Triple :
      Triple (λ _. Unit) (push_canaries self token) (λ d _. ArePushed d.0 d.1 d.2)
  unfolding push_canaries
  push_canaries-Triple = Triple-answered _ _ λ api _.
      Triple-assign _ _ (λ _. Unit) (λ _ _. tt)
        (Triple-answered _ _ λ payload stored. Triple-answered _ _ λ _ _.
          Triple-answered _ _ λ anchor anchored.
            Triple-assign _ _ (λ _. Unit) (λ _ _. tt)
              (Triple-answered _ _ λ config _. Triple-answered _ _ λ created_at _.
                Triple-answered _ _ λ version published.
                  Triple-assign _ _ (λ _. Unit) (λ _ _. tt)
                    (Triple-pure (payload, anchor, version)
                      λ _ _. record {
                        config = config;
                        created_at = created_at;
                        stored = stored;
                        anchored = anchored;
                        published = published;
                      })))

  pull_canaries-Triple :
      (payload anchor version : OciDescriptor)
      → Triple
          (λ _. Unit)
          (pull_canaries self token payload anchor version)
          (λ _ c. Flags payload anchor version c)
  unfolding pull_canaries
  pull_canaries-Triple payload anchor version = Triple-answered _ _ λ d answered.
      Triple-assign _ _ (λ c. c.push_pull ≡ true → IsPulled version)
        (λ c _ e. (d, answered, (eq_iff d.digest version.digest).0 e))
        (Triple-answered _ _ λ stream opened. Triple-lifted _ _ λ value same.
          Triple-assign _ _
            (λ c.
              (c.push_pull ≡ true → IsPulled version) × (c.range_read ≡ true → IsRanged payload))
            (λ c p. (p, λ e. (stream, opened, same ∙ ap ok (same_bytes-eq value _ e))))
            (Triple-answered _ _ λ found listed.
              Triple-assign _ _ (Flags payload anchor version)
                (λ c (p, q). (p, q, λ e. (found, listed, e))) (Triple-raise_if _ _)))

  remove_canaries-Triple :
      (payload anchor version : OciDescriptor) (enabled : Bool)
      → Triple (Flags payload anchor version) (remove_canaries self anchor version enabled) (λ _ c.
        Flags payload anchor version c
        × (enabled ≡ true → c.deletion ≡ true → AreDeleted anchor version))
  unfolding remove_canaries
  remove_canaries-Triple payload anchor version false = Triple-pure tt λ c p. (p, λ no _. cc)
  remove_canaries-Triple payload anchor version true = Triple-answered _ _ λ first a.
      Triple-assign _ _
        (λ c. Flags payload anchor version c × (c.deletion ≡ true → IsDeleted version))
        (λ c p.
          (p, λ e. subst (Answered (self.transport.calls.delete_manifest version.digest)) e a))
        (Triple-assign _ _
          (λ c. Flags payload anchor version c × (c.deletion ≡ true → IsDeleted version)) (λ c p. p)
          (Triple-answered _ _ λ second b.
            Triple-assign _ _
              (λ c.
                Flags payload anchor version c × (c.deletion ≡ true → AreDeleted anchor version))
              (λ c (p, q). (
                p,
                λ e.
                    let (x, y) = and-true second c.deletion e in
                    (
                      q y,
                      subst (Answered (self.transport.calls.delete_manifest anchor.digest)) x b,
                    ),
              ))
              (Triple-assign_last _ (λ c (p, q). (p, λ _. q)))))

  witnessed :
      (payload anchor version : OciDescriptor) (c : Canary)
      → ArePushed payload anchor version
      → Flags payload anchor version c
      → (self.binding.deletion_enabled ≡ true → c.deletion ≡ true → AreDeleted anchor version)
      → deep_passes self c ≡ true
      → IsWitnessed
  witnessed payload anchor version c pushed (pulled, ranged, discovered) deleted h =
      let required = c.referrers || not self.binding.referrers_required in
      let (x, d) =
        and-true (c.push_pull && c.range_read && required)
          (if self.binding.deletion_enabled then c.deletion else true) h in
      let (y, f) = and-true (c.push_pull && c.range_read) required x in
      let (p, r) = and-true c.push_pull c.range_read y in
      record {
        payload = payload;
        anchor = anchor;
        version = version;
        pushed = pushed;
        pulled = pulled p;
        ranged = ranged r;
        discovered = λ e. discovered (or_not c.referrers self.binding.referrers_required f e);
        deleted = λ e. deleted e (if_true self.binding.deletion_enabled c.deletion d e);
      }

  pub deep_body-Triple :
      Triple
        (λ _. Unit)
        (deep_body self token)
        (λ b c. (b ≡ deep_passes self c) × (b ≡ true → IsWitnessed))
  unfolding deep_body
  deep_body-Triple =
      Triple-bind _ _ (λ d _. ArePushed d.0 d.1 d.2) push_canaries-Triple
        λ (payload, anchor, version). Triple-known λ pushed.
          Triple-bind _ _ _ (pull_canaries-Triple payload anchor version) λ _.
            Triple-bind _ _ _
              (remove_canaries-Triple payload anchor version self.binding.deletion_enabled)
              λ _. Triple-locals _ λ c (flags, deleted). Triple-pure (deep_passes self c) λ x e. (
                sym (ap (deep_passes self) e),
                witnessed payload anchor version c pushed flags deleted,
              )
