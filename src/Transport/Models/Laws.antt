-- ===== src/Transport/Models/Laws.antt =====
-- On the manifests of transport/models.py: parsing, and the manifests that the package builds.
use meridian_ociadapter.Prelude.{
  le→not-ltb, ℕ, ◌≤◌, ◌≡◌, refl, sym, ap, ◌∙◌, Bool, true, false, String, Option, none, ltb,
  not-ltb→le, length, arith, if◌then◌else◌,
}
use meridian_ociadapter.Effect.{Error, Result, ok, err, bind_result}
use meridian_ociadapter.Effect.Rules.{bind_result-eq-ok}
use meridian_ociadapter.Hashing.{Bytes, Hashing, sha256_digest}
use meridian_ociadapter.Json.{
  Json, obj, Fields, end, get, is_two, is_str, Codec, ReadsBack, canonical_json, sort_keys,
  parse_json_object,
}
use meridian_ociadapter.Transport.Models.{
  OciDescriptor, ManifestDocument, descriptor, descriptor_of_values, from_mapping, to_dict, differs,
  parse, checked_manifest, object_value, build_object_manifest, manifest_descriptors,
  meridian_object_config_media_type, oci_manifest_media_type,
}

-- A descriptor that passes the checks of its constructor.
abbrev pub IsValidDescriptor : OciDescriptor → Type 0
IsValidDescriptor d = descriptor d.media_type d.digest d.size ≡ ok d

pub descriptor-ok :
    (m g : String) (n : ℕ) (d : OciDescriptor)
    → descriptor m g n ≡ ok d
    → (d ≡ record { media_type = m; digest = g; size = n })
unfolding descriptor
descriptor-ok m g n d h = ground arith

past_test {ℓ} :
    {A : Type ℓ} (b : Bool) (r : Result A) (e : Error) {a : A}
    → (if b then err e else r) ≡ ok a
    → (b ≡ false) × (r ≡ ok a)
past_test true r e h = cc
past_test false r e h = (refl, h)

abbrev fields_of : Json → Fields
fields_of (obj fs) = fs
fields_of _ = end

module _ (H : Hashing) (J : Codec) where
  checked_manifest-ok :
      (body : Bytes) (value : Fields) (doc : ManifestDocument)
      → checked_manifest H J body value ≡ ok doc
      → (doc.body ≡ body)
        × (doc.digest ≡ sha256_digest H body)
        × (doc.media_type ≡ oci_manifest_media_type)
        × (doc.value ≡ value)
  checked_manifest-ok body value doc h = ground arith

  -- A manifest that parses lies within the bound, is identified by the hash of its body, which is the
  -- expected digest where one is given, and has the OCI manifest media type.
  pub parse-ok :
      (body : Bytes) (expected : Option String) (maximum : ℕ) (doc : ManifestDocument)
      → parse H J body expected maximum ≡ ok doc
      → (doc.body ≡ body)
        × (doc.digest ≡ sha256_digest H body)
        × (length body ≤ maximum)
        × (differs expected doc.digest ≡ false)
        × (doc.media_type ≡ oci_manifest_media_type)
        × (parse_json_object J body ≡ ok doc.value)
  unfolding parse
  parse-ok body expected maximum doc h =
      let (small, h1) = past_test (ltb maximum (length body)) _ _ h in
      let (same, h2) = past_test (differs expected (sha256_digest H body)) _ _ h1 in
      let (value, p, q) =
        bind_result-eq-ok (parse_json_object J body) (checked_manifest H J body) h2 in
      let (e0, e1, e2, e3) = checked_manifest-ok body value doc q in
      (
        e0,
        e1,
        not-ltb→le maximum (length body) small,
        ap (differs expected) e1 ∙ same,
        e2,
        p ∙ ap ok (sym e3),
      )

  abbrev manifest_of : Bytes → Fields → ManifestDocument
  manifest_of body value = record {
    body = body;
    digest = sha256_digest H body;
    media_type = oci_manifest_media_type;
    value = value;
  }

  -- A document of the package's own, within the bound, is parsed to its sorted fields.
  parse-canonical :
      (fs : Fields) (maximum : ℕ)
      → ReadsBack J (obj fs)
      → length (canonical_json J (obj fs)) ≤ maximum
      → is_two (get "schemaVersion" (fields_of (sort_keys (obj fs)))) ≡ true
      → is_str oci_manifest_media_type (get "mediaType" (fields_of (sort_keys (obj fs)))) ≡ true
      → parse H J (canonical_json J (obj fs)) none maximum
        ≡ ok (manifest_of (canonical_json J (obj fs)) (fields_of (sort_keys (obj fs))))
  unfolding parse canonical_json parse_json_object sort_keys
  parse-canonical fs maximum r l two media =
      rw (le→not-ltb (length (J.dumps (sort_keys (obj fs)))) maximum l, r, two, media) refl

  module _ (anchor config payload : OciDescriptor) (hash created mutability : String) where
    abbrev built : Bytes
    built = build_object_manifest J anchor config payload hash created mutability

    abbrev built_fields : Fields
    built_fields =
        fields_of (sort_keys (object_value anchor config payload hash created mutability))

    descriptors-build :
        IsValidDescriptor anchor
        → IsValidDescriptor config
        → IsValidDescriptor payload
        → anchor.media_type ≡ oci_manifest_media_type
        → config.media_type ≡ meridian_object_config_media_type
        → manifest_descriptors (manifest_of built built_fields) ≡ ok (config, payload, anchor)
    unfolding manifest_descriptors from_mapping to_dict sort_keys descriptor_of_values
    descriptors-build va vc vp ma mc = rw (va, vc, vp, ma, mc) refl

    -- An object manifest that the package builds from valid descriptors is parsed within the bound,
    -- and gives back its config, payload and anchor.
    pub manifest_descriptors-build :
        (maximum : ℕ)
        → IsValidDescriptor anchor
        → IsValidDescriptor config
        → IsValidDescriptor payload
        → anchor.media_type ≡ oci_manifest_media_type
        → config.media_type ≡ meridian_object_config_media_type
        → ReadsBack J (object_value anchor config payload hash created mutability)
        → length built ≤ maximum
        → bind_result (parse H J built none maximum) manifest_descriptors
          ≡ ok (config, payload, anchor)
    unfolding build_object_manifest sort_keys
    manifest_descriptors-build maximum va vc vp ma mc r l =
        rw (parse-canonical _ maximum r l refl refl) (descriptors-build va vc vp ma mc)
