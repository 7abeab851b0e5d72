-- ===== src/Transport/Client/Manifests/Laws.antt =====
-- On the manifest operations of transport/client.py.
use meridian_ociadapter.Prelude.{ℕ, ◌≤◌, ◌≡◌, sym, ap, ◌∙◌, false, String, none, length, arith}
use meridian_ociadapter.Effect.{ok, is_type_or_value_error, digest_mismatch}
use meridian_ociadapter.Effect.Rules.{
  Ensures, Ensures-pure, Ensures-then, Ensures-lift, Ensures-guard, Ensures-lifted, translate-eq-ok,
}
use meridian_ociadapter.Hashing.{Bytes, Hashing, sha256_digest}
use meridian_ociadapter.Json.{Codec, parse_json_object}
use meridian_ociadapter.Transport.Models.{ManifestDocument, parse, differs, oci_manifest_media_type}
use meridian_ociadapter.Transport.Models.Laws.{descriptor-ok, parse-ok}
use meridian_ociadapter.Transport.Http.{RegistryHttpClient}
use meridian_ociadapter.Transport.Client.{request}
use meridian_ociadapter.Transport.Client.Manifests.{expected_digest, get_manifest, put_manifest}

-- A manifest that a reference may name: identified by the hash of its body, which is the reference
-- itself where that is a digest, within the bound, and decoded from its body.
pub record Names (sha : Bytes → String) (J : Codec) (maximum : ℕ) (reference : String)
    (doc : ManifestDocument) : Type 0 where
  pub digest : doc.digest ≡ sha doc.body
  pub bounded : length doc.body ≤ maximum
  pub expected : differs (expected_digest reference) doc.digest ≡ false
  pub decoded : parse_json_object J doc.body ≡ ok doc.value

-- What parses under the digest that a reference may hold.
pub parse-Names :
    (H : Hashing) (J : Codec) (body : Bytes) (reference : String) (maximum : ℕ)
    (doc : ManifestDocument)
    → parse H J body (expected_digest reference) maximum ≡ ok doc
    → Names (sha256_digest H) J maximum reference doc
parse-Names H J body reference maximum doc e =
    let (b, d, l, x, m, v) = parse-ok H J body (expected_digest reference) maximum doc e in
    record {
      digest = d ∙ ap (sha256_digest H) (sym b);
      bounded = omega (arith, l, ap (λ (t : Bytes). length t) b);
      expected = x;
      decoded = ap (parse_json_object J) b ∙ v;
    }

module _ {W : Type 0} (self : RegistryHttpClient W) where
  -- A manifest is returned only if its reference may name it.
  pub get_manifest-Ensures :
      (reference : String)
      → Ensures
          (get_manifest self reference)
          (Names (sha256_digest self.hashing) self.codec self.binding.max_manifest_bytes reference)
  unfolding get_manifest
  get_manifest-Ensures reference = Ensures-then (request self _) _ λ response.
      Ensures-lifted _ _ λ document e. Ensures-guard _ _ _ λ _. Ensures-guard _ _ _ λ _.
        Ensures-pure document (
          parse-Names self.hashing self.codec response.content reference
            self.binding.max_manifest_bytes document
            (translate-eq-ok is_type_or_value_error digest_mismatch _ e))

  -- A stored manifest is described by the hash and the length of its body.
  pub put_manifest-Ensures :
      (reference : String) (body : Bytes)
      → Ensures (put_manifest self reference body) (λ d. d ≡ record {
        media_type = oci_manifest_media_type;
        digest = sha256_digest self.hashing body;
        size = length body;
      })
  unfolding put_manifest
  put_manifest-Ensures reference body = Ensures-lifted _ _ λ document e.
      Ensures-then (request self _) _ λ response. Ensures-guard _ _ _ λ _. Ensures-lift _ λ d p.
        let (_, same, _, _, _, _) =
          parse-ok self.hashing self.codec body none self.binding.max_manifest_bytes document e in
        rw (← same) (descriptor-ok oci_manifest_media_type document.digest (length body) d p)

  -- Whenever a manifest is downloaded, whatever the registry answers, its digest is the hash of its body
  -- and is the reference where that is a digest; the body is within the binding's bound, and decodes
  -- to the manifest's value.
  pub get_manifest-Names :
      (reference : String) (w : W) (doc : ManifestDocument)
      → (get_manifest self reference w).0 ≡ ok doc
      → Names (sha256_digest self.hashing) self.codec self.binding.max_manifest_bytes reference doc
  get_manifest-Names reference w doc e = (get_manifest-Ensures reference).at w doc e
