-- ===== src/Transport/Client/Manifests.antt =====
-- The manifest, tag and referrer operations of transport/client.py.
pub mod Laws
use meridian_ociadapter.Prelude.{
  ℕ, ◌+◌, ◌*◌, Bool, true, false, ◌&&◌, ◌||◌, not, List, [], ◌∷◌, String, Option, none, some, leb,
  ◌==◌, ◌=ˢ◌, ◌<>◌, length, starts_with, if◌then◌else◌,
}
use Prim.Native.Nat.{max}
use meridian_ociadapter.Effect.{
  Error, Result, ok, err, bind_result, translate, is_decode_error, is_type_or_value_error, M, pure,
  raise, lift, continue, ◌>>=◌, ◌>>◌, raise_if, object_unavailable, digest_mismatch,
}
use meridian_ociadapter.Hashing.{Bytes}
use meridian_ociadapter.Json.{Json, null, str, arr, obj, Items, nil, cons, Fields, get, Codec}
use meridian_ociadapter.Transport.Models.{
  OciDescriptor, ManifestDocument, TagPage, descriptor, from_mapping, parse, differs,
  oci_manifest_media_type,
}
use meridian_ociadapter.Transport.Http.{FullResponse, RegistryHttpClient, default_response_bytes}
use meridian_ociadapter.Transport.Client.{Call, request}
use meridian_ociadapter.Transport.Client.Blobs.{url, repository, plain_call, or_else_text}

-- `reference if reference.startswith("sha256:") else None`
abbrev pub expected_digest : String → Option String
expected_digest reference = if starts_with reference "sha256:" then some reference else none

-- `value.get(key, [])` of a dict, `[]` of anything else; a JSON `null` stays.
abbrev listed : String → Option Json → Option Json
listed key (some (obj fs)) = elim (get key fs) [ none ↦ some (arr nil) | some v ↦ some v ]
listed key _ = some (arr nil)

-- The texts of a list of texts, and of `null` none.
unfoldable pub texts_of : Items → Option (List String)
texts_of nil = some []
texts_of (cons (str s) xs) = elim (texts_of xs) [ none ↦ none | some ts ↦ some (s ∷ ts) ]
texts_of (cons _ xs) = none

abbrev tag_list : Option Json → Option (List String)
tag_list (some null) = some []
tag_list (some (arr xs)) = texts_of xs
tag_list _ = none

-- Each entry of a referrers list, decoded.
unfoldable pub referrers_of : Items → Result (List OciDescriptor)
referrers_of nil = ok []
referrers_of (cons (obj fs) xs) =
    bind_result (translate is_type_or_value_error object_unavailable (from_mapping fs))
      λ d. bind_result (referrers_of xs) λ ds. ok (d ∷ ds)
referrers_of (cons _ xs) = err object_unavailable

abbrev referrer_list : Option Json → Result (List OciDescriptor)
referrer_list (some (arr xs)) = referrers_of xs
referrer_list _ = err object_unavailable

abbrev required {ℓ} : {A : Type ℓ} → Option A → Result A
required none = err object_unavailable
required (some a) = ok a

module _ {W : Type 0} (self : RegistryHttpClient W) where
  unfoldable pub manifest_url : String → String
  unfolding url repository
  manifest_url reference =
      url self ("/v2/" <> repository self <> "/manifests/" <> self.texts.quote ":._-" reference)

  abbrev accept_manifest : List (String × String)
  accept_manifest = ("Accept", oci_manifest_media_type) ∷ []

  unfoldable pub ping : M W String
  ping = do
    response ← request self (plain_call self "GET" (url self "/v2/") (200 ∷ []))
    pure (or_else_text (response.header "Docker-Distribution-Api-Version") "unknown")

  abbrev manifest_call : String → Call
  manifest_call reference = record (plain_call self "GET" (manifest_url reference) (200 ∷ [])) {
    headers = accept_manifest;
    maximum_response_bytes = self.binding.max_manifest_bytes;
  }

  -- Whether a content type was sent that is not the document's.
  abbrev other_type : String → String → Bool
  other_type content_type media_type = not (content_type =ˢ "") && not (content_type =ˢ media_type)

  unfoldable pub get_manifest : String → M W ManifestDocument
  get_manifest reference = do
    response ← request self (manifest_call reference)
    document ← lift (
        translate is_type_or_value_error digest_mismatch (
          parse self.hashing self.codec response.content (expected_digest reference)
            self.binding.max_manifest_bytes))
    raise_if (differs (response.header "Docker-Content-Digest") document.digest) digest_mismatch
    let content_type =
        self.texts.before_semicolon (or_else_text (response.header "Content-Type") "")
    raise_if (other_type content_type document.media_type) digest_mismatch
    pure document

  unfoldable pub manifest_exists : String → M W Bool
  manifest_exists reference = do
    response ←
        request self (record (plain_call self "HEAD" (manifest_url reference) (200 ∷ 404 ∷ [])) {
          headers = accept_manifest;
        })
    pure (response.status_code == 200)

  abbrev put_manifest_call : String → Bytes → Call
  put_manifest_call reference body = record {
    method = "PUT";
    url = manifest_url reference;
    headers = ("Content-Type", oci_manifest_media_type) ∷ [];
    content = some body;
    expected = 201 ∷ [];
    retry = false;
    maximum_response_bytes = default_response_bytes;
  }

  unfoldable pub put_manifest : String → Bytes → M W OciDescriptor
  put_manifest reference body = do
    document ← lift (parse self.hashing self.codec body none self.binding.max_manifest_bytes)
    response ← request self (put_manifest_call reference body)
    raise_if (differs (response.header "Docker-Content-Digest") document.digest) digest_mismatch
    lift (descriptor oci_manifest_media_type document.digest (length body))

  unfoldable pub delete_manifest : String → M W Bool
  delete_manifest digest = do
    response ← request self (plain_call self "DELETE" (manifest_url digest) (202 ∷ 404 ∷ []))
    pure (not (response.status_code == 404))

  abbrev last_param : Option String → List (String × String)
  last_param none = []
  last_param (some last) = ("last", last) ∷ []

  -- The page of a response to a tag request of the given limit.
  abbrev page_of : ℕ → FullResponse → Result TagPage
  page_of limit response =
      if response.status_code == 404
      then ok (record { tags = []; has_more = false })
      else bind_result
          (translate is_decode_error object_unavailable (self.codec.loads response.content))
          (λ value. bind_result (required (tag_list (listed "tags" (some value)))) (λ tags.
            ok (record {
              tags = tags;
              has_more =
                  self.texts.is_in "rel=\"next\"" (or_else_text (response.header "Link") "")
                  || leb limit (length tags);
            })))

  unfoldable pub list_tags : ℕ → Option String → M W TagPage
  list_tags limit last = do
    target ← lift (
        self.texts.copy_merge_params (url self ("/v2/" <> repository self <> "/tags/list"))
          (("n", self.texts.str_of limit) ∷ last_param last))
    response ← request self (record (plain_call self "GET" target (200 ∷ 404 ∷ [])) {
      maximum_response_bytes = max default_response_bytes (limit * 192 + 1024);
    })
    lift (page_of limit response)

  abbrev referrers_in : FullResponse → Result (List OciDescriptor)
  referrers_in response =
      if response.status_code == 404
      then ok []
      else bind_result
          (translate is_decode_error object_unavailable (self.codec.loads response.content))
          (λ value. referrer_list (listed "manifests" (some value)))

  unfoldable pub get_referrers : String → String → M W (List OciDescriptor)
  get_referrers subject_digest artifact_type = do
    target ← lift (
        self.texts.copy_add_param
          (url self
            ("/v2/" <> repository self <> "/referrers/" <> self.texts.quote ":" subject_digest))
          "artifactType" artifact_type)
    response ← request self (record (plain_call self "GET" target (200 ∷ 404 ∷ [])) {
      headers = ("Accept", "application/vnd.oci.image.index.v1+json") ∷ [];
      maximum_response_bytes = self.binding.max_manifest_bytes;
    })
    lift (referrers_in response)
