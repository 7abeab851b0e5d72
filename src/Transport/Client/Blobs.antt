-- ===== src/Transport/Client/Blobs.antt =====
-- The blob and upload operations of transport/client.py.
pub mod Laws
use meridian_ociadapter.Prelude.{
  ℕ, suc, ◌+◌, ◌-◌, Bool, true, false, ◌&&◌, ◌||◌, not, List, [], ◌∷◌, String, Option, none, some,
  ltb, ◌==◌, ◌=ˢ◌, ◌<>◌, length, is_some, starts_with, strip_prefix, if◌then◌else◌,
}
use meridian_ociadapter.Effect.{
  Error, Result, ok, err, bind_result, M, pure, raise, lift, handle, try_except, continue, ◌>>=◌,
  ◌>>◌, raise_if, is_http_error, object_unavailable, object_invalid_request, digest_mismatch,
  incomplete_upload, range_not_satisfiable, value_error, http_error,
}
use meridian_ociadapter.Hashing.{Bytes, sha256_digest}
use meridian_ociadapter.Transport.Models.{OciDescriptor, descriptor, UploadLocation, differs}
use meridian_ociadapter.Transport.Stream.{Chunks, IteratorReader, iterator_reader}
use meridian_ociadapter.Transport.Http.{
  Response, FullResponse, RegistryHttpClient, default_response_bytes, location, provider_code,
  response_error, bounded_body, require_safe_url, Request,
}
use meridian_ociadapter.Transport.Client.{Call, request, headers}

abbrev pub or_else_text : Option String → String → String
or_else_text none d = d
or_else_text (some s) d = s

abbrev or_else_uuid : Option String → Option String → Option String
or_else_uuid none d = d
or_else_uuid (some s) d = some s

abbrev octet_stream : String
octet_stream = "application/octet-stream"

module _ {W : Type 0} (self : RegistryHttpClient W) where
  unfoldable pub url : String → String
  url path = self.binding.endpoint <> path

  unfoldable pub repository : String
  repository = self.texts.quote "/" self.binding.repository

  unfoldable pub blob_url : String → String
  unfolding url repository
  blob_url digest = url ("/v2/" <> repository <> "/blobs/" <> self.texts.quote ":" digest)

  -- `_content_length`
  abbrev content_length : Option String → Result ℕ
  content_length none = err object_unavailable
  content_length (some value) =
      if self.texts.isdigit value then self.texts.int value else err object_unavailable

  -- A response of a read: `GET`, `HEAD` or `DELETE` with no headers of its own.
  abbrev pub plain_call : String → String → List ℕ → Call
  plain_call method target expected = record {
    method = method;
    url = target;
    headers = [];
    content = none;
    expected = expected;
    retry = true;
    maximum_response_bytes = default_response_bytes;
  }

  abbrev described : String → FullResponse → Result (Option OciDescriptor)
  described digest response =
      if response.status_code == 404
      then ok none
      else bind_result (content_length (response.header "Content-Length")) (λ size.
        if differs (response.header "Docker-Content-Digest") digest
        then err digest_mismatch
        else bind_result (descriptor octet_stream digest size) (λ d. ok (some d)))

  unfoldable pub head_blob : String → M W (Option OciDescriptor)
  head_blob digest = do
    response ← request self (plain_call "HEAD" (blob_url digest) (200 ∷ 404 ∷ []))
    lift (described digest response)

  abbrev minimum_of : Option String → Result (Option ℕ)
  minimum_of none = ok none
  minimum_of (some minimum) =
      if self.texts.isdigit minimum
      then bind_result (self.texts.int minimum) (λ n. ok (some n))
      else ok none

  unfoldable pub start_upload : M W UploadLocation
  start_upload = do
    response ← request self (record {
      method = "POST";
      url = url ("/v2/" <> repository <> "/blobs/uploads/");
      headers = ("Content-Length", "0") ∷ [];
      content = none;
      expected = 202 ∷ [];
      retry = false;
      maximum_response_bytes = default_response_bytes;
    })
    target ← lift (location self.texts self.binding (response.header "Location"))
    minimum ← lift (minimum_of (response.header "OCI-Chunk-Min-Length"))
    pure (record {
      url = target;
      uuid = response.header "Docker-Upload-UUID";
      minimum_chunk_bytes = minimum;
      offset = 0;
    })

  -- The request for a chunk that ends at `end`, `Content-Range` included.
  abbrev pub patch_call : UploadLocation → Bytes → ℕ → Call
  patch_call upload chunk end = record {
    method = "PATCH";
    url = upload.url;
    headers =
        ("Content-Type", octet_stream)
        ∷ ("Content-Length", self.texts.str_of (length chunk))
        ∷ ("Content-Range", self.texts.str_of upload.offset <> "-" <> self.texts.str_of end)
        ∷ [];
    content = some chunk;
    expected = 202 ∷ [];
    retry = false;
    maximum_response_bytes = default_response_bytes;
  }

  abbrev patched : UploadLocation → ℕ → FullResponse → Result UploadLocation
  patched upload end response =
      if differs (response.header "Range") ("0-" <> self.texts.str_of end)
      then err incomplete_upload
      else bind_result (location self.texts self.binding (response.header "Location")) (λ target.
        ok (record {
          url = target;
          uuid = or_else_uuid (response.header "Docker-Upload-UUID") upload.uuid;
          minimum_chunk_bytes = upload.minimum_chunk_bytes;
          offset = end + 1;
        }))

  unfoldable pub patch_upload : UploadLocation → Bytes → M W UploadLocation
  patch_upload upload [] = raise value_error
  patch_upload upload (b ∷ bs) = do
    let end = upload.offset + length (b ∷ bs) - 1
    response ← request self (patch_call upload (b ∷ bs) end)
    lift (patched upload end response)

  abbrev put_call : String → List (String × String) → Bytes → Call
  put_call target hs content = record {
    method = "PUT";
    url = target;
    headers = hs;
    content = some content;
    expected = 201 ∷ [];
    retry = false;
    maximum_response_bytes = default_response_bytes;
  }

  unfoldable pub finish_upload : UploadLocation → String → M W OciDescriptor
  finish_upload upload digest = do
    target ← lift (self.texts.copy_merge_params upload.url (("digest", digest) ∷ []))
    response ←
        request self
          (put_call target (("Content-Type", octet_stream) ∷ ("Content-Length", "0") ∷ []) [])
    raise_if (differs (response.header "Docker-Content-Digest") digest) digest_mismatch
    lift (descriptor octet_stream digest upload.offset)

  unfoldable pub abort_upload : UploadLocation → M W (Unit {0})
  abort_upload upload = do
    _ ← request self (plain_call "DELETE" upload.url (204 ∷ 404 ∷ []))
    pure tt

  abbrev ignore_errors : M W (Unit {0}) → M W (Unit {0})
  ignore_errors m = try_except m (λ _. pure tt)

  -- `_abort_safely`
  unfoldable pub abort_safely : UploadLocation → M W (Unit {0})
  unfolding abort_upload
  abort_safely upload = ignore_errors (abort_upload upload)

  abbrev offset_after : String → Option String → ℕ → Result ℕ
  offset_after returned none offset = ok offset
  offset_after returned (some rest) offset =
      if self.texts.isdigit rest
      then bind_result (self.texts.int rest) (λ n. ok (n + 1))
      else ok offset

  unfoldable pub upload_status : UploadLocation → M W UploadLocation
  upload_status upload = do
    response ← request self (plain_call "GET" upload.url (204 ∷ []))
    let returned = or_else_text (response.header "Range") ""
    offset ← lift (offset_after returned (strip_prefix "0-" returned) upload.offset)
    target ← lift (location self.texts self.binding (response.header "Location"))
    pure (record {
      url = target;
      uuid = or_else_uuid (response.header "Docker-Upload-UUID") upload.uuid;
      minimum_chunk_bytes = upload.minimum_chunk_bytes;
      offset = offset;
    })

  -- The single request that stores the bytes of a new blob.
  unfoldable pub put_blob : UploadLocation → String → Bytes → M W (Unit {0})
  put_blob upload digest value = do
    target ← lift (self.texts.copy_merge_params upload.url (("digest", digest) ∷ []))
    response ← request self (put_call target (("Content-Type", octet_stream) ∷ []) value)
    raise_if (differs (response.header "Docker-Content-Digest") digest) digest_mismatch

  abbrev store_blob : Option OciDescriptor → String → Bytes → M W (Unit {0})
  store_blob (some existing) digest value =
      raise_if (not (existing.size == length value)) digest_mismatch
  store_blob none digest value = do
    upload ← start_upload
    try_except (put_blob upload digest value) (λ e. do abort_safely upload; raise e)

  unfoldable pub upload_blob_bytes : Bytes → String → M W OciDescriptor
  upload_blob_bytes value media_type = do
    let digest = sha256_digest self.hashing value
    existing ← head_blob digest
    store_blob existing digest value
    lift (descriptor media_type digest (length value))

  unfoldable pub get_blob_bytes : OciDescriptor → ℕ → M W Bytes
  get_blob_bytes d maximum_bytes = do
    raise_if (ltb maximum_bytes d.size) object_invalid_request
    response ← request self (record (plain_call "GET" (blob_url d.digest) (200 ∷ [])) {
      maximum_response_bytes = maximum_bytes;
    })
    let body = response.content
    raise_if (ltb maximum_bytes (length body) || not (length body == d.size)) digest_mismatch
    raise_if (not (sha256_digest self.hashing body =ˢ d.digest)) digest_mismatch
    pure body
