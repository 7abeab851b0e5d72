-- ===== src/Transport/Interface.antt =====
-- What the adapter uses of the registry client of transport/client.py: its operations, and what it
-- relies on of their results.
use meridian_ociadapter.Prelude.{ℕ, ◌+◌, ◌≡◌, Bool, Option, String, length}
use meridian_ociadapter.Effect.{M}
use meridian_ociadapter.Effect.Rules.{Ensures}
use meridian_ociadapter.Hashing.{Bytes, Hashing, sha256_digest}
use meridian_ociadapter.Json.{Codec}
use meridian_ociadapter.Transport.Models.{
  OciDescriptor, ManifestDocument, UploadLocation, TagPage, oci_manifest_media_type,
}
use meridian_ociadapter.Transport.Http.{RegistryHttpClient}
use meridian_ociadapter.Transport.Client.Blobs
use meridian_ociadapter.Transport.Client.Blobs.Laws.{
  Matches, get_blob_bytes-Ensures, patch_upload-Ensures, start_upload-Ensures,
  upload_blob_bytes-Ensures,
}
use meridian_ociadapter.Transport.Client.Manifests
use meridian_ociadapter.Transport.Client.Manifests.Laws.{
  Names, get_manifest-Ensures, put_manifest-Ensures,
}

pub record Transport (W : Type 0) : Type 0 where
  pub head_blob : String → M W (Option OciDescriptor)
  pub start_upload : M W UploadLocation
  pub patch_upload : UploadLocation → Bytes → M W UploadLocation
  pub finish_upload : UploadLocation → String → M W OciDescriptor
  pub abort_upload : UploadLocation → M W (Unit {0})
  pub upload_blob_bytes : Bytes → String → M W OciDescriptor
  pub get_blob_bytes : OciDescriptor → ℕ → M W Bytes
  pub get_manifest : String → M W ManifestDocument
  pub manifest_exists : String → M W Bool
  pub put_manifest : String → Bytes → M W OciDescriptor
  pub delete_manifest : String → M W Bool
  pub list_tags : ℕ → Option String → M W TagPage

-- `self.transport` of an adapter, where a registry client stands behind it
abbrev pub registry_transport : {W : Type 0} → RegistryHttpClient W → Transport W
registry_transport self = record {
  head_blob = Blobs.head_blob self;
  start_upload = Blobs.start_upload self;
  patch_upload = Blobs.patch_upload self;
  finish_upload = Blobs.finish_upload self;
  abort_upload = Blobs.abort_upload self;
  upload_blob_bytes = Blobs.upload_blob_bytes self;
  get_blob_bytes = Blobs.get_blob_bytes self;
  get_manifest = Manifests.get_manifest self;
  manifest_exists = Manifests.manifest_exists self;
  put_manifest = Manifests.put_manifest self;
  delete_manifest = Manifests.delete_manifest self;
  list_tags = Manifests.list_tags self;
}

-- The promises: what is downloaded has been checked against what it was asked by.
pub record IsVerifying {W : Type 0} (H : Hashing) (J : Codec) (max_manifest : ℕ) (t : Transport W)
    : Type 0 where
  pub blob :
      (d : OciDescriptor) (maximum : ℕ)
      → Ensures (t.get_blob_bytes d maximum) (Matches (sha256_digest H) d maximum)
  pub manifest :
      (reference : String)
      → Ensures (t.get_manifest reference) (Names (sha256_digest H) J max_manifest reference)
  pub started : Ensures t.start_upload (λ u. u.offset ≡ 0)
  pub chunk :
      (u : UploadLocation) (c : Bytes)
      → Ensures (t.patch_upload u c) (λ v. v.offset ≡ u.offset + length c)
  pub stored :
      (value : Bytes) (media_type : String)
      → Ensures (t.upload_blob_bytes value media_type) (λ d.
        d ≡ record { media_type = media_type; digest = sha256_digest H value; size = length value })
  pub published :
      (reference : String) (body : Bytes)
      → Ensures (t.put_manifest reference body) (λ d. d ≡ record {
        media_type = oci_manifest_media_type;
        digest = sha256_digest H body;
        size = length body;
      })

-- The client's transport verifies every blob and manifest that it returns, and describes what it
-- stores by the hash and the length of the bytes, over every world, HTTP client and codec.
pub registry_transport-IsVerifying :
    {W : Type 0} (self : RegistryHttpClient W)
    → IsVerifying self.hashing self.codec self.binding.max_manifest_bytes (registry_transport self)
registry_transport-IsVerifying self = record {
  blob = get_blob_bytes-Ensures self;
  manifest = get_manifest-Ensures self;
  started = start_upload-Ensures self;
  chunk = patch_upload-Ensures self;
  stored = upload_blob_bytes-Ensures self;
  published = put_manifest-Ensures self;
}
