-- ===== src/Transport/Client/Blobs/Laws.antt =====
-- On the blob operations of transport/client.py.
use meridian_ociadapter.Prelude.{
  ℕ, ◌+◌, ◌≤◌, ◌≡◌, refl, ap, false, not, ◌||◌, [], ◌∷◌, String, ltb, ◌==◌, ◌=ˢ◌, eq_iff, length,
  arith,
}
use meridian_ociadapter.Effect.{ok}
use meridian_ociadapter.Effect.Rules.{
  Ensures, Ensures-pure, Ensures-raise, Ensures-then, Ensures-lift, Ensures-guard, Ensures-lifted,
}
use meridian_ociadapter.Hashing.{Bytes, sha256_digest}
use meridian_ociadapter.Transport.Models.{OciDescriptor, UploadLocation}
use meridian_ociadapter.Transport.Models.Laws.{descriptor-ok}
use meridian_ociadapter.Transport.Http.{FullResponse, RegistryHttpClient}
use meridian_ociadapter.Transport.Client.Blobs.{
  head_blob, start_upload, patch_upload, patched, finish_upload, upload_blob_bytes, store_blob,
  get_blob_bytes,
}

-- The bytes that a descriptor describes, within a bound.
pub record Matches (sha : Bytes → String) (d : OciDescriptor) (maximum : ℕ) (body : Bytes)
    : Type 0 where
  pub size : length body ≡ d.size
  pub bounded : length body ≤ maximum
  pub digest : sha body ≡ d.digest

checked :
    (maximum : ℕ) (body : Bytes) (size : ℕ)
    → (ltb maximum (length body) || not (length body == size)) ≡ false
    → (length body ≤ maximum) × (length body ≡ size)
checked maximum body size h = ground arith

pub same_text : (s t : String) → not (s =ˢ t) ≡ false → s ≡ t
same_text s t h = ground (arith, eq_iff s t)

module _ {W : Type 0} (self : RegistryHttpClient W) where
  -- The bytes of a blob are returned only if they have the size and the SHA-256 digest of the
  -- descriptor that was asked for, and lie within the bound.
  pub get_blob_bytes-Ensures :
      (d : OciDescriptor) (maximum : ℕ)
      → Ensures (get_blob_bytes self d maximum) (Matches (sha256_digest self.hashing) d maximum)
  unfolding get_blob_bytes
  get_blob_bytes-Ensures d maximum = Ensures-guard _ _ _ λ _. Ensures-then _ _ λ response.
      Ensures-guard _ _ _ λ small. Ensures-guard _ _ _ λ same. Ensures-pure response.content (
        let (l, s) = checked maximum response.content d.size small in
        record { size = s; bounded = l; digest = same_text _ d.digest same })

  patched-ok :
      (u : UploadLocation) (end : ℕ) (r : FullResponse) (v : UploadLocation)
      → patched self u end r ≡ ok v
      → (v.offset ≡ end + 1) × (v.minimum_chunk_bytes ≡ u.minimum_chunk_bytes)
  patched-ok u end r v h = ground arith

  -- A chunk that was accepted moves the upload by its length, and an empty chunk is refused.
  pub patch_upload-Ensures :
      (u : UploadLocation) (chunk : Bytes)
      → Ensures (patch_upload self u chunk) (λ v. v.offset ≡ u.offset + length chunk)
  unfolding patch_upload
  patch_upload-Ensures u [] = Ensures-raise _
  patch_upload-Ensures u (b ∷ bs) =
      Ensures-then _ _
        λ response. Ensures-lift _ λ v e. omega (arith, (patched-ok u _ response v e).0)

  pub start_upload-Ensures : Ensures (start_upload self) (λ u. u.offset ≡ 0)
  unfolding start_upload
  start_upload-Ensures =
      Ensures-then _ _ λ response.
        Ensures-lifted _ _ λ target _. Ensures-lifted _ _ λ minimum _. Ensures-pure _ refl

  -- Stored bytes are described by their own digest and length, whether the registry had them before
  -- or not.
  pub upload_blob_bytes-Ensures :
      (value : Bytes) (media_type : String)
      → Ensures (upload_blob_bytes self value media_type) (λ d. d ≡ record {
        media_type = media_type;
        digest = sha256_digest self.hashing value;
        size = length value;
      })
  unfolding upload_blob_bytes
  upload_blob_bytes-Ensures value media_type = Ensures-then (head_blob self _) _ λ existing.
      Ensures-then (store_blob self existing _ value) _
        λ _. Ensures-lift _ λ d e. descriptor-ok media_type _ _ d e

  pub finish_upload-Ensures :
      (u : UploadLocation) (digest : String)
      → Ensures (finish_upload self u digest) (λ d. (d.digest ≡ digest) × (d.size ≡ u.offset))
  unfolding finish_upload
  finish_upload-Ensures u digest = Ensures-then _ _ λ target. Ensures-then _ _ λ response.
      Ensures-guard _ _ _ λ _.
        Ensures-lift _
          λ d e. let p = descriptor-ok _ _ _ d e in (ap (λ x. x.digest) p, ap (λ x. x.size) p)

  -- Whenever a blob is downloaded whole, whatever the registry answers, the bytes have the size and the
  -- hash of the descriptor that was asked for, and are at most the maximum.
  pub get_blob_bytes-Matches :
      (d : OciDescriptor) (maximum : ℕ) (w : W) (body : Bytes)
      → (get_blob_bytes self d maximum w).0 ≡ ok body
      → Matches (sha256_digest self.hashing) d maximum body
  get_blob_bytes-Matches d maximum w body e = (get_blob_bytes-Ensures d maximum).at w body e
