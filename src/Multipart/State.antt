-- ===== src/Multipart/State.antt =====
-- The sessions and parts of multipart/__init__.py, and the operations on them that need no registry.
use meridian_ociadapter.Prelude.{
  ℕ, ◌*◌, Bool, true, false, ◌&&◌, ◌||◌, List, [], ◌∷◌, String, Option, none, some, ltb, ◌==◌, ◌=ˢ◌,
  if◌then◌else◌,
}
use meridian_ociadapter.Effect.{Result, M}
use meridian_ociadapter.Hashing.{Bytes}
use meridian_ociadapter.Binding.{same_resource}
use meridian_ociadapter.ObjectCommon.{
  ContentIdentity, ObjectReference, PutState, uploading, verifying, Datetime,
}
use meridian_ociadapter.Transport.Models.{UploadLocation}
use meridian_ociadapter.Adapter.{Operation, Method}

-- `MultipartSession` and `MultipartPart` of object_common
pub record MultipartSession : Type 0 where
  pub session_id : String
  pub object_ref : ObjectReference
  pub part_size : ℕ
  pub expires_at : String

pub record MultipartPart : Type 0 where
  pub part_number : ℕ
  pub identity : ContentIdentity
  pub verification : String

-- What the manager uses besides the adapter: the constructors of object_common that check their
-- arguments, random tokens, and texts.
pub record MultipartHost (W : Type 0) : Type 0 where
  -- `secrets.token_hex(30)`
  pub token_hex : M W String
  -- the text of the time an hour later
  pub expires : Datetime → String
  pub multipart_session : String → ObjectReference → ℕ → String → Result MultipartSession
  -- `MultipartPart(n, identity, verification)` and `MultipartCompletion(parts, identity)`
  pub multipart_part : ℕ → ContentIdentity → String → Result MultipartPart
  pub multipart_completion : List MultipartPart → ContentIdentity → Result (Unit {0})
  pub str_of : ℕ → String
  -- `hmac.new(key, text.encode(), hashlib.sha256).hexdigest()`
  pub hmac_hex : Bytes → String → String

-- `_MultipartState`
pub record MultipartState : Type 0 where
  pub operation : Operation
  pub upload : UploadLocation
  pub machine : PutState
  pub hashed : Bytes
  pub length : ℕ
  pub next_part : ℕ
  pub parts : List MultipartPart

-- `self._sessions`
abbrev pub Sessions : Type 0
Sessions = List (String × MultipartState)

-- `get`, an assignment, and `pop(session_id, None)` of the dict
abbrev pub find : String → Sessions → Option MultipartState
find k [] = none
find k ((j, s) ∷ ss) = if j =ˢ k then some s else find k ss

unfoldable pub put_session : String → MultipartState → Sessions → Sessions
put_session k s [] = (k, s) ∷ []
put_session k s ((j, t) ∷ ss) =
    let rest = put_session k s ss in if j =ˢ k then (k, s) ∷ ss else (j, t) ∷ rest

unfoldable pub pop_session : String → Sessions → Sessions
pop_session k [] = []
pop_session k ((j, t) ∷ ss) = let rest = pop_session k ss in if j =ˢ k then rest else (j, t) ∷ rest

abbrev same_digest : Option String → Option String → Bool
same_digest none none = true
same_digest (some d) (some e) = d =ˢ e
same_digest _ _ = false

abbrev pub same_reference : ObjectReference → ObjectReference → Bool
same_reference a b =
    same_resource a.resource_ref b.resource_ref
    && a.object_id =ˢ b.object_id
    && same_digest a.digest b.digest

-- Equality of parts, field by field.
abbrev pub same_part : MultipartPart → MultipartPart → Bool
same_part a b =
    a.part_number == b.part_number
    && a.identity.digest =ˢ b.identity.digest
    && a.identity.byte_length == b.identity.byte_length
    && a.verification =ˢ b.verification

unfoldable pub same_parts : List MultipartPart → List MultipartPart → Bool
same_parts [] [] = true
same_parts (a ∷ as_) (b ∷ bs) = same_part a b && same_parts as_ bs
same_parts _ _ = false

-- `min_part_bytes` of the limits
abbrev pub min_part_bytes : ℕ
min_part_bytes = 64 * 1024

-- `any(part.identity.byte_length < self.limits.min_part_bytes for part in supplied[:-1])`
unfoldable pub has_small_part : List MultipartPart → Bool
has_small_part [] = false
has_small_part (p ∷ []) = false
has_small_part (p ∷ q ∷ ps) = ltb p.identity.byte_length min_part_bytes || has_small_part (q ∷ ps)

-- The variables of one `upload_part`: the session's, and the part's hash and length.
pub record PartLoop : Type 0 where
  pub state : MultipartState
  pub hashed : Bytes
  pub length : ℕ

abbrev pub is_put : Option Method → Bool
is_put (some Method.put) = true
is_put _ = false

abbrev pub is_uploading : PutState → Bool
is_uploading uploading = true
is_uploading _ = false

abbrev pub is_verifying : PutState → Bool
is_verifying verifying = true
is_verifying _ = false
