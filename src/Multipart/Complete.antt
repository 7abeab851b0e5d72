-- ===== src/Multipart/Complete.antt =====
-- On `complete_multipart` of multipart/__init__.py: what a completion that returns has checked and
-- committed, and that its session is over.
use meridian_ociadapter.Prelude.{◌≤◌, ◌≡◌, false, List, some, length}
use meridian_ociadapter.Hashing.{Bytes, sha256_digest}
use meridian_ociadapter.ObjectCommon.{ObjectMetadata}
use meridian_ociadapter.Adapter.{OciDistributionAdapter}
use meridian_ociadapter.Adapter.Upload.{length_differs, digest_differs}
use meridian_ociadapter.Adapter.Commit.Laws.{IsCommitted}
use meridian_ociadapter.Multipart.{
  MultipartHost, MultipartPart, MultipartSession, MultipartState, Sessions, find,
}
use meridian_ociadapter.Multipart.WellFormed.{join, AreParts}
use meridian_ociadapter.Multipart.Checks.{AreLarge}

module _ {W : Type 0} (self : OciDistributionAdapter W) (host : MultipartHost W) where
  -- A completion: the parts are those that the manager kept for the session, in order, each but the last of the least size or
  -- more, and what was committed is the object of their bytes together, within the limit and as the
  -- put declares it.
  pub record IsComplete (session : MultipartSession) (sessions : Sessions)
      (supplied : List MultipartPart) (m : ObjectMetadata) : Type 0 where
    pub state : MultipartState
    pub begun : find session.session_id sessions ≡ some state
    pub kept_parts : supplied ≡ state.parts
    pub segments : List Bytes
    pub parts : AreParts self 1 segments supplied
    pub large : AreLarge supplied
    pub limit : length (join segments) ≤ self.binding.max_object_bytes
    pub declared_digest :
        digest_differs
          (sha256_digest self.hashing (join segments))
          state.operation.input.expected_digest
        ≡ false
    pub declared_length :
        length_differs (length (join segments)) state.operation.input.expected_length ≡ false
    pub committed :
        IsCommitted self state.operation.input.object_id
          (sha256_digest self.hashing (join segments))
          m
