-- ===== src/Tests/Sessions.antt =====
-- A multipart session, from its begin to its completion.
use meridian_ociadapter.Prelude.{◌≡◌, refl, false, [], String, codes, none, ◌=ˢ◌}
use meridian_ociadapter.Effect.{ok, pure, ◌>>=◌}
use meridian_ociadapter.Effect.Locals.{on_world, locals, assign}
use meridian_ociadapter.Naming.{tag, latest_tag, object_id_hash}
use meridian_ociadapter.Json.{field, obj, str, end}
use meridian_ociadapter.Hashing.{sha256_digest}
use meridian_ociadapter.ObjectCommon.{ObjectMetadata}
use meridian_ociadapter.Adapter.{
  Operation, validate_operation, object_reference_for_operation, now, immutability_of,
  require_create_available, available_operation_contracts,
}
use meridian_ociadapter.Adapter.Upload.{verify_identity}
use meridian_ociadapter.Multipart.{
  MultipartHost, MultipartSession, MultipartPart, Sessions, find, put_session, begin_multipart,
  state_of, upload_part, take_part_chunk, transfer_part, part_body, verification_token,
  abort_multipart,
}
use meridian_ociadapter.Multipart.WellFormed.{AreSessions}
use meridian_ociadapter.Multipart.Parts.{MakesParts}
use meridian_ociadapter.Multipart.Runs.{fresh, next, begun, sent, Reach, Reach-AreSessions}
use meridian_ociadapter.Multipart.Outcomes.{Settles, upload_part-Settles, abort_multipart-sole}
use meridian_ociadapter.Tests.Data.{
  demo_adapter, demo_transport-IsVerifying, demo_payload, payload_digest, demo_metadata,
  demo_operation,
}

abbrev demo_host : MultipartHost (Unit {0})
demo_host = record {
  token_hex = pure "1";
  expires = λ time. "later";
  multipart_session = λ id r n time.
      ok (record { session_id = id; object_ref = r; part_size = n; expires_at = time });
  multipart_part = λ n i v. ok (record { part_number = n; identity = i; verification = v });
  multipart_completion = λ parts i. ok tt;
  str_of = λ n. "n";
  hmac_hex = λ key text. "f";
}

demo_host-MakesParts : MakesParts demo_adapter demo_host
demo_host-MakesParts = record { makes = λ key id n bytes i p q r s. refl }

abbrev put_operation : Operation
put_operation = record demo_operation { operation_contract = "meridian.object.put" }

abbrev demo_session : MultipartSession
demo_session = record {
  session_id = "u1";
  object_ref = object_reference_for_operation demo_adapter put_operation;
  part_size = 65536;
  expires_at = "later";
}

abbrev after_begin : Unit {0} × Sessions
after_begin = (begin_multipart demo_adapter demo_host put_operation (tt, [])).1

abbrev after_part : Unit {0} × Sessions
after_part = (upload_part demo_adapter demo_host demo_session demo_payload 1 after_begin).1

reaches_part : Reach demo_adapter demo_host after_part
reaches_part = next (next (fresh tt) (begun put_operation _)) (sent demo_session demo_payload 1 _)

Reach-AreSessions_example : AreSessions demo_adapter after_part.1
Reach-AreSessions_example =
    Reach-AreSessions demo_adapter demo_host demo_transport-IsVerifying demo_host-MakesParts
      reaches_part

after_part-AreSessions : AreSessions demo_adapter after_part.1
after_part-AreSessions =
    Reach-AreSessions demo_adapter demo_host demo_transport-IsVerifying demo_host-MakesParts
      reaches_part

abbrev demo_part : MultipartPart
demo_part = record {
  part_number = 1;
  identity = record { digest = payload_digest; byte_length = 2 };
  verification = "p_f";
}

begins : (begin_multipart demo_adapter demo_host put_operation (tt, [])).0 ≡ ok demo_session
unfolding begin_multipart validate_operation available_operation_contracts immutability_of
    require_create_available object_reference_for_operation now latest_tag tag object_id_hash codes
    on_world locals assign ◌>>=◌
begins = refl

sends :
    (upload_part demo_adapter demo_host demo_session demo_payload 1 after_begin).0 ≡ ok demo_part
unfolding upload_part state_of take_part_chunk transfer_part part_body verification_token
    verify_identity put_session begin_multipart validate_operation available_operation_contracts
    immutability_of require_create_available object_reference_for_operation now latest_tag tag
    object_id_hash codes on_world locals assign sha256_digest ◌>>=◌
sends = refl

upload_part-Settles_example :
    Settles demo_adapter demo_host demo_session demo_transport-IsVerifying demo_host-MakesParts
      demo_payload 2 after_part.1
      (upload_part demo_adapter demo_host demo_session demo_payload 2 after_part)
upload_part-Settles_example =
    upload_part-Settles demo_adapter demo_host demo_session demo_transport-IsVerifying
      demo_host-MakesParts demo_payload 2 tt after_part.1 after_part-AreSessions

abort_multipart-sole_example :
    (find "u1" (abort_multipart demo_adapter demo_host demo_session (tt, after_part.1)).1.1 ≡ none)
    × ((id : String)
        → ("u1" =ˢ id) ≡ false
        → find id (abort_multipart demo_adapter demo_host demo_session (tt, after_part.1)).1.1
          ≡ find id after_part.1)
abort_multipart-sole_example =
    abort_multipart-sole demo_adapter demo_host demo_session tt after_part.1

abbrev demo_result : ObjectMetadata
demo_result = record demo_metadata {
  provenance =
      field "meridianAdapter"
        (obj (
          field "adapterId" (str "oci-distribution") (
            field "capabilityFingerprint" (str "f") (
              field "engineProfile" (str "oci-distribution") (
                field "engineVersion" (str "1.1.1") (
                  field "distributionSpec" (str "1.1.1")
                    (field "registryReleaseObservation" (str "unavailable") end)))))))
        end;
}
