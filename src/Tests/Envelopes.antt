-- ===== src/Tests/Envelopes.antt =====
-- The stored envelope on concrete data.
use meridian_ociadapter.Prelude.{◌≡◌, ◌≤◌, refl, false, [], ◌∷◌, some, length, arith}
use meridian_ociadapter.Effect.{ok}
use meridian_ociadapter.Json.{Codec, end, sort_keys, canonical_json}
use meridian_ociadapter.Transport.Stored.{StoredObject, stored_value, to_bytes, from_bytes}
use meridian_ociadapter.Transport.Stored.Laws.{from_bytes-to_bytes}
use meridian_ociadapter.Tests.Data.{demo_common, demo_metadata, demo_retention}

abbrev demo_stored : StoredObject
demo_stored = record {
  metadata = demo_metadata;
  immutability = record { mutability = "immutable"; publish_once = false };
  retention = some demo_retention;
}

-- A codec for this one envelope.
abbrev envelope_json : Codec
envelope_json = record {
  dumps = λ v. 9 ∷ [];
  loads = λ b. ok (sort_keys (stored_value demo_common demo_stored));
}

fits : length (to_bytes demo_common envelope_json demo_stored) ≤ 10
unfolding to_bytes canonical_json
fits = omega arith

from_bytes-to_bytes_example :
    from_bytes demo_common envelope_json (to_bytes demo_common envelope_json demo_stored) 10
    ≡ ok demo_stored
unfolding sort_keys
from_bytes-to_bytes_example =
    from_bytes-to_bytes demo_common envelope_json demo_stored 10 fits refl (end, refl, refl)
      (end, refl, refl) (end, refl, refl)
