-- ===== src/Transport/Stored/Laws.antt =====
-- On the stored envelope of transport/models.py, written and read.
use meridian_ociadapter.Prelude.{ℕ, ◌≤◌, ◌≡◌, refl, Option, none, some, length, le→not-ltb}
use meridian_ociadapter.Effect.{Result, ok}
use meridian_ociadapter.Json.{
  Json, obj, Fields, Codec, ReadsBack, sort_keys, canonical_json, parse_json_object,
}
use meridian_ociadapter.ObjectCommon.{ObjectCommon, RetentionRequest}
use meridian_ociadapter.Transport.Stored.{StoredObject, stored_value, to_bytes, from_bytes}

-- A serialized value is a mapping, and what parses it with its keys sorted gives the value.
abbrev pub Reads : {A : Type 0} → Json → (Fields → Result A) → A → Type 0
Reads j parser a = (fs : Fields) × (sort_keys j ≡ obj fs) × (parser fs ≡ ok a)

abbrev pub ReadsRetention : ObjectCommon → Option RetentionRequest → Type 0
ReadsRetention O none = Unit
ReadsRetention O (some r) = Reads (O.retention_to_dict r) O.retention_from_mapping r

module _ (O : ObjectCommon) (J : Codec) where
  -- The same for an envelope whose parts' sorted serializations are known.
  read_back :
      (s : StoredObject) (maximum : ℕ) (m i : Fields)
      → length (to_bytes O J s) ≤ maximum
      → ReadsBack J (stored_value O s)
      → sort_keys (O.metadata_to_dict s.metadata) ≡ obj m
      → O.parse_object_metadata m ≡ ok s.metadata
      → sort_keys (O.immutability_to_dict s.immutability) ≡ obj i
      → O.immutability_from_mapping i ≡ ok s.immutability
      → (r : Option RetentionRequest) → s.retention ≡ r
      → ReadsRetention O r
      → from_bytes O J (to_bytes O J s) maximum ≡ ok s
  unfolding from_bytes to_bytes canonical_json parse_json_object sort_keys
  read_back s maximum m i l back hm pm hi pi none e h =
      rw
        (
          le→not-ltb (length (J.dumps (sort_keys (stored_value O s)))) maximum l,
          back,
          e,
          hm,
          hi,
          pm,
          pi,
        )
        refl
  read_back s maximum m i l back hm pm hi pi (some r) e (fs, hr, pr) =
      rw
        (
          le→not-ltb (length (J.dumps (sort_keys (stored_value O s)))) maximum l,
          back,
          e,
          hm,
          hi,
          hr,
          pm,
          pi,
          pr,
        )
        refl

  -- An envelope within the bound is read back from its bytes, where the JSON codec reads back its
  -- document, and object_common reads back its metadata, its immutability and its retention.
  pub from_bytes-to_bytes :
      (s : StoredObject) (maximum : ℕ)
      → length (to_bytes O J s) ≤ maximum
      → ReadsBack J (stored_value O s)
      → Reads (O.metadata_to_dict s.metadata) O.parse_object_metadata s.metadata
      → Reads (O.immutability_to_dict s.immutability) O.immutability_from_mapping s.immutability
      → ReadsRetention O s.retention
      → from_bytes O J (to_bytes O J s) maximum ≡ ok s
  from_bytes-to_bytes s maximum l back (m, hm, pm) (i, hi, pi) r =
      read_back s maximum m i l back hm pm hi pi s.retention refl r
