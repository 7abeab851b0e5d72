-- ===== src/Json.antt =====
-- JSON values as `json.loads` returns them, and `canonical_json` and `parse_json_object` of
-- _json.py. The codec of the json module is a parameter.
use Prim.Native.Nat.{Ordering}
use Prim.Native.String
use meridian_ociadapter.Prelude.{
  ℕ, ◌≡◌, Bool, true, false, String, Option, none, some, ◌==◌, ◌*◌, ◌=ˢ◌, if◌then◌else◌,
}
use meridian_ociadapter.Effect.{
  Result, ok, err, value_error, bind_result, translate, is_decode_error,
}
use meridian_ociadapter.Hashing.{Bytes}

-- A float is a dyadic fraction with a sign, or no number at all.
pub data Float : Type 0 where
  finite : Bool → ℕ → ℕ → Float
  not_finite : Float

-- `neg n` is -(n + 1).
mutual
  pub data Json : Type 0 where
    null : Json
    bool : Bool → Json
    num : ℕ → Json
    neg : ℕ → Json
    float : Float → Json
    str : String → Json
    arr : Items → Json
    obj : Fields → Json

  pub data Items : Type 0 where
    nil : Items
    cons : Json → Items → Items

  pub data Fields : Type 0 where
    end : Fields
    field : String → Json → Fields → Fields

-- `d.get(k)`, on the fields of a dict
abbrev pub get : String → Fields → Option Json
get k end = none
get k (field j v fs) = if j =ˢ k then some v else get k fs

-- `v == 2`, where a float may equal an integer
abbrev pub is_two : Option Json → Bool
is_two (some (num n)) = n == 2
is_two (some (float (finite false n d))) = n == 2 * d
is_two _ = false

-- `v == s` for a text `s`
abbrev pub is_str : String → Option Json → Bool
is_str s (some (str t)) = t =ˢ s
is_str s _ = false

-- `isinstance(v, Mapping)`
abbrev pub as_obj : Option Json → Option Fields
as_obj (some (obj fs)) = some fs
as_obj _ = none

-- `{**a, **b}`, where no key is in both
abbrev pub append_fields : Fields → Fields → Fields
append_fields end gs = gs
append_fields (field k v fs) gs = field k v (append_fields fs gs)

-- `**({k: v} if v is not None else {})`
abbrev pub optional_field : String → Option String → Fields
optional_field k none = end
optional_field k (some v) = field k (str v) end

abbrev text_le : String → String → Bool
text_le s t = elim (String.compare s t) [ Ordering.gt ↦ false | _ ↦ true ]

abbrev insert_field : String → Json → Fields → Fields
insert_field k v end = field k v end
insert_field k v (field j w fs) =
    if text_le k j then field k v (field j w fs) else field j w (insert_field k v fs)

-- `sort_keys=True`, at every depth
unfoldable mutual
  pub sort_keys : Json → Json
  sort_keys (arr xs) = arr (sort_items xs)
  sort_keys (obj fs) = obj (sort_fields fs)
  sort_keys null = null
  sort_keys (bool b) = bool b
  sort_keys (num n) = num n
  sort_keys (neg n) = neg n
  sort_keys (float x) = float x
  sort_keys (str s) = str s

  sort_items : Items → Items
  sort_items nil = nil
  sort_items (cons x xs) = cons (sort_keys x) (sort_items xs)

  sort_fields : Fields → Fields
  sort_fields end = end
  sort_fields (field k v fs) = insert_field k (sort_keys v) (sort_fields fs)

pub record Codec : Type 0 where
  -- `json.dumps(v, ensure_ascii=False, separators=(",", ":")).encode("utf-8")`
  pub dumps : Json → Bytes
  -- `json.loads(b)`, which raises decoding errors, of JSON or of UTF-8, and others, as a ValueError
  -- for an integer with too many digits and a RecursionError for values nested too deeply
  pub loads : Bytes → Result Json

module _ (J : Codec) where
  unfoldable pub canonical_json : Json → Bytes
  canonical_json v = J.dumps (sort_keys v)

  object_of : Json → Result Fields
  object_of (obj fs) = ok fs
  object_of _ = err value_error

  unfoldable pub parse_json_object : Bytes → Result Fields
  unfolding object_of
  parse_json_object b = bind_result (translate is_decode_error value_error (J.loads b)) object_of

-- The json module reads back the text that `canonical_json` writes for `v`.
abbrev pub ReadsBack : Codec → Json → Type 0
ReadsBack J v = J.loads (J.dumps (sort_keys v)) ≡ ok (sort_keys v)
