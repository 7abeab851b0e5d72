-- ===== src/Migration/Laws.antt =====
-- On migration.py: what an export holds, and what an import puts.
use meridian_ociadapter.Prelude.{
  ◌≡◌, refl, Bool, false, not, String, none, some, ◌=ˢ◌, Bool-cases, inl, inr,
}
use meridian_ociadapter.Effect.{ok}
use meridian_ociadapter.Effect.Rules.{Ensures, Ensures-lifted}
use meridian_ociadapter.Json.{Json, Fields, end, field, get}
use meridian_ociadapter.Binding.{same_resource}
use meridian_ociadapter.ObjectCommon.{ObjectReference}
use meridian_ociadapter.Adapter.{OciDistributionAdapter, Operation}
use meridian_ociadapter.Adapter.Resolve.{ResolvedObject}
use meridian_ociadapter.Adapter.Resolve.Laws.{IsResolved}
use meridian_ociadapter.Adapter.Handlers.{Answer, execute}
use meridian_ociadapter.Adapter.Handlers.Admission.{IsAdmitted, execute-IsAdmitted}
use meridian_ociadapter.Migration.{
  LogicalObjectExport, ObjectCatalog, pop_field, put_expression, import_logical,
}

pub get-pop_field : (k : String) (fs : Fields) → get k (pop_field k fs) ≡ none
unfolding pop_field
get-pop_field k end = refl
get-pop_field k (field j v fs) = elim (Bool-cases (j =ˢ k)) [
  | inl e ↦ rw e (get-pop_field k fs)
  | inr e ↦ rw (e, e) (get-pop_field k fs)
]

module _ {W : Type 0} (adapter : OciDistributionAdapter W) (catalog : ObjectCatalog) where
  -- An export of the object that the reference addresses: verified, in the binding's resource, with its
  -- metadata, intents and a payload that was registered over the whole of its blob.
  pub record IsExport (reference : Json) (x : LogicalObjectExport) : Type 0 where
    pub asked : ObjectReference
    pub decoded : catalog.parse_object_reference reference ≡ ok asked
    pub resource : not (same_resource asked.resource_ref adapter.binding.resource_ref) ≡ false
    pub object : ResolvedObject
    pub resolved : IsResolved adapter asked object
    pub metadata : x.metadata ≡ object.stored.metadata
    pub immutability : x.immutability ≡ object.stored.immutability
    pub retention : x.retention ≡ object.stored.retention
    pub registered :
        (w : W) × ((adapter.payloads.register
            (record { blob_digest = object.payload.digest; blob_range = none })
            (some object.payload.size)
            (some object.payload.digest)
            w).0
          ≡ ok x.payload)

  -- An import that is answered: the catalog made an operation of the exported object, without the
  -- provenance of the adapter that it comes from, and the adapter admits and answers it.
  pub record IsImport (x : LogicalObjectExport) (create_only : Bool) (a : Answer) : Type 0 where
    pub operation : Operation
    pub made : catalog.put (put_expression adapter catalog x create_only) ≡ ok operation
    pub stripped :
        get "meridianAdapter" (put_expression adapter catalog x create_only).provenance ≡ none
    pub admitted : IsAdmitted adapter.binding operation
    pub executed : (w : W) × ((execute adapter operation w).0 ≡ ok a)

  import_logical-Ensures :
      (x : LogicalObjectExport) (create_only : Bool)
      → Ensures (import_logical adapter catalog x create_only) (IsImport x create_only)
  unfolding import_logical
  import_logical-Ensures x create_only = Ensures-lifted _ _ λ operation made. record {
    at = λ w a e. record {
      operation = operation;
      made = made;
      stripped = get-pop_field "meridianAdapter" x.metadata.provenance;
      admitted = execute-IsAdmitted adapter operation w a e;
      executed = (w, e);
    };
  }

  -- Whenever an import is answered, the catalog has made an operation of the exported metadata, payload
  -- and intents for the binding's resource, with the exported digest and length as what is expected and
  -- without the key of the exporting adapter in its provenance; the binding admits this operation, and
  -- the answer is the adapter's.
  pub import_logical-IsImport :
      (x : LogicalObjectExport) (create_only : Bool) (w : W) (a : Answer)
      → (import_logical adapter catalog x create_only w).0 ≡ ok a
      → IsImport x create_only a
  import_logical-IsImport x create_only w a e = (import_logical-Ensures x create_only).at w a e
