-- ===== src/Capabilities/Laws.antt =====
-- On descriptor/capabilities.py and the admission of operations: what is available is declared.
use meridian_ociadapter.Prelude.{
  ◌≡◌, refl, Bool, true, false, List, [], ◌∷◌, String, Option, none, some, ◌=ˢ◌, Bool-cases, inl,
  inr, contains_text, if◌then◌else◌, arith,
}
use meridian_ociadapter.Effect.{ok}
use meridian_ociadapter.Hashing.{Hashing}
use meridian_ociadapter.Binding.{OciDistributionBinding, ResourceRef}
use meridian_ociadapter.Adapter.{
  Operation, Method, validate_operation, available_operation_contracts,
}
use meridian_ociadapter.Adapter.Handlers.Admission.{IsAdmitted, validate_operation-IsAdmitted}
use meridian_ociadapter.Capabilities.{
  OperationCapability, oci_distribution_descriptor, configured_capability_manifest,
}

-- The first capability of a contract.
abbrev pub capability_of : String → List OperationCapability → Option OperationCapability
capability_of contract [] = none
capability_of contract (c ∷ cs) =
    if contract =ˢ c.operation_contract then some c else capability_of contract cs

abbrev contracts : List OperationCapability → List String
contracts [] = []
contracts (c ∷ cs) = c.operation_contract ∷ contracts cs

abbrev AreVersioned : String → List OperationCapability → Type 0
AreVersioned v [] = Unit
AreVersioned v (c ∷ cs) = (c.versions ≡ v ∷ []) × AreVersioned v cs

-- A capability is declared for the contract, in the one version of the catalog's operations.
pub record IsDeclared (version : String) (binding : OciDistributionBinding) (contract : String)
    : Type 0 where
  pub capability : OperationCapability
  pub found :
      capability_of contract (oci_distribution_descriptor version binding).capabilities
      ≡ some capability
  pub versions : capability.versions ≡ version ∷ []

listed :
    (version contract : String) (cs : List OperationCapability)
    → AreVersioned version cs
    → contains_text contract (contracts cs) ≡ true
    → (c : OperationCapability) × (capability_of contract cs ≡ some c) × (c.versions ≡ version ∷ [])
listed version contract [] v h = cc
listed version contract (c ∷ cs) (p, v) h = elim (Bool-cases (contract =ˢ c.operation_contract)) [
  | inl e ↦ (c, rw e refl, p)
  | inr e ↦
      let h' : contains_text contract (contracts cs) ≡ true = rw e at h in
      let (d, q, r) = listed version contract cs v h' in (d, rw e q, r)
]

with_delete :
    (contract : String) (enabled : Bool)
    → contains_text contract (
        "meridian.object.put"
        ∷ "meridian.object.get"
        ∷ "meridian.object.stat"
        ∷ "meridian.object.read_range"
        ∷ "meridian.object.list"
        ∷ (if enabled then "meridian.object.delete" ∷ [] else []))
      ≡ true
    → contains_text contract (
        "meridian.object.put" ∷ "meridian.object.get" ∷ "meridian.object.stat"
        ∷ "meridian.object.read_range" ∷ "meridian.object.list" ∷ "meridian.object.delete" ∷ [])
      ≡ true
with_delete contract true h = h
with_delete contract false h = ground arith

available-contracts :
    (version : String) (binding : OciDistributionBinding) (contract : String)
    → contains_text contract (available_operation_contracts binding) ≡ true
    → contains_text contract (contracts (oci_distribution_descriptor version binding).capabilities)
      ≡ true
unfolding available_operation_contracts oci_distribution_descriptor
available-contracts version binding contract h = with_delete contract binding.deletion_enabled h

-- Every operation that the adapter admits is declared: the descriptor has a capability for its
-- contract, in the one version of the catalog's operations, and the manifest lists the contract.
pub validate_operation-IsDeclared :
    (version : String) (H : Hashing) (canonical : ResourceRef → String)
    (binding : OciDistributionBinding) (operation : Operation) (m : Option Method)
    → validate_operation binding operation ≡ ok m
    → IsDeclared version binding operation.operation_contract
      × (contains_text operation.operation_contract
            (configured_capability_manifest version binding H canonical).available
          ≡ true)
unfolding configured_capability_manifest oci_distribution_descriptor
validate_operation-IsDeclared version H canonical binding operation m h =
    let a = IsAdmitted.available (validate_operation-IsAdmitted binding operation m h) in
    let (c, f, v) =
      listed version operation.operation_contract
        (oci_distribution_descriptor version binding).capabilities
        (refl, (refl, (refl, (refl, (refl, (refl, tt))))))
        (available-contracts version binding operation.operation_contract a) in
    (record { capability = c; found = f; versions = v }, a)
