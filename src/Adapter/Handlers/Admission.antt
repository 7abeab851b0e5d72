-- ===== src/Adapter/Handlers/Admission.antt =====
-- On the operations that `execute` of adapter.py answers.
use mathlib.Core.Path.{subst}
use meridian_ociadapter.Prelude.{
  Bool-cases, inl, inr, ◌≡◌, refl, Bool, true, false, not, ◌&&◌, List, [], ◌∷◌, String, Option,
  ◌=ˢ◌, eq_iff, contains_text, arith, if◌then◌else◌,
}
use meridian_ociadapter.Effect.{ok}
use meridian_ociadapter.Effect.Rules.{Ensures, Ensures-lifted}
use meridian_ociadapter.Binding.{OciDistributionBinding}
use meridian_ociadapter.Adapter.{
  Operation, OciDistributionAdapter, Method, is_single, validate_operation,
  available_operation_contracts,
}
use meridian_ociadapter.Adapter.Handlers.{Answer, execute}

-- An operation of the Object Catalog and of the version supported, on the binding's resource alone, by a
-- contract that the binding makes available; a delete only where the binding enables deletion.
pub record IsAdmitted (binding : OciDistributionBinding) (operation : Operation) : Type 0 where
  pub catalog : operation.catalog ≡ "object"
  pub version : operation.operation_version ≡ "1.0.0"
  pub resource : is_single binding.resource_ref operation.resources ≡ true
  pub available :
      contains_text operation.operation_contract (available_operation_contracts binding) ≡ true
  pub deletion :
      (operation.operation_contract =ˢ "meridian.object.delete") && not binding.deletion_enabled
      ≡ false

abbrev data_contracts : List String
data_contracts =
    "meridian.object.put" ∷ "meridian.object.get" ∷ "meridian.object.stat"
    ∷ "meridian.object.read_range" ∷ "meridian.object.list" ∷ []

delete_listed :
    (contract : String) (enabled : Bool)
    → contains_text contract (
        "meridian.object.put"
        ∷ "meridian.object.get"
        ∷ "meridian.object.stat"
        ∷ "meridian.object.read_range"
        ∷ "meridian.object.list"
        ∷ (if enabled then "meridian.object.delete" ∷ [] else []))
      ≡ true
    → (contract =ˢ "meridian.object.delete") && not enabled ≡ false
delete_listed contract true h = ground arith
delete_listed contract false h = elim (Bool-cases (contract =ˢ "meridian.object.delete")) [
  | inl e ↦
      let same =
        subst (λ c. contains_text c data_contracts ≡ true)
          ((eq_iff contract "meridian.object.delete").0 e) h in
      cc
  | inr e ↦ rw e refl
]

delete_unavailable :
    (binding : OciDistributionBinding) (contract : String)
    → contains_text contract (available_operation_contracts binding) ≡ true
    → (contract =ˢ "meridian.object.delete") && not binding.deletion_enabled ≡ false
unfolding available_operation_contracts
delete_unavailable binding contract h = delete_listed contract binding.deletion_enabled h

pub validate_operation-IsAdmitted :
    (binding : OciDistributionBinding) (operation : Operation) (m : Option Method)
    → validate_operation binding operation ≡ ok m
    → IsAdmitted binding operation
unfolding validate_operation
validate_operation-IsAdmitted binding operation m h = record {
  catalog = ground (arith, eq_iff operation.catalog "object");
  version = ground (arith, eq_iff operation.operation_version "1.0.0");
  resource = ground arith;
  available = available;
  deletion = delete_unavailable binding operation.operation_contract available;
}
  where
    available :
        contains_text operation.operation_contract (available_operation_contracts binding) ≡ true
    available = ground arith

-- Every operation that `execute` answers is one of the Object Catalog in the version supported, on the
-- binding's resource alone, by a contract that the binding makes available; and it is no delete unless
-- the binding enables deletion.
pub execute-IsAdmitted :
    {W : Type 0} (self : OciDistributionAdapter W) (operation : Operation) (w : W) (a : Answer)
    → (execute self operation w).0 ≡ ok a
    → IsAdmitted self.binding operation
unfolding execute
execute-IsAdmitted self operation w a e =
    Ensures.at
      (Ensures-lifted _ _
        λ m v. record { at = λ _ _ _. validate_operation-IsAdmitted self.binding operation m v })
      w a e
