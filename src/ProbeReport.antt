-- ===== src/ProbeReport.antt =====
-- `OciProbeReport` of probe/__init__.py: what a probe reports, and its form as a document.
use meridian_ociadapter.Prelude.{Bool, String, Option, none, some}
use meridian_ociadapter.Effect.{Error}
use meridian_ociadapter.Json.{Json, null, bool, str, obj, Fields, end, field, get, as_obj}
use meridian_ociadapter.Capabilities.{CapabilityManifest, oci_distribution_version}

-- `OciProbeReport`. A failure is the class of an exception.
pub record OciProbeReport : Type 0 where
  pub passed : Bool
  pub mode : String
  pub api_version : String
  pub push_pull : Bool
  pub range_read : Bool
  pub referrers : Bool
  pub deletion : Bool
  pub capability_manifest : CapabilityManifest
  pub failure : Option Error

-- `to_dict`, with the fingerprint of a manifest and the name of a class as parameters. What the
-- source asserts of `selectedRegistry` is that it is a mapping.
module _ (fingerprint : CapabilityManifest → String) (name_of : Error → String) where
  abbrev optional_text : Option Error → Json
  optional_text none = null
  optional_text (some e) = str (name_of e)

  abbrev selected_of : Option Json → Option Fields
  selected_of none = some end
  selected_of (some v) = as_obj (some v)

  abbrev checks_of : OciProbeReport → Fields
  checks_of self = field "pushPull" (bool self.push_pull) (
      field "rangeRead" (bool self.range_read)
        (field "referrers" (bool self.referrers) (field "deletion" (bool self.deletion) end)))

  abbrev report_fields : OciProbeReport → Fields → Fields
  report_fields self selected = field "formatVersion" (str "meridian.oci-probe.v1") (
      field "passed" (bool self.passed) (
        field "mode" (str self.mode) (
          field "apiVersion" (str self.api_version) (
            field "checks" (obj (checks_of self)) (
              field "capabilityFingerprint" (str (fingerprint self.capability_manifest)) (
                field "failure" (optional_text self.failure) (
                  field "registryProvenance"
                    (obj (
                      field "distributionSpec" (str oci_distribution_version) (
                        field "selected" (obj selected) (
                          field "observedRelease" null
                            (field "observationStatus" (str "unavailable") end)))))
                    end)))))))

  abbrev report_of_selected : OciProbeReport → Option Fields → Option Fields
  report_of_selected self none = none
  report_of_selected self (some selected) = some (report_fields self selected)

  unfoldable pub report_to_dict : OciProbeReport → Option Fields
  report_to_dict self =
      report_of_selected self
        (selected_of (get "selectedRegistry" self.capability_manifest.extensions))
