-- ===== src/Examples/Claims.antt =====
-- A claim document of phase 9 that is accepted.
use Prim.Native.String.{String}
use qsol_fed.Base.{◌≡◌, refl, Bool, true, false, List, [], ◌∷◌}
use qsol_fed.Base.Result.{ok, err, ◌>>=◌, raise_if, gate_error}
use qsol_fed.Base.Int.{pos}
use qsol_fed.Base.Text.{Text, codes}
use qsol_fed.Json.{Fields, bool, int, str, dict, end, field}
use qsol_fed.Phase9.Claims.{
  hard_false_claims, required_assurance, denied_assurance, phase9_claim_rule,
  validate_claim_document,
}
use qsol_fed.Phase9.Closed.{ClosedClaims, validate_claim_document-ClosedClaims}

-- a member with the same Boolean for every name
abbrev flags : Bool → List Text → Fields → Fields
flags b [] rest = rest
flags b (name ∷ names) rest = field name (bool b) (flags b names rest)

abbrev assurance : Fields
assurance = field (codes "moriarty_protocol") (str (codes "MORIARTY/1")) (
    flags true required_assurance
      (flags false denied_assurance (field (codes "authority_effect") (str (codes "none")) end)))

abbrev text_field : String → String → Fields → Fields
text_field key value rest = field (codes key) (str (codes value)) rest

abbrev document_with : Fields → Fields
document_with claimed = text_field "document_type" "qsol-fed-phase9-moriarty-claims" (
    field (codes "schema_version") (int (pos 1)) (
      text_field "protocol" "qsol-fed/0" (
        text_field "wire_protocol" "qsol-fed/1" (
          text_field "phase" "9" (
            text_field "gate_id" "qsol-fed-phase9-moriarty-gate/1" (
              text_field "gate_status" "enforced" (
                text_field "historical_baseline" "claims/phase8.json" (
                  field (codes "runtime_override_allowed") (bool false) (
                    field (codes "claim_surface_changed") (bool false) (
                      field (codes "capabilities") (dict (flags false hard_false_claims end)) (
                        field (codes "assurance") (dict claimed) (
                          field (codes "claim_rule") (str phase9_claim_rule)
                            (field (codes "promotion_requirements") (dict end) end)))))))))))))

abbrev baseline : Fields
baseline =
    field (codes "capabilities") (dict (flags false hard_false_claims end))
      (field (codes "promotion_requirements") (dict end) end)

document-accepted : validate_claim_document baseline (document_with assurance) ≡ ok tt
unfolding validate_claim_document ◌>>=◌ raise_if
document-accepted = refl

-- the undeclared claim of the gate's own regression
malicious-refused :
    validate_claim_document baseline
      (document_with (field (codes "security_proof") (bool true) assurance))
    ≡ err gate_error
unfolding validate_claim_document ◌>>=◌ raise_if
malicious-refused = refl

validate_claim_document-ClosedClaims_example : ClosedClaims baseline (document_with assurance)
validate_claim_document-ClosedClaims_example =
    validate_claim_document-ClosedClaims baseline (document_with assurance) document-accepted
