-- ===== src/Examples/Schema.antt =====
-- A schema of the gates, and values it takes and refuses.
use qsol_fed.Base.{◌≡◌, ◌≢◌, refl, Bool, true, false, Option, some}
use qsol_fed.Base.Result.{ok, err, ◌>>=◌, raise_if, out_of_fuel, gate_error}
use Prim.Native.String.{String}
use qsol_fed.Base.Int.{pos}
use qsol_fed.Base.Text.{Text, codes, text_eq}
use qsol_fed.Json.{Value, Items, Fields, bool, int, str, arr, dict, nil, cons, end, field, lookup}
use qsol_fed.Sdk.Fields.{all_items}
use qsol_fed.Schema.Evaluate.{empirical_dialect, phase10_dialect, validate_schema_instance}
use qsol_fed.Schema.Agree.{
  empirical_dialect-Runs, validate_schema_instance-phase10, validate_schema_instance-ne-out_of_fuel,
}
use qsol_fed.Schema.Closed.{closed_object, requires}

-- a pattern finds itself only
abbrev toy_search : Text → Text → Option Bool
toy_search p s = some (text_eq p s)

abbrev typed : String → Value
typed name = dict (field (codes "type") (str (codes name)) end)

abbrev record_properties : Fields
record_properties = field (codes "name") (typed "string") (
    field (codes "scores")
      (dict (field (codes "items") (typed "integer") (field (codes "minItems") (int (pos 1)) end)))
      end)

abbrev record_required : Items
record_required = cons (str (codes "name")) nil

abbrev record_schema : Fields
record_schema = field (codes "type") (str (codes "object")) (
    field (codes "additionalProperties") (bool false) (
      field (codes "required") (arr record_required)
        (field (codes "properties") (dict record_properties) end)))

abbrev good_record : Fields
good_record =
    field (codes "scores") (arr (cons (int (pos 4)) nil))
      (field (codes "name") (str (codes "probe")) end)

good_record-accepted :
    validate_schema_instance (empirical_dialect toy_search) (dict good_record) (dict record_schema)
    ≡ ok tt
unfolding validate_schema_instance empirical_dialect ◌>>=◌ raise_if
good_record-accepted = refl

-- an undeclared key
bad_record-refused :
    validate_schema_instance
      (empirical_dialect toy_search)
      (dict (field (codes "extra") (int (pos 1)) good_record))
      (dict record_schema)
    ≡ err gate_error
unfolding validate_schema_instance empirical_dialect ◌>>=◌ raise_if
bad_record-refused = refl

validate_schema_instance-phase10_example :
    validate_schema_instance (phase10_dialect toy_search) (dict good_record) (dict record_schema)
    ≡ ok tt
validate_schema_instance-phase10_example =
    validate_schema_instance-phase10 toy_search (dict good_record) (dict record_schema)
      good_record-accepted

validate_schema_instance-ne-out_of_fuel_example :
    (validate_schema_instance (empirical_dialect toy_search) (dict good_record) (dict record_schema)
      ≢ err out_of_fuel)
    × (validate_schema_instance (phase10_dialect toy_search) (dict good_record) (dict record_schema)
        ≢ err out_of_fuel)
validate_schema_instance-ne-out_of_fuel_example =
    validate_schema_instance-ne-out_of_fuel toy_search (dict good_record) (dict record_schema)

closed_object_example :
    (all_items (requires good_record) record_required ≡ true)
    × ((k : Text) (v : Value)
        → lookup k good_record ≡ some v
        → (child : Value) × (lookup k record_properties ≡ some child)
          × (validate_schema_instance (empirical_dialect toy_search) v child ≡ ok tt))
unfolding lookup
closed_object_example =
    closed_object (empirical_dialect toy_search) (empirical_dialect-Runs toy_search) good_record
      record_schema record_properties record_required refl refl refl good_record-accepted
