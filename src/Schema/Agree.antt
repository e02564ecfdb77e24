-- ===== src/Schema/Agree.antt =====
-- The two dialects: the evaluators return, do not depend on the fuel, and differ on the first one's errors only.
use qsol_fed.Base.{
  ℕ, suc, ◌≤◌, ◌≡◌, ◌≢◌, refl, sym, ◌∙◌, Bool, true, false, not, Option, none, some, inl, inr,
  arith, if◌then◌else◌, Bool-cases,
}
use qsol_fed.Base.Result.{
  Error, Result, ok, err, ◌>>=◌, ◌>>◌, raise_if, gate_error, type_error, re_error, out_of_fuel,
}
use qsol_fed.Base.Runs.{Runs, Runs-ok, Runs-err, Runs-if, Runs-bind}
use qsol_fed.Base.Text.{Text, codes, text_eq, text_eq_iff}
use qsol_fed.Json.{Value, Items}
use qsol_fed.Sdk.Fields.{has_duplicates, all_items, hashable, no_duplicates}
use qsol_fed.Schema.Values.{is_text, schema_type_matches, schema_type_matches_number}
use qsol_fed.Schema.Evaluate.{
  Dialect, empirical_dialect, phase10_dialect, validate_fuel, validate_schema_instance, depth,
}
use qsol_fed.Schema.Relate.{Upto, Upto-same, Upto-err, DialectUpto, validate_fuel-Upto}
use qsol_fed.Schema.Fuel.{gate-ne, Runs-gate}
use qsol_fed.Schema.Total.{DialectRuns, validate_fuel-Runs}

schema_type_matches-Runs : (v : Value) (name : Text) → Runs (schema_type_matches v name)
unfolding schema_type_matches
schema_type_matches-Runs v name = Runs-if (text_eq name (codes "object")) _ _ (Runs-ok _) (
    Runs-if (text_eq name (codes "array")) _ _ (Runs-ok _) (
      Runs-if (text_eq name (codes "string")) _ _ (Runs-ok _) (
        Runs-if (text_eq name (codes "integer")) _ _ (Runs-ok _) (
          Runs-if (text_eq name (codes "boolean")) _ _ (Runs-ok _)
            (Runs-if (text_eq name (codes "null")) _ _ (Runs-ok _) (Runs-err _ gate-ne))))))

schema_type_matches_number-Runs :
    (v : Value) (name : Text) → Runs (schema_type_matches_number v name)
unfolding schema_type_matches_number
schema_type_matches_number-Runs v name =
    Runs-if (text_eq name (codes "number")) _ _ (Runs-ok _) (schema_type_matches-Runs v name)

has_duplicates-Runs : (xs : Items) → Runs (has_duplicates xs)
unfolding has_duplicates
has_duplicates-Runs xs = Runs-if (all_items hashable xs) _ _ (Runs-ok _) (Runs-err _ λ q. cc)

searched-Runs :
    (o : Option Bool) (e : Error) → e ≢ out_of_fuel → Runs (elim o [ none ↦ err e | some b ↦ ok b ])
searched-Runs none e h = Runs-err e h
searched-Runs (some b) e h = Runs-ok b

-- a number is what the first evaluator does not know
number-unknown :
    (v : Value) (name : Text)
    → text_eq name (codes "number") ≡ true
    → schema_type_matches v name ≡ err gate_error
unfolding schema_type_matches text_eq
number-unknown v name e = let same = (text_eq_iff name (codes "number")).0 e in rw same refl

module _ (search : Text → Text → Option Bool) where
  pub empirical_dialect-Runs : DialectRuns (empirical_dialect search)
  unfolding empirical_dialect
  empirical_dialect-Runs = record {
    type_matches = schema_type_matches-Runs;
    check_required = λ xs.
        Runs-bind _ _ (has_duplicates-Runs xs)
          λ duplicates _. Runs-bind _ _ (Runs-gate _) λ _ _. Runs-gate _;
    search = λ p s. searched-Runs (search p s) re_error (λ q. cc);
  }

  pub phase10_dialect-Runs : DialectRuns (phase10_dialect search)
  unfolding phase10_dialect
  phase10_dialect-Runs = record {
    type_matches = schema_type_matches_number-Runs;
    check_required = λ xs.
        Runs-bind _ _ (Runs-gate _)
          λ _ _. Runs-bind _ _ (has_duplicates-Runs xs) λ duplicates _. Runs-gate _;
    search = λ p s. searched-Runs (search p s) gate_error gate-ne;
  }

  abbrev AnyError : Error → Type 0
  AnyError e = Unit

  required-Upto :
      (hashes distinct texts : Bool)
      → Upto AnyError
          ((if hashes then ok (not distinct) else err type_error) >>= λ duplicates.
            (raise_if duplicates gate_error >> raise_if (not texts) gate_error))
          (raise_if (not texts) gate_error
            >> ((if hashes then ok (not distinct) else err type_error) >>= λ duplicates.
                raise_if duplicates gate_error))
  unfolding ◌>>=◌ raise_if
  required-Upto false distinct texts = Upto-err _ _ _ tt
  required-Upto true false texts = Upto-err _ _ _ tt
  required-Upto true true false = Upto-err _ _ _ tt
  required-Upto true true true = Upto-same _ _

  search-Upto :
      (o : Option Bool)
      → Upto AnyError
          (elim o [ none ↦ err re_error | some b ↦ ok b ])
          (elim o [ none ↦ err gate_error | some b ↦ ok b ])
  search-Upto none = Upto-err _ _ _ tt
  search-Upto (some b) = Upto-same _ _

  type_matches-Upto :
      (v : Value) (name : Text)
      → Upto AnyError (schema_type_matches v name) (schema_type_matches_number v name)
  unfolding schema_type_matches_number
  type_matches-Upto v name = elim (Bool-cases (text_eq name (codes "number"))) [
    | inl e ↦ rw (number-unknown v name e) (Upto-err _ _ _ tt)
    | inr e ↦ rw e (Upto-same _ _)
  ]

  dialects-Upto : DialectUpto AnyError (empirical_dialect search) (phase10_dialect search)
  unfolding empirical_dialect phase10_dialect has_duplicates
  dialects-Upto = record {
    type_matches = type_matches-Upto;
    check_required =
        λ xs. required-Upto (all_items hashable xs) (no_duplicates xs) (all_items is_text xs);
    search = λ p s. search-Upto (search p s);
  }

  ok-of : {r s : Result (Unit {0})} → Upto AnyError r s → r ≡ ok tt → s ≡ ok tt
  ok-of h q = elim (h.at) [ inl (e, failed, x) ↦ cc | inr same ↦ sym same ∙ q ]

  -- What the evaluator of the empirical-assurance gate accepts, the phase-10 gate's evaluator accepts.
  pub validate_schema_instance-phase10 :
      (v schema : Value)
      → validate_schema_instance (empirical_dialect search) v schema ≡ ok tt
      → validate_schema_instance (phase10_dialect search) v schema ≡ ok tt
  unfolding validate_schema_instance
  validate_schema_instance-phase10 v schema = ok-of (
      validate_fuel-Upto AnyError (empirical_dialect search) (phase10_dialect search) dialects-Upto
        tt (suc (depth schema)) (suc (depth schema)) v schema (omega arith))

  -- Both evaluators always return: no schema, value or engine for patterns makes either run out of the
  -- fuel, which is the depth of the schema.
  pub validate_schema_instance-ne-out_of_fuel :
      (v schema : Value)
      → (validate_schema_instance (empirical_dialect search) v schema ≢ err out_of_fuel)
        × (validate_schema_instance (phase10_dialect search) v schema ≢ err out_of_fuel)
  unfolding validate_schema_instance
  validate_schema_instance-ne-out_of_fuel v schema = (
    (validate_fuel-Runs (empirical_dialect search) empirical_dialect-Runs (depth schema) v schema
        (omega arith)).total,
    (validate_fuel-Runs (phase10_dialect search) phase10_dialect-Runs (depth schema) v schema
        (omega arith)).total,
  )

-- more fuel than the depth changes nothing
pub validate_fuel-enough :
    (d : Dialect)
    → DialectRuns d
    → (g : ℕ) (v schema : Value) → suc (depth schema) ≤ g
    → validate_fuel d g v schema ≡ validate_schema_instance d v schema
unfolding validate_schema_instance
validate_fuel-enough d dr g v schema l =
    elim ((validate_fuel-Upto (λ e. e ≡ out_of_fuel) d d
      (record {
        type_matches = λ w s. Upto-same _ _;
        check_required = λ xs. Upto-same _ _;
        search = λ p s. Upto-same _ _;
      })
      refl (suc (depth schema)) g v schema (omega arith)).at) [
        | inl (e, failed, excused) ↦ absurd (
            (validate_fuel-Runs d dr (depth schema) v schema (omega arith)).total
              (rw (← excused) failed))
        | inr same ↦ sym same
      ]
