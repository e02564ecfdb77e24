-- ===== src/Moriarty/Shapes.antt =====
-- The tests that the validators of tools/run_moriarty.py make on the members of a record.
use qsol_fed.Base.{
  ℕ, Bool, true, false, ◌&&◌, ◌||◌, ◌==◌, List, [], ◌∷◌, leb, ltb, length, all, none, some,
  if◌then◌else◌,
}
use qsol_fed.Base.Result.{Result, ok, err, type_error}
use qsol_fed.Base.Int.{pos, negsuc}
use qsol_fed.Base.Text.{Text, codes, contains}
use qsol_fed.Json.{
  Value, Items, Fields, null, bool, int, arr, dict, nil, cons, end, field, lookup, count_items,
  count_fields,
}
use qsol_fed.Platform.{is_hex_char}
use qsol_fed.Sdk.Patterns.{is_alnum, is_text_that, matches_template}
use qsol_fed.Sdk.Fields.{hash_eq, hashable, all_items, no_duplicates}

-- `d.get(key)`, and `d[key]` for a key that is known to be there
unfoldable pub value_at : Text → Fields → Value
unfolding lookup
value_at k fs = elim (lookup k fs) [ none ↦ null | some v ↦ v ]

-- `left == right`; lists compare item by item, and dictionaries by their keys
unfoldable mutual
  unfolding hash_eq lookup

  pub value_eq : Value → Value → Bool
  value_eq (arr xs) w = elim w [ arr ys ↦ items_eq xs ys | _ ↦ false ]
  value_eq (dict fs) w = elim w [
    | dict gs ↦ count_fields fs == count_fields gs && fields_within fs gs
    | _ ↦ false
  ]
  value_eq v w = hash_eq v w

  pub items_eq : Items → Items → Bool
  items_eq nil nil = true
  items_eq (cons x xs) (cons y ys) = value_eq x y && items_eq xs ys
  items_eq _ _ = false

  fields_within : Fields → Fields → Bool
  fields_within end gs = true
  fields_within (field k v fs) gs =
      elim (lookup k gs) [ none ↦ false | some w ↦ value_eq v w ] && fields_within fs gs

-- `value in names`, for a set of texts: a list or a dictionary has no hash
unfoldable pub member_of : List Text → Value → Result Bool
unfolding hashable contains
member_of names v = if hashable v then ok (is_text_that (contains names) v) else err type_error

-- `isinstance(v, list) and low <= len(v) <= high and all(isinstance(x, str) and test(x) for x in v)
-- and len(set(v)) == len(v)`
unfoldable pub is_distinct_list : ℕ → ℕ → (Text → Bool) → Value → Bool
unfolding all_items no_duplicates
is_distinct_list low high test (arr xs) =
    leb low (count_items xs)
    && leb (count_items xs) high
    && all_items (is_text_that test) xs
    && no_duplicates xs
is_distinct_list low high test _ = false

-- `TARGET_RE`, `^[0-9a-f]{40}$`
unfoldable pub matches_target : Text → Bool
unfolding all
matches_target s = all is_hex_char s && length s == 40

-- `MOR-[0-9]{3}`
unfoldable pub matches_attack_id : Text → Bool
unfolding matches_template
matches_attack_id s = matches_template (codes "MOR-000") s

abbrev is_boundary_char : ℕ → Bool
is_boundary_char c = is_alnum c || c == b'_' || c == b'.' || c == b'/' || c == b'-'

-- `[a-z0-9_./-]{1,128}`
unfoldable pub matches_boundary_id : Text → Bool
unfolding all
matches_boundary_id s = all is_boundary_char s && leb 1 (length s) && leb (length s) 128

-- `isinstance(v, int) and not isinstance(v, bool) and 0 <= v <= bound`
unfoldable pub is_size : ℕ → Value → Bool
is_size bound (int (pos n)) = leb n bound
is_size bound _ = false

-- an exit code that reports a failure: a nonzero integer of 32 bits
unfoldable pub is_failure_code : Value → Bool
is_failure_code (int (pos n)) = leb 1 n && leb n 0x7FFFFFFF
is_failure_code (int (negsuc n)) = ltb n 0x80000000
is_failure_code _ = false

-- `type(v) is bool`
unfoldable pub is_bool : Value → Bool
is_bool (bool b) = true
is_bool _ = false

abbrev pub expected_families : List Text
expected_families =
    codes "canonical_parser_differentials"
    ∷ codes "signature_domain_key_role_confusion"
    ∷ codes "replay_downgrade_clock"
    ∷ codes "http_rate_proxy_ddos_shape"
    ∷ codes "ssrf_decompression"
    ∷ codes "crash_fsync_restart"
    ∷ codes "lifecycle_partition_history"
    ∷ codes "import_provenance_authority_laundering"
    ∷ codes "adapter_confusion"
    ∷ codes "holodeck_escape"
    ∷ codes "safeguard_persuasion"
    ∷ codes "nested_world_amplification"
    ∷ codes "assembly_capture_representation"
    ∷ codes "transport_nat_relay_store_forward_archive"
    ∷ codes "cross_phase_contradictions"
    ∷ []

abbrev pub allowed_owner_phases : List Text
allowed_owner_phases =
    codes "0"
    ∷ codes "1"
    ∷ codes "2"
    ∷ codes "3"
    ∷ codes "4"
    ∷ codes "5A"
    ∷ codes "5"
    ∷ codes "5C"
    ∷ codes "6"
    ∷ codes "7"
    ∷ codes "8"
    ∷ codes "cross-phase"
    ∷ []

-- the keys of `PYTHON_VALIDATORS`, and `rust_all`
abbrev pub probes : List Text
probes =
    codes "constitution"
    ∷ codes "phase0"
    ∷ codes "phase1"
    ∷ codes "phase2"
    ∷ codes "phase3"
    ∷ codes "phase4"
    ∷ codes "phase5a"
    ∷ codes "phase5"
    ∷ codes "phase5c"
    ∷ codes "phase6"
    ∷ codes "phase7"
    ∷ codes "phase8"
    ∷ codes "rust_all"
    ∷ []

abbrev pub max_owner_phases : ℕ
max_owner_phases = 12

abbrev pub max_boundary_ids : ℕ
max_boundary_ids = 32

abbrev pub max_attack_probe_ids : ℕ
max_attack_probe_ids = 16

unfoldable pub valid_owner_phases : Value → Bool
unfolding is_distinct_list contains
valid_owner_phases v = is_distinct_list 1 max_owner_phases (contains allowed_owner_phases) v

unfoldable pub valid_boundary_ids : Value → Bool
unfolding is_distinct_list matches_boundary_id
valid_boundary_ids v = is_distinct_list 1 max_boundary_ids matches_boundary_id v
