-- ===== src/Moriarty/Corpus.antt =====
-- `validate_attack_corpus`: the fifteen attacks, one for each family.
use qsol_fed.Base.{Bool, ◌&&◌, not, ◌==◌, List, [], ◌∷◌, all}
use qsol_fed.Base.Result.{
  Result, ok, err, ◌>>=◌, ◌>>◌, raise_if, moriarty_attack_corpus_field_set_invalid,
  moriarty_attack_corpus_boundary_invalid, moriarty_attack_count_invalid,
  moriarty_attack_record_invalid, moriarty_attack_field_set_invalid, moriarty_attack_invalid,
  moriarty_attack_family_set_drift,
}
use qsol_fed.Base.Text.{Text, codes, contains}
use qsol_fed.Json.{Value, Items, Fields, str, nil, cons, count_items}
use qsol_fed.Sdk.Patterns.{is_text_that}
use qsol_fed.Sdk.Fields.{has_exactly, is_literal, is_false, as_dict, as_list, require}
use qsol_fed.Moriarty.Shapes.{
  value_at, is_distinct_list, matches_attack_id, expected_families, probes, max_attack_probe_ids,
  valid_owner_phases, valid_boundary_ids,
}

abbrev pub corpus_fields : List Text
corpus_fields =
    codes "schema"
    ∷ codes "protocol"
    ∷ codes "attacks"
    ∷ codes "production_credentials_allowed"
    ∷ codes "production_targets_allowed"
    ∷ codes "constitutional_bypass_allowed"
    ∷ codes "authority_effect"
    ∷ []

abbrev pub attack_fields : List Text
attack_fields =
    codes "id"
    ∷ codes "family"
    ∷ codes "owner_phases"
    ∷ codes "boundary_ids"
    ∷ codes "probe_ids"
    ∷ []

-- the tests of an attack that do not look at the attacks before it
unfoldable pub attack_valid : Fields → Bool
unfolding value_at matches_attack_id is_distinct_list contains valid_owner_phases valid_boundary_ids
attack_valid attack =
    is_text_that matches_attack_id (value_at (codes "id") attack)
    && is_text_that (contains expected_families) (value_at (codes "family") attack)
    && valid_owner_phases (value_at (codes "owner_phases") attack)
    && valid_boundary_ids (value_at (codes "boundary_ids") attack)
    && is_distinct_list 1 max_attack_probe_ids (contains probes)
        (value_at (codes "probe_ids") attack)

-- what the loop has seen: the identifiers and the families
abbrev pub Seen : Type 0
Seen = List Text × List Text

unfoldable pub text_of : Value → Text
text_of (str s) = s
text_of _ = []

unfoldable pub validate_attack : Value → Seen → Result Seen
unfolding as_dict has_exactly attack_valid value_at text_of contains
validate_attack v (ids, families) = do
  attack ← require (as_dict v) (err moriarty_attack_record_invalid)
  raise_if (not (has_exactly attack_fields attack)) moriarty_attack_field_set_invalid
  let attack_id = text_of (value_at (codes "id") attack)
  let family = text_of (value_at (codes "family") attack)
  raise_if
      (not (attack_valid attack && not (contains ids attack_id) && not (contains families family)))
      moriarty_attack_invalid
  ok (attack_id ∷ ids, family ∷ families)

unfoldable pub validate_attacks : Items → Seen → Result Seen
unfolding validate_attack
validate_attacks nil seen = ok seen
validate_attacks (cons attack attacks) seen = do
  seen ← validate_attack attack seen
  validate_attacks attacks seen

-- `families != EXPECTED_FAMILIES`, as sets
abbrev pub same_set : List Text → List Text → Bool
same_set xs ys = all (contains ys) xs && all (contains xs) ys

unfoldable pub corpus_boundary_valid : Fields → Bool
unfolding value_at is_literal is_false
corpus_boundary_valid corpus =
    is_literal (codes "moriarty-attack-corpus/1") (value_at (codes "schema") corpus)
    && is_literal (codes "MORIARTY/1") (value_at (codes "protocol") corpus)
    && is_false (value_at (codes "production_credentials_allowed") corpus)
    && is_false (value_at (codes "production_targets_allowed") corpus)
    && is_false (value_at (codes "constitutional_bypass_allowed") corpus)
    && is_literal (codes "none") (value_at (codes "authority_effect") corpus)

unfoldable pub validate_attack_corpus : Fields → Result Items
unfolding has_exactly corpus_boundary_valid value_at as_list validate_attacks all contains
validate_attack_corpus corpus = do
  raise_if (not (has_exactly corpus_fields corpus)) moriarty_attack_corpus_field_set_invalid
  raise_if (not (corpus_boundary_valid corpus)) moriarty_attack_corpus_boundary_invalid
  attacks ←
      require (as_list (value_at (codes "attacks") corpus)) (err moriarty_attack_count_invalid)
  raise_if (not (count_items attacks == 15)) moriarty_attack_count_invalid
  (ids, families) ← validate_attacks attacks ([], [])
  raise_if (not (same_set families expected_families)) moriarty_attack_family_set_drift
  ok attacks
