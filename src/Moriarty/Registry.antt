-- ===== src/Moriarty/Registry.antt =====
-- `validate_registry`: the accepted counterexamples against the corpus and the history.
use qsol_fed.Base.{
  ℕ, ◌+◌, Bool, true, false, ◌&&◌, not, ◌==◌, List, [], ◌∷◌, leb, Option, none, some, if◌then◌else◌,
}
use qsol_fed.Base.Result.{
  Result, ok, err, ◌>>=◌, ◌>>◌, raise_if, moriarty_counterexample_not_object,
  moriarty_counterexample_registry_field_set_invalid,
  moriarty_counterexample_registry_boundary_invalid, moriarty_counterexample_registry_count_invalid,
  moriarty_counterexample_registry_duplicate, moriarty_counterexample_attack_not_in_corpus,
  moriarty_counterexample_family_mismatch, moriarty_counterexample_owner_phase_mismatch,
  moriarty_counterexample_boundary_set_mismatch, moriarty_counterexample_probe_not_bound_to_attack,
  moriarty_counterexample_target_commit_missing,
  moriarty_counterexample_target_not_in_reviewed_history,
  moriarty_resolution_commit_must_follow_finding_target, moriarty_resolution_commit_missing,
  moriarty_resolution_not_descendant_of_finding_target, moriarty_resolution_not_in_reviewed_history,
  moriarty_counterexample_registry_unresolved_type_invalid,
  moriarty_counterexample_registry_unresolved_count_drift,
}
use qsol_fed.Base.Int.{pos}
use qsol_fed.Base.Text.{Text, codes, text_eq, contains}
use qsol_fed.Platform.{Platform}
use qsol_fed.Json.{Value, Items, Fields, int, arr, dict, nil, cons, count_items}
use qsol_fed.Sdk.Fields.{
  has_exactly, is_literal, hash_eq, all_items, any_item, as_dict, as_list, require,
}
use qsol_fed.Moriarty.Shapes.{value_at, value_eq, matches_target}
use qsol_fed.Moriarty.Corpus.{text_of}
use qsol_fed.Moriarty.Counterexample.{validate_counterexample_shape}

-- The history. `is_commit c`: `git cat-file -t c` succeeds and answers `commit`; `precedes a d`:
-- `git merge-base --is-ancestor a d` exits with 0.
pub record Git : Type 0 where
  pub is_commit : Text → Bool
  pub precedes : Text → Text → Bool

abbrev pub max_accepted_counterexamples : ℕ
max_accepted_counterexamples = 32

abbrev pub registry_fields : List Text
registry_fields =
    codes "schema"
    ∷ codes "protocol"
    ∷ codes "counterexamples"
    ∷ codes "unresolved_counterexamples"
    ∷ codes "authority_effect"
    ∷ []

-- `{attack["id"]: attack for attack in attacks}.get(id)`: a later attack replaces an earlier one. The
-- attacks are those of a validated corpus, where every identifier is there and is a text
unfoldable pub find_attack : Text → Items → Option Fields
unfolding value_at text_of text_eq
find_attack id nil = none
find_attack id (cons (dict attack) attacks) =
    let later = find_attack id attacks in
    elim later [
      | some found ↦ some found
      | none ↦ if text_eq id (text_of (value_at (codes "id") attack)) then some attack else none
    ]
find_attack id (cons _ attacks) = find_attack id attacks

-- `set(v).issubset(set(w))`
unfoldable pub subset_of : Value → Value → Bool
unfolding all_items any_item hash_eq
subset_of (arr xs) (arr ys) = all_items (λ x. any_item (hash_eq x) ys) xs
subset_of _ _ = false

module _ (git : Git) where
  unfoldable pub git_commit_exists : Text → Bool
  unfolding matches_target
  git_commit_exists commit = matches_target commit && git.is_commit commit

  unfoldable pub git_is_ancestor : Text → Text → Bool
  unfolding git_commit_exists
  git_is_ancestor ancestor descendant =
      git_commit_exists ancestor && git_commit_exists descendant && git.precedes ancestor descendant

  -- the counterexample against the facts of its attack
  unfoldable pub match_facts : Fields → Fields → Result (Unit {0})
  unfolding value_at value_eq subset_of
  match_facts item attack = do
    raise_if (not (value_eq (value_at (codes "family") item) (value_at (codes "family") attack)))
        moriarty_counterexample_family_mismatch
    raise_if
        (not (
          value_eq (value_at (codes "owner_phases") item) (value_at (codes "owner_phases") attack)))
        moriarty_counterexample_owner_phase_mismatch
    raise_if
        (not (
          value_eq (value_at (codes "boundary_ids") item) (value_at (codes "boundary_ids") attack)))
        moriarty_counterexample_boundary_set_mismatch
    raise_if
        (not (
          subset_of (value_at (codes "regression_probe_ids") item)
            (value_at (codes "probe_ids") attack)))
        moriarty_counterexample_probe_not_bound_to_attack

  unfoldable pub match_attack : Items → Fields → Result (Unit {0})
  unfolding find_attack value_at text_of match_facts
  match_attack attacks item = do
    attack ←
        require (find_attack (text_of (value_at (codes "attack_id") item)) attacks)
          (err moriarty_counterexample_attack_not_in_corpus)
    match_facts item attack

  -- a resolution lies between the finding and the reviewed commit
  unfoldable pub match_resolution : Text → Text → Text → Result (Unit {0})
  unfolding git_commit_exists git_is_ancestor text_eq
  match_resolution finding_target resolution reviewed_target = do
    raise_if (text_eq resolution finding_target)
        moriarty_resolution_commit_must_follow_finding_target
    raise_if (not (git_commit_exists resolution)) moriarty_resolution_commit_missing
    raise_if (not (git_is_ancestor finding_target resolution))
        moriarty_resolution_not_descendant_of_finding_target
    raise_if (not (git_is_ancestor resolution reviewed_target))
        moriarty_resolution_not_in_reviewed_history

  module _ (p : Platform) (attacks : Items) (reviewed_target : Text) where
    -- one round of the loop: the identifiers seen so far, and the number of unresolved counterexamples
    unfoldable pub validate_entry : Value → List Text × ℕ → Result (List Text × ℕ)
    unfolding validate_counterexample_shape as_dict value_at text_of contains match_attack
        git_commit_exists git_is_ancestor is_literal match_resolution
    validate_entry v (seen_ids, unresolved) = do
      validate_counterexample_shape p v
      item ← require (as_dict v) (err moriarty_counterexample_not_object)
      let counterexample_id = text_of (value_at (codes "counterexample_id") item)
      let finding_target = text_of (value_at (codes "target_commit") item)
      raise_if (contains seen_ids counterexample_id) moriarty_counterexample_registry_duplicate
      match_attack attacks item
      raise_if (not (git_commit_exists finding_target))
          moriarty_counterexample_target_commit_missing
      raise_if (not (git_is_ancestor finding_target reviewed_target))
          moriarty_counterexample_target_not_in_reviewed_history
      if is_literal (codes "unresolved") (value_at (codes "status") item)
          then ok (counterexample_id ∷ seen_ids, unresolved + 1)
          else (match_resolution finding_target
                (text_of (value_at (codes "resolution_commit") item)) reviewed_target
              >> ok (counterexample_id ∷ seen_ids, unresolved))

    unfoldable pub validate_entries : Items → List Text × ℕ → Result (List Text × ℕ)
    unfolding validate_entry
    validate_entries nil state = ok state
    validate_entries (cons item items) state = do
      state ← validate_entry item state
      validate_entries items state

    unfoldable pub validate_registry : Fields → Result Items
    unfolding has_exactly value_at is_literal as_list validate_entries
    validate_registry registry = do
      raise_if (not (has_exactly registry_fields registry))
          moriarty_counterexample_registry_field_set_invalid
      raise_if
          (not (
            is_literal (codes "moriarty-counterexample-registry/1")
              (value_at (codes "schema") registry)
            && is_literal (codes "MORIARTY/1") (value_at (codes "protocol") registry)
            && is_literal (codes "none") (value_at (codes "authority_effect") registry)))
          moriarty_counterexample_registry_boundary_invalid
      counterexamples ←
          require (as_list (value_at (codes "counterexamples") registry))
            (err moriarty_counterexample_registry_count_invalid)
      raise_if (not (leb (count_items counterexamples) max_accepted_counterexamples))
          moriarty_counterexample_registry_count_invalid
      (ids, unresolved) ← validate_entries counterexamples ([], 0)
      raise_if
          (not (elim (value_at (codes "unresolved_counterexamples") registry) [
            | int n ↦ true
            | _ ↦ false
          ]))
          moriarty_counterexample_registry_unresolved_type_invalid
      raise_if
          (not (elim (value_at (codes "unresolved_counterexamples") registry) [
            | int (pos n) ↦ n == unresolved
            | _ ↦ false
          ]))
          moriarty_counterexample_registry_unresolved_count_drift
      ok counterexamples
