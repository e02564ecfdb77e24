-- ===== src/Moriarty/History.antt =====
-- What an accepted registry of counterexamples is.
use qsol_fed.Base.{
  ℕ, leb, leb→le, ◌+◌, ◌≤◌, ◌≡◌, ◌≢◌, refl, ◌∙◌, Bool, true, false, not, List, [], ◌∷◌, arith, some,
  inl, inr, if◌then◌else◌, Bool-cases,
}
use qsol_fed.Base.Result.{ok, ◌>>◌, guard-eq-ok, raise_if-eq-ok, >>=-eq-ok}
use qsol_fed.Base.Int.{pos}
use qsol_fed.Base.Text.{Text, codes, text_eq, text_eq_iff, contains}
use qsol_fed.Platform.{Platform}
use qsol_fed.Json.{Value, Items, Fields, null, int, arr, dict, nil, cons, count_items}
use qsol_fed.Sdk.Fields.{has_exactly, as_dict}
use qsol_fed.Moriarty.Shapes.{value_at, value_eq}
use qsol_fed.Moriarty.Corpus.{text_of}
use qsol_fed.Moriarty.Counterexample.{validate_counterexample_shape}
use qsol_fed.Moriarty.Registry.{
  Git, registry_fields, max_accepted_counterexamples, find_attack, subset_of, git_commit_exists,
  git_is_ancestor, match_facts, match_attack, match_resolution, validate_entry, validate_entries,
  validate_registry,
}
use qsol_fed.Moriarty.Distinct.{distinct, Tracked, Tracked-nil, Tracked-cons}
use qsol_fed.Moriarty.Attacks.{texts_at}
use qsol_fed.Base.Inverse.{ok-value, third, not-false}
use qsol_fed.Sdk.Found.{require-found, as_dict-found, as_list-found}
use qsol_fed.Moriarty.Unresolved.{is_open, text_at, count_unresolved, counted-value, count-cons}

both : {b : Bool} → b ≡ true → b ≡ false → ⊥
both h k = cc

module _ (git : Git) (p : Platform) (attacks : Items) (reviewed_target : Text) where
  -- the counterexample has the facts of an attack of the corpus
  pub record Bound (item : Fields) : Type 0 where
    pub attack : Fields
    pub found : find_attack (text_at (codes "attack_id") item) attacks ≡ some attack
    pub family : value_eq (value_at (codes "family") item) (value_at (codes "family") attack) ≡ true
    pub owners :
        value_eq (value_at (codes "owner_phases") item) (value_at (codes "owner_phases") attack)
        ≡ true
    pub boundaries :
        value_eq (value_at (codes "boundary_ids") item) (value_at (codes "boundary_ids") attack)
        ≡ true
    pub probe :
        subset_of
          (value_at (codes "regression_probe_ids") item)
          (value_at (codes "probe_ids") attack)
        ≡ true

  -- a resolution comes after its finding, and before the reviewed commit
  pub record Between (target resolution : Text) : Type 0 where
    pub moved : resolution ≢ target
    pub behind : git.precedes target resolution ≡ true
    pub before : git.precedes resolution reviewed_target ≡ true

  pub record AcceptedEntry (v : Value) : Type 0 where
    pub item : Fields
    pub is_item : v ≡ dict item
    pub shaped : validate_counterexample_shape p v ≡ ok tt
    pub bound : Bound item
    pub in_history : git.precedes (text_at (codes "target_commit") item) reviewed_target ≡ true
    pub resolved :
        is_open item ≡ false
        → Between (text_at (codes "target_commit") item) (text_at (codes "resolution_commit") item)

  abbrev pub EachAccepted : Items → Type 0
  EachAccepted nil = Unit
  EachAccepted (cons v items) = AcceptedEntry v × EachAccepted items

  pub record AcceptedRegistry (registry : Fields) (items : Items) : Type 0 where
    pub listed : value_at (codes "counterexamples") registry ≡ arr items
    pub bounded : count_items items ≤ 32
    pub ids_distinct : distinct (texts_at (codes "counterexample_id") items) ≡ true
    pub unresolved :
        value_at (codes "unresolved_counterexamples") registry ≡ int (pos (count_unresolved items))
    pub each : EachAccepted items

  match_attack-Bound :
      (item : Fields) {u : Unit {0}} → match_attack git attacks item ≡ ok u → Bound item
  unfolding match_attack match_facts
  match_attack-Bound item h =
      let (attack, found, h1) =
        require-found (find_attack (text_at (codes "attack_id") item) attacks) _ _ h in
      let (family, h2) =
        guard-eq-ok
          (not (value_eq (value_at (codes "family") item) (value_at (codes "family") attack))) _ _
          h1 in
      let (owners, h3) =
        guard-eq-ok
          (not (
            value_eq (value_at (codes "owner_phases") item)
              (value_at (codes "owner_phases") attack)))
          _ _ h2 in
      let (boundaries, h4) =
        guard-eq-ok
          (not (
            value_eq (value_at (codes "boundary_ids") item)
              (value_at (codes "boundary_ids") attack)))
          _ _ h3 in
      let probe =
        raise_if-eq-ok
          (not (
            subset_of (value_at (codes "regression_probe_ids") item)
              (value_at (codes "probe_ids") attack)))
          _ h4 in
      record {
        attack = attack;
        found = found;
        family = not-false _ family;
        owners = not-false _ owners;
        boundaries = not-false _ boundaries;
        probe = not-false _ probe;
      }

  ancestor-precedes : (a d : Text) → git_is_ancestor git a d ≡ true → git.precedes a d ≡ true
  unfolding git_is_ancestor
  ancestor-precedes a d h =
      third (git_commit_exists git a) (git_commit_exists git d) (git.precedes a d) h

  match_resolution-Between :
      (target resolution : Text) {u : Unit {0}}
      → match_resolution git target resolution reviewed_target ≡ ok u
      → Between target resolution
  unfolding match_resolution
  match_resolution-Between target resolution h =
      let (moved, h1) = guard-eq-ok (text_eq resolution target) _ _ h in
      let (there, h2) = guard-eq-ok (not (git_commit_exists git resolution)) _ _ h1 in
      let (behind, h3) = guard-eq-ok (not (git_is_ancestor git target resolution)) _ _ h2 in
      let before = raise_if-eq-ok (not (git_is_ancestor git resolution reviewed_target)) _ h3 in
      record {
        moved = λ q. (let same = (text_eq_iff resolution target).1 q in cc);
        behind = ancestor-precedes target resolution (not-false _ behind);
        before = ancestor-precedes resolution reviewed_target (not-false _ before);
      }

  record Entered (v : Value) (ids : List Text) (n : ℕ) (after : List Text × ℕ) : Type 0 where
    accepted : AcceptedEntry v
    new_id :
        contains ids
          (text_of (elim v [ dict a ↦ value_at (codes "counterexample_id") a | _ ↦ null ]))
        ≡ false
    id_added :
        after.0
        ≡ text_of (elim v [ dict a ↦ value_at (codes "counterexample_id") a | _ ↦ null ]) ∷ ids
    counted : after.1 ≡ n + count_unresolved (cons v nil)

  -- the end of the round, where the two statuses part
  settled :
      (item : Fields) (ids : List Text) (n : ℕ) (after : List Text × ℕ)
      → validate_counterexample_shape p (dict item) ≡ ok tt
      → contains ids (text_at (codes "counterexample_id") item) ≡ false
      → Bound item
      → git.precedes (text_at (codes "target_commit") item) reviewed_target ≡ true
      → (if is_open item
          then ok (text_at (codes "counterexample_id") item ∷ ids, n + 1)
          else (match_resolution git
                (text_at (codes "target_commit") item)
                (text_at (codes "resolution_commit") item)
                reviewed_target
              >> ok (text_at (codes "counterexample_id") item ∷ ids, n)))
        ≡ ok after
      → Entered (dict item) ids n after
  unfolding count_unresolved
  settled item ids n after shaped fresh bound history h = elim (Bool-cases (is_open item)) [
    | inl o ↦
        (let same : (text_at (codes "counterexample_id") item ∷ ids, n + 1) ≡ after =
            ok-value (rw o at h) in
          rw (← same) record {
            accepted = record {
              item = item;
              is_item = refl;
              shaped = shaped;
              bound = bound;
              in_history = history;
              resolved = λ q. absurd (both o q);
            };
            new_id = fresh;
            id_added = refl;
            counted = rw o (omega arith);
          })
    | inr o ↦
        (let (u, between, h1) =
            >>=-eq-ok
              (match_resolution git (text_at (codes "target_commit") item)
                (text_at (codes "resolution_commit") item) reviewed_target)
              _ (rw o at h) in
          let same : (text_at (codes "counterexample_id") item ∷ ids, n) ≡ after = ok-value h1 in
          rw (← same) record {
            accepted = record {
              item = item;
              is_item = refl;
              shaped = shaped;
              bound = bound;
              in_history = history;
              resolved = λ q. match_resolution-Between _ _ between;
            };
            new_id = fresh;
            id_added = refl;
            counted = rw o (omega arith);
          })
  ]

  validate_entry-Entered :
      (v : Value) (ids : List Text) (n : ℕ) (after : List Text × ℕ)
      → validate_entry git p attacks reviewed_target v (ids, n) ≡ ok after
      → Entered v ids n after
  unfolding validate_entry as_dict
  validate_entry-Entered v ids n after h =
      let (u, shaped, h1) = >>=-eq-ok (validate_counterexample_shape p v) _ h in
      let (item, is_item, h2) = as_dict-found v _ _ h1 in
      let (fresh, h3) =
        guard-eq-ok (contains ids (text_at (codes "counterexample_id") item)) _ _ h2 in
      let (u2, matched, h4) = >>=-eq-ok (match_attack git attacks item) _ h3 in
      let (there, h5) =
        guard-eq-ok (not (git_commit_exists git (text_at (codes "target_commit") item))) _ _ h4 in
      let (reviewed, h6) =
        guard-eq-ok
          (not (git_is_ancestor git (text_at (codes "target_commit") item) reviewed_target)) _ _
          h5 in
      let history =
        ancestor-precedes (text_at (codes "target_commit") item) reviewed_target
          (not-false _ reviewed) in
      rw is_item (
        settled item ids n after (rw is_item at shaped) fresh (match_attack-Bound item matched)
          history h6)

  record Scanned (items : Items) (before after : List Text × ℕ) : Type 0 where
    each : EachAccepted items
    ids : Tracked (texts_at (codes "counterexample_id") items) before.0 after.0
    counted : after.1 ≡ before.1 + count_unresolved items

  validate_entries-Scanned :
      (items : Items) (before after : List Text × ℕ)
      → validate_entries git p attacks reviewed_target items before ≡ ok after
      → Scanned items before after
  unfolding validate_entries texts_at count_unresolved
  validate_entries-Scanned nil before after h =
      let same : before ≡ after = ok-value h in
      rw (← same) record { each = tt; ids = Tracked-nil before.0; counted = omega arith }
  validate_entries-Scanned (cons v items) (ids, n) after h =
      let (mid, one, rest) =
        >>=-eq-ok (validate_entry git p attacks reviewed_target v (ids, n))
          (validate_entries git p attacks reviewed_target items) h in
      let e = validate_entry-Entered v ids n mid one in
      let later = validate_entries-Scanned items mid after rest in
      let first = e.counted in
      let second = later.counted in
      let whole = count-cons v items in
      record {
        each = (e.accepted, later.each);
        ids = Tracked-cons _ _ ids after.0 e.new_id (rw e.id_added at later.ids);
        counted = omega arith;
      }

  -- What the validator of the registry returns is its list of counterexamples: at most 32, no two with the
  -- same identifier, as many unresolved ones as the registry says. Each has the right shape and the facts
  -- of its attack in the corpus, its target commit lies in the reviewed history, and if it is resolved then
  -- by another commit, behind the target and before the reviewed one.
  pub validate_registry-AcceptedRegistry :
      (registry : Fields) (items : Items)
      → validate_registry git p attacks reviewed_target registry ≡ ok items
      → AcceptedRegistry registry items
  unfolding validate_registry
  validate_registry-AcceptedRegistry registry items h =
      let (fields, h1) = guard-eq-ok (not (has_exactly registry_fields registry)) _ _ h in
      let (boundary, h2) = guard-eq-ok _ _ _ h1 in
      let (xs, listed, h3) = as_list-found (value_at (codes "counterexamples") registry) _ _ h2 in
      let (bounded, h4) =
        guard-eq-ok (not (leb (count_items xs) max_accepted_counterexamples)) _ _ h3 in
      let (after, scanned, h5) =
        >>=-eq-ok (validate_entries git p attacks reviewed_target xs ([], 0)) _ h4 in
      let (typed, h6) = guard-eq-ok _ _ _ h5 in
      let (counted, h7) = guard-eq-ok _ _ _ h6 in
      let same : xs ≡ items = ok-value h7 in
      let s = validate_entries-Scanned xs ([], 0) after scanned in
      rw (← same) record {
        listed = listed;
        bounded = leb→le _ _ (not-false _ bounded);
        ids_distinct = s.ids.all_distinct;
        unresolved =
            counted-value (value_at (codes "unresolved_counterexamples") registry) after.1
              (count_unresolved xs) counted (s.counted ∙ omega arith);
        each = s.each;
      }
