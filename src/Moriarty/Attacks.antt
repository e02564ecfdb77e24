-- ===== src/Moriarty/Attacks.antt =====
-- What an accepted attack corpus is.
use qsol_fed.Base.{
  ◌≡◌, refl, Bool, true, false, ◌&&◌, ◌||◌, not, &&-eq-true, ◌==◌, List, [], ◌∷◌, all, arith,
}
use qsol_fed.Base.Result.{
  ok, ◌>>=◌, guard-eq-ok, >>=-eq-ok, moriarty_attack_field_set_invalid, moriarty_attack_invalid,
  moriarty_attack_count_invalid,
}
use qsol_fed.Base.Text.{Text, codes, contains}
use qsol_fed.Json.{
  Value, Items, Fields, null, bool, int, str, arr, dict, pairs, other, nil, cons, count_items,
}
use qsol_fed.Sdk.Fields.{has_exactly, all_items, as_dict}
use qsol_fed.Moriarty.Shapes.{value_at, expected_families}
use qsol_fed.Moriarty.Corpus.{
  corpus_fields, attack_fields, attack_valid, Seen, text_of, validate_attack, validate_attacks,
  same_set, corpus_boundary_valid, validate_attack_corpus,
}
use qsol_fed.Moriarty.Distinct.{distinct, Tracked, Tracked-nil, Tracked-cons}
use qsol_fed.Sdk.Found.{as_list-found}

-- the texts under one key, in their order
unfoldable pub texts_at : Text → Items → List Text
unfolding value_at text_of
texts_at key nil = []
texts_at key (cons v items) =
    text_of (elim v [ dict fields ↦ value_at key fields | _ ↦ null ]) ∷ texts_at key items

abbrev pub is_attack : Value → Bool
is_attack (dict attack) = has_exactly attack_fields attack && attack_valid attack
is_attack _ = false

-- a corpus that is accepted
pub record AcceptedCorpus (corpus : Fields) (attacks : Items) : Type 0 where
  pub listed : value_at (codes "attacks") corpus ≡ arr attacks
  pub fifteen : count_items attacks ≡ 15
  pub each_valid : all_items is_attack attacks ≡ true
  pub ids_distinct : distinct (texts_at (codes "id") attacks) ≡ true
  pub families_distinct : distinct (texts_at (codes "family") attacks) ≡ true
  pub families_covered : all (contains (texts_at (codes "family") attacks)) expected_families ≡ true

record Entered (v : Value) (ids families : List Text) (after : Seen) : Type 0 where
  valid : is_attack v ≡ true
  new_id : contains ids (text_of (elim v [ dict a ↦ value_at (codes "id") a | _ ↦ null ])) ≡ false
  new_family :
      contains families (text_of (elim v [ dict a ↦ value_at (codes "family") a | _ ↦ null ]))
      ≡ false
  id_added : after.0 ≡ text_of (elim v [ dict a ↦ value_at (codes "id") a | _ ↦ null ]) ∷ ids
  family_added :
      after.1 ≡ text_of (elim v [ dict a ↦ value_at (codes "family") a | _ ↦ null ]) ∷ families

validate_attack-Entered :
    (v : Value) (ids families : List Text) (after : Seen)
    → validate_attack v (ids, families) ≡ ok after
    → Entered v ids families after
unfolding validate_attack as_dict ◌>>=◌
validate_attack-Entered (dict attack) ids families after h =
    let (exact, h1) =
      guard-eq-ok (not (has_exactly attack_fields attack)) moriarty_attack_field_set_invalid _ h in
    let (fresh, h2) =
      guard-eq-ok
        (not (
          attack_valid attack
          && not (contains ids (text_of (value_at (codes "id") attack)))
          && not (contains families (text_of (value_at (codes "family") attack)))))
        moriarty_attack_invalid _ h1 in
    record {
      valid = ground (arith, exact, fresh);
      new_id = ground (arith, fresh);
      new_family = ground (arith, fresh);
      id_added = cc;
      family_added = cc;
    }
validate_attack-Entered null ids families after h = cc
validate_attack-Entered (bool b) ids families after h = cc
validate_attack-Entered (int n) ids families after h = cc
validate_attack-Entered (str s) ids families after h = cc
validate_attack-Entered (arr xs) ids families after h = cc
validate_attack-Entered (pairs fs) ids families after h = cc
validate_attack-Entered other ids families after h = cc

record Scanned (attacks : Items) (before after : Seen) : Type 0 where
  valid : all_items is_attack attacks ≡ true
  ids : Tracked (texts_at (codes "id") attacks) before.0 after.0
  families : Tracked (texts_at (codes "family") attacks) before.1 after.1

validate_attacks-Scanned :
    (attacks : Items) (before after : Seen)
    → validate_attacks attacks before ≡ ok after
    → Scanned attacks before after
unfolding validate_attacks all_items texts_at
validate_attacks-Scanned nil before after h =
    let same : before ≡ after = cc in
    rw (← same) record { valid = refl; ids = Tracked-nil before.0; families = Tracked-nil before.1 }
validate_attacks-Scanned (cons v attacks) (ids, families) after h =
    let (mid, one, rest) =
      >>=-eq-ok (validate_attack v (ids, families)) (validate_attacks attacks) h in
    let e = validate_attack-Entered v ids families mid one in
    let later = validate_attacks-Scanned attacks mid after rest in
    record {
      valid = rw (e.valid, later.valid) refl;
      ids = Tracked-cons _ _ ids after.0 e.new_id (rw e.id_added at later.ids);
      families =
          Tracked-cons _ _ families after.1 e.new_family (rw e.family_added at later.families);
    }

-- only a family that was seen in the loop is in the last set
seen-covered :
    (names after : List Text)
    → ((t : Text) → contains after t ≡ (contains names t || contains [] t))
    → (known : List Text) → all (contains after) known ≡ true
    → all (contains names) known ≡ true
unfolding all contains
seen-covered names after seen [] h = refl
seen-covered names after seen (t ∷ known) h =
    let first = seen t in
    let later =
      seen-covered names after seen known
        (&&-eq-true (contains after t) (all (contains after) known) h).1 in
    let here = (&&-eq-true (contains after t) (all (contains after) known) h).0 in
    rw later (ground (arith, first, here))

-- What the validator of the attack corpus returns is the list of attacks of the corpus: fifteen records
-- with the exact fields, each valid, no two with the same identifier or family, and one for every family.
pub validate_attack_corpus-AcceptedCorpus :
    (corpus : Fields) (attacks : Items)
    → validate_attack_corpus corpus ≡ ok attacks
    → AcceptedCorpus corpus attacks
unfolding validate_attack_corpus ◌>>=◌
validate_attack_corpus-AcceptedCorpus corpus attacks h =
    let (fields, h1) = guard-eq-ok (not (has_exactly corpus_fields corpus)) _ _ h in
    let (boundary, h2) = guard-eq-ok (not (corpus_boundary_valid corpus)) _ _ h1 in
    let (xs, listed, h3) =
      as_list-found (value_at (codes "attacks") corpus) moriarty_attack_count_invalid _ h2 in
    let (fifteen, h4) = guard-eq-ok (not (count_items xs == 15)) _ _ h3 in
    let (after, scanned, h5) = >>=-eq-ok (validate_attacks xs ([], [])) _ h4 in
    let (covered, h6) = guard-eq-ok (not (same_set after.1 expected_families)) _ _ h5 in
    let same : xs ≡ attacks = cc in
    let s = validate_attacks-Scanned xs ([], []) after scanned in
    rw (← same) record {
      listed = listed;
      fifteen = ground (arith, fifteen);
      each_valid = s.valid;
      ids_distinct = s.ids.all_distinct;
      families_distinct = s.families.all_distinct;
      families_covered =
          seen-covered _ after.1 s.families.seen expected_families (ground (arith, covered));
    }
