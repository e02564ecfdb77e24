-- ===== src/Phase9/Covered.antt =====
-- An accepted report covers every probe and every entry of the registry.
use qsol_fed.Base.{◌≡◌, refl, Bool, true, false, ◌||◌, not, &&-eq-true, List, [], ◌∷◌, all, arith}
use qsol_fed.Base.Result.{ok, guard-eq-ok, >>=-eq-ok}
use qsol_fed.Base.Inverse.{ok-value, not-false}
use qsol_fed.Base.Text.{Text, codes, text_eq, text_eq_iff, text_eq_refl, contains}
use qsol_fed.Json.{Value, Items, str, dict, nil, cons}
use qsol_fed.Sdk.Patterns.{is_text_that}
use qsol_fed.Sdk.Fields.{is_literal, hashable, all_items, any_item}
use qsol_fed.Sdk.Found.{as_dict-found, require-found}
use qsol_fed.Moriarty.Shapes.{value_at, probes}
use qsol_fed.Moriarty.Corpus.{text_of}
use qsol_fed.Phase9.Report.{probe_ids, id_texts, is_probe_set}
use qsol_fed.Phase9.Evidence.{find_entry, validate_replay, validate_each_replay, all_replayed}

-- a result of the probe of this name
unfoldable pub is_result_of : Text → Value → Bool
unfolding is_literal value_at
is_result_of name (dict result) = is_literal name (value_at (codes "probe_id") result)
is_result_of name _ = false

-- a replay of the counterexample of this name
unfoldable pub is_replay_of : Text → Value → Bool
unfolding is_literal value_at
is_replay_of name (dict replay) = is_literal name (value_at (codes "counterexample_id") replay)
is_replay_of name _ = false

-- a replay of this entry is there
unfoldable pub is_replayed : Items → Value → Bool
unfolding any_item is_replay_of value_at text_of
is_replayed replays (dict entry) =
    any_item (is_replay_of (text_of (value_at (codes "counterexample_id") entry))) replays
is_replayed replays _ = true

eq_comm : (s t : Text) → text_eq s t ≡ true → text_eq t s ≡ true
eq_comm s t h = let same : s ≡ t = (text_eq_iff s t).0 h in rw same (text_eq_refl t)

text_named :
    (test : Text → Bool) (t : Text) (v : Value)
    → is_text_that test v ≡ true
    → text_eq t (text_of v) ≡ true
    → is_literal t v ≡ true
unfolding is_literal text_of
text_named test t (str s) is_text same = eq_comm t s same
text_named test t _ is_text same = cc

one-or :
    (x y x' y' : Bool)
    → (x ≡ true → x' ≡ true)
    → (y ≡ true → y' ≡ true)
    → (x || y) ≡ true
    → (x' || y') ≡ true
one-or true y x' y' first later h = let here = first refl in rw here refl
one-or false y x' y' first later h = let there = later h in ground (arith, there)

-- an identifier that was collected is the one of a result
collected :
    (test : Text → Bool) (t : Text) (results : Items) (ids : List Value)
    → probe_ids results ≡ ok ids
    → all (is_text_that test) ids ≡ true
    → contains (id_texts ids) t ≡ true
    → any_item (is_result_of t) results ≡ true
unfolding probe_ids all id_texts contains any_item is_result_of
collected test t nil ids h texts there =
    let same : [] ≡ ids = ok-value h in let absent = rw (← same) at there in cc
collected test t (cons (dict result) results) ids h texts there =
    let v = value_at (codes "probe_id") result in
    let (hashed, h1) = guard-eq-ok (not (hashable v)) _ _ h in
    let (rest, more, h2) = >>=-eq-ok (probe_ids results) _ h1 in
    let same : v ∷ rest ≡ ids = ok-value h2 in
    let (first, others) =
      &&-eq-true (is_text_that test v) (all (is_text_that test) rest) (rw (← same) at texts) in
    one-or (text_eq t (text_of v)) (contains (id_texts rest) t) _ _ (text_named test t v first)
      (collected test t results rest more others) (rw (← same) at there)
collected test t (cons _ results) ids h texts there = collected test t results ids h texts there

all_mono :
    (f g : Text → Bool)
    → ((t : Text) → f t ≡ true → g t ≡ true)
    → (ts : List Text) → all f ts ≡ true
    → all g ts ≡ true
unfolding all
all_mono f g under [] h = refl
all_mono f g under (t ∷ ts) h =
    let (first, later) = &&-eq-true (f t) (all f ts) h in
    let here = under t first in let rest = all_mono f g under ts later in rw (here, rest) refl

-- every probe has a result
pub probe_ids-covered :
    (results : Items) (ids : List Value)
    → probe_ids results ≡ ok ids
    → is_probe_set ids ≡ true
    → all (λ name. any_item (is_result_of name) results) probes ≡ true
unfolding is_probe_set
probe_ids-covered results ids named exact =
    let (texts, every) =
      &&-eq-true (all (is_text_that (contains probes)) ids) (all (contains (id_texts ids)) probes)
        exact in
    all_mono (contains (id_texts ids)) _
      (λ t. collected (contains probes) t results ids named texts) probes every

-- an identifier that a round adds is the one of its replay
validate_replay-is_replay_of :
    (registry : Items) (v : Value) (seen ids : List Text) (t : Text)
    → validate_replay registry v seen ≡ ok ids
    → contains ids t ≡ true
    → (is_replay_of t v || contains seen t) ≡ true
unfolding validate_replay contains is_replay_of
validate_replay-is_replay_of registry v seen ids t h there =
    let (replay, is_replay, h1) = as_dict-found v _ _ h in
    let id = value_at (codes "counterexample_id") replay in
    let (exact, h2) = guard-eq-ok _ _ _ h1 in
    let (fresh, h3) = guard-eq-ok (not (is_text_that (λ id. not (contains seen id)) id)) _ _ h2 in
    let (entry, found, h4) = require-found (find_entry (text_of id) registry) _ _ h3 in
    let (a, h5) = guard-eq-ok _ _ _ h4 in
    let (b, h6) = guard-eq-ok _ _ _ h5 in
    let (c, h7) = guard-eq-ok _ _ _ h6 in
    let (d, h8) = guard-eq-ok _ _ _ h7 in
    let (known, kind, h9) = >>=-eq-ok _ _ h8 in
    let (e, h10) = guard-eq-ok _ _ _ h9 in
    let (u, failure, h11) = >>=-eq-ok _ _ h10 in
    let (f, h12) = guard-eq-ok _ _ _ h11 in
    let same : text_of id ∷ seen ≡ ids = ok-value h12 in
    rw is_replay (
      one-or (text_eq t (text_of id)) (contains seen t) _ _
        (text_named (λ id. not (contains seen id)) t id (not-false _ fresh)) (λ before. before)
        (rw (← same) at there))

validate_each_replay-any_item :
    (registry replays : Items) (seen ids : List Text) (t : Text)
    → validate_each_replay registry replays seen ≡ ok ids
    → contains ids t ≡ true
    → (any_item (is_replay_of t) replays || contains seen t) ≡ true
unfolding validate_each_replay any_item
validate_each_replay-any_item registry nil seen ids t h there =
    let same : seen ≡ ids = ok-value h in rw same there
validate_each_replay-any_item registry (cons v replays) seen ids t h there =
    let (after, one, more) = >>=-eq-ok (validate_replay registry v seen) _ h in
    let later = validate_each_replay-any_item registry replays after ids t more there in
    let first = validate_replay-is_replay_of registry v seen after t one in
    by_parts (is_replay_of t v) (any_item (is_replay_of t) replays) (contains after t) _ first later
  where
    by_parts :
        (x y a b : Bool) → (a ≡ true → (x || b) ≡ true) → (y || a) ≡ true → ((x || y) || b) ≡ true
    by_parts true y a b first later = refl
    by_parts false true a b first later = refl
    by_parts false false a b first later = first later

all_replayed-covered :
    (replays entries : Items) (ids : List Text)
    → ((t : Text) → contains ids t ≡ true → any_item (is_replay_of t) replays ≡ true)
    → all_replayed entries ids ≡ true
    → all_items (is_replayed replays) entries ≡ true
unfolding all_replayed all_items is_replayed
all_replayed-covered replays nil ids found h = refl
all_replayed-covered replays (cons (dict entry) entries) ids found h =
    let t = text_of (value_at (codes "counterexample_id") entry) in
    let (first, later) = &&-eq-true (contains ids t) (all_replayed entries ids) h in
    let here = found t first in
    let rest = all_replayed-covered replays entries ids found later in rw (here, rest) refl
all_replayed-covered replays (cons _ entries) ids found h =
    all_replayed-covered replays entries ids found h

-- every entry of the registry has a replay
pub validate_each_replay-covered :
    (registry replays : Items) (ids : List Text)
    → validate_each_replay registry replays [] ≡ ok ids
    → all_replayed registry ids ≡ true
    → all_items (is_replayed replays) registry ≡ true
unfolding contains
validate_each_replay-covered registry replays ids named every =
    all_replayed-covered replays registry ids
      (λ t there.
        or_false (any_item (is_replay_of t) replays)
          (validate_each_replay-any_item registry replays [] ids t named there))
      every
  where
    or_false : (b : Bool) → (b || false) ≡ true → b ≡ true
    or_false b h = ground arith
