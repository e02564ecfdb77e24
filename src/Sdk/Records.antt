-- ===== src/Sdk/Records.antt =====
-- When the SDK's manifest and provenance builders succeed.
use qsol_fed.Base.{
  ◌≤◌, ◌≡◌, refl, ap, sym, ◌∙◌, ◌↔◌, Bool, true, false, not, all, arith, ltb, ltb-false→le,
  le→ltb-false,
}
use qsol_fed.Base.Result.{
  Error, Result, ok, err, ◌>>=◌, ◌>>◌, >>=-eq-ok, raise_if, Returns, Returns-bind, Returns-guard,
  Returns-if, Returns-ok, Returns-err, sdk_node_manifest_invalid, sdk_provenance_invalid,
  type_error,
}
use qsol_fed.Base.Text.{Text, contains, text_eq}
use qsol_fed.Json.{
  Value, Items, null, bool, int, str, arr, dict, pairs, other, nil, cons, keys, lookup, has_key,
  count_items,
}
use qsol_fed.Canonical.Complete.{bind-ok, raise_if-pass}
use qsol_fed.Sdk.Checks.{not-eq-false}
use qsol_fed.Sdk.Patterns.{
  validate_capability_id, is_node_id, is_sha256_ref, is_timestamp, is_text_that,
}
use qsol_fed.Sdk.Fields.{
  has_exactly, item, is_literal, all_items, hashable, no_duplicates, has_duplicates, as_dict,
  as_list,
}
use qsol_fed.Sdk.Documents.{
  relations, node_manifest, validate_node_manifest, build_node_manifest, provenance,
  validate_provenance, build_provenance,
}

all_items-hashable :
    (test : Value → Bool)
    → ((v : Value) → test v ≡ true → hashable v ≡ true)
    → (xs : Items) → all_items test xs ≡ true
    → all_items hashable xs ≡ true
unfolding all_items
all_items-hashable test h nil a = refl
all_items-hashable test h (cons x xs) a = ground (arith, h x, all_items-hashable test h xs)

is_text_that-hashable :
    (test : Text → Bool) (v : Value) → is_text_that test v ≡ true → hashable v ≡ true
unfolding hashable
is_text_that-hashable test (str s) h = refl
is_text_that-hashable test null h = cc
is_text_that-hashable test (bool b) h = cc
is_text_that-hashable test (int n) h = cc
is_text_that-hashable test (arr xs) h = cc
is_text_that-hashable test (dict fs) h = cc
is_text_that-hashable test (pairs fs) h = cc
is_text_that-hashable test other h = cc

-- At most 64 items, without a duplicate, all of which pass the test.
pub record Listed (test : Value → Bool) (xs : Items) : Type 0 where
  pub few : count_items xs ≤ 64
  pub distinct : no_duplicates xs ≡ true
  pub each : all_items test xs ≡ true

-- The checks that the manifest's and the provenance's validator make on a list.
abbrev list_checks {ℓ} : {A : Type ℓ} → (Value → Bool) → Items → Error → Result A → Result A
list_checks test xs e next =
    raise_if (ltb 64 (count_items xs)) e
    >> (has_duplicates xs >>= λ duplicates.
        raise_if duplicates e >> (raise_if (not (all_items test xs)) e >> next))

has_duplicates-none :
    (xs : Items) → Returns (λ b. b ≡ false → no_duplicates xs ≡ true) (has_duplicates xs)
unfolding has_duplicates
has_duplicates-none xs =
    Returns-if (all_items hashable xs) _ (err type_error) (λ _. Returns-ok _ (not-eq-false _))
      (λ _. Returns-err type_error)

list_checks-Returns :
    {A : Type 0} {P : A → Type 0} (test : Value → Bool) (xs : Items) (e : Error) (next : Result A)
    → (Listed test xs → Returns P next)
    → Returns P (list_checks test xs e next)
list_checks-Returns test xs e next h = Returns-guard _ _ λ few. Returns-bind _ λ d ed.
    Returns-guard _ _ λ new. Returns-guard _ _ λ each. h (record {
      few = ltb-false→le _ _ few;
      distinct = (has_duplicates-none xs).at d ed new;
      each = not-eq-false _ each;
    })

list_checks-pass :
    {A : Type 0} (test : Value → Bool) (xs : Items) (e : Error) (next : Result A)
    → ((v : Value) → test v ≡ true → hashable v ≡ true)
    → Listed test xs
    → list_checks test xs e next ≡ next
unfolding has_duplicates
list_checks-pass test xs e next texts l =
    raise_if-pass _ _ _ (le→ltb-false _ _ l.few)
    ∙ rw (all_items-hashable test texts xs l.each, l.distinct, l.each)
        (unfold ◌>>=◌ raise_if in refl)

node_manifest-checks :
    (i : Value) (xs : Items)
    → validate_node_manifest (node_manifest i xs) ≡ (
        raise_if (not (is_node_id i)) sdk_node_manifest_invalid
        >> list_checks validate_capability_id xs sdk_node_manifest_invalid (ok tt))
unfolding validate_node_manifest as_dict has_exactly has_key keys contains all item lookup
    is_literal text_eq as_list ◌>>=◌ raise_if
node_manifest-checks i xs = refl

module _ (i : Value) (xs : Items) where
  manifest-Returns :
      Returns {A = Unit {0}}
        (λ _. (is_node_id i ≡ true) × Listed validate_capability_id xs)
        (raise_if (not (is_node_id i)) sdk_node_manifest_invalid
          >> list_checks validate_capability_id xs sdk_node_manifest_invalid (ok tt))
  manifest-Returns =
      Returns-guard _ _
        λ node. list_checks-Returns _ xs _ _ λ listed. Returns-ok tt (not-eq-false _ node, listed)

  manifest-passes :
      is_node_id i ≡ true
      → Listed validate_capability_id xs
      → validate_node_manifest (node_manifest i xs) ≡ ok tt
  unfolding validate_capability_id
  manifest-passes node listed =
      node_manifest-checks i xs
      ∙ raise_if-pass _ _ _ (ap not node)
      ∙ list_checks-pass validate_capability_id xs _ _ capability-hashable listed
    where
      capability-hashable : (v : Value) → validate_capability_id v ≡ true → hashable v ≡ true
      capability-hashable v h = is_text_that-hashable _ v h

  -- The manifest builder returns its manifest exactly when the node's identifier is well formed and
  -- the capabilities are at most 64 well-formed identifiers without a duplicate.
  pub build_node_manifest-eq_iff :
      (build_node_manifest i xs ≡ ok (node_manifest i xs))
      ↔ ((is_node_id i ≡ true) × Listed validate_capability_id xs)
  unfolding build_node_manifest
  build_node_manifest-eq_iff = (
    λ h.
        let (u, valid, _) = >>=-eq-ok (validate_node_manifest (node_manifest i xs)) _ h in
        manifest-Returns.at u (sym (node_manifest-checks i xs) ∙ valid),
    λ (node, listed). bind-ok _ (manifest-passes node listed),
  )

-- the fields of a provenance record that the builder is given
pub record Traced (node object relation : Value) (parents : Items) (created : Value) : Type 0 where
  pub source : is_node_id node ≡ true
  pub reference : is_sha256_ref object ≡ true
  pub related : is_text_that (contains relations) relation ≡ true
  pub listed : Listed is_sha256_ref parents
  pub dated : is_timestamp created ≡ true

module _ (n o r : Value) (ps : Items) (c : Value) where
  provenance-checks : validate_provenance (provenance n o r ps c) ≡ (
      raise_if (not (is_node_id n)) sdk_provenance_invalid
      >> (raise_if (not (is_sha256_ref o)) sdk_provenance_invalid
          >> (raise_if (not (is_text_that (contains relations) r)) sdk_provenance_invalid
              >> list_checks is_sha256_ref ps sdk_provenance_invalid
                  (raise_if (not (is_timestamp c)) sdk_provenance_invalid >> ok tt))))
  unfolding validate_provenance as_dict has_exactly has_key keys all item lookup is_literal text_eq
      as_list ◌>>=◌ raise_if contains
  provenance-checks = refl

  provenance-Returns :
      Returns (λ _. Traced n o r ps c) (validate_provenance (provenance n o r ps c))
  provenance-Returns = rw provenance-checks (
      Returns-guard _ _ λ source. Returns-guard _ _ λ reference. Returns-guard _ _ λ related.
        list_checks-Returns _ ps _ _ λ listed. Returns-guard _ _ λ dated. Returns-ok tt (record {
          source = not-eq-false _ source;
          reference = not-eq-false _ reference;
          related = not-eq-false _ related;
          listed = listed;
          dated = not-eq-false _ dated;
        }))

  provenance-passes : Traced n o r ps c → validate_provenance (provenance n o r ps c) ≡ ok tt
  unfolding is_sha256_ref
  provenance-passes t =
      provenance-checks
      ∙ raise_if-pass _ _ _ (ap not t.source)
      ∙ raise_if-pass _ _ _ (ap not t.reference)
      ∙ raise_if-pass _ _ _ (ap not t.related)
      ∙ list_checks-pass is_sha256_ref ps _ _ ref-hashable t.listed
      ∙ raise_if-pass _ _ _ (ap not t.dated)
    where
      ref-hashable : (v : Value) → is_sha256_ref v ≡ true → hashable v ≡ true
      ref-hashable v h = is_text_that-hashable _ v h

  -- The provenance builder returns its record exactly when the source node, the source object and
  -- the date are well formed, the relation is one of the four, and the parents are at most 64
  -- well-formed references without a duplicate.
  pub build_provenance-eq_iff :
      (build_provenance n o r ps c ≡ ok (provenance n o r ps c)) ↔ Traced n o r ps c
  unfolding build_provenance
  build_provenance-eq_iff = (
    λ h.
        let (u, valid, _) = >>=-eq-ok (validate_provenance (provenance n o r ps c)) _ h in
        provenance-Returns.at u valid,
    λ t. bind-ok _ (provenance-passes t),
  )
