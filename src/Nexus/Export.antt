-- ===== src/Nexus/Export.antt =====
-- The result of the NEXUS verifier that the adapter goes on with is one for the export that was loaded.
use qsol_fed.Base.{◌≡◌, refl, sym, ap, ◌∙◌, Bool, true, false, ◌||◌, not, &&-eq-true, arith}
use qsol_fed.Base.Result.{ok, guard-eq-ok, >>=-eq-ok}
use qsol_fed.Base.Inverse.{ok-value, not-false}
use qsol_fed.Base.Text.{Text, codes, text_eq_iff}
use qsol_fed.Json.{Value, Items, Fields, str, arr, dict, nil, cons}
use qsol_fed.Sdk.Patterns.{is_text_that}
use qsol_fed.Sdk.Fields.{is_literal, hash_eq, all_items}
use qsol_fed.Sdk.Found.{as_dict-found}
use qsol_fed.Moriarty.Shapes.{value_at, value_eq, items_eq}
use qsol_fed.Nexus.Source.{bundle_objects, object_ids, verify_native}

-- the references are the identifiers of the objects, in their order
unfoldable pub Identified : Items → Items → Type 0
unfolding value_at
Identified nil nil = Unit {0}
Identified (cons v entries) (cons ref refs) =
    (entry : Fields) × (v ≡ dict entry)
    × (value_at (codes "object_id") entry ≡ ref)
    × Identified entries refs
Identified _ _ = ⊥

-- what the verifier said of the bundle
pub record VerifiedExport (verifier : Value → Value) (loaded : Value) (refs : Items)
    (bundle verification : Fields) : Type 0 where
  pub is_bundle : loaded ≡ dict bundle
  pub is_result : verifier loaded ≡ dict verification
  pub is_verified : value_at (codes "status") verification ≡ str (codes "verified")
  pub without_authority : value_at (codes "authority_effect") verification ≡ str (codes "none")
  pub same_bundle :
      value_eq (value_at (codes "bundle_ref") verification) (value_at (codes "bundle_ref") bundle)
      ≡ true
  pub same_count :
      value_eq
        (value_at (codes "object_count") verification)
        (value_at (codes "object_count") bundle)
      ≡ true
  pub listed : value_at (codes "object_refs") verification ≡ arr refs
  pub objects : Items
  pub has_objects : bundle_objects bundle ≡ ok objects
  pub identified : Identified objects refs

is_literal-str : (t : Text) (v : Value) → is_literal t v ≡ true → v ≡ str t
unfolding is_literal
is_literal-str t (str s) h = ap str ((text_eq_iff s t).0 h)
is_literal-str t _ h = cc

same_text :
    (test : Text → Bool) (v w : Value) → is_text_that test v ≡ true → value_eq v w ≡ true → w ≡ v
unfolding value_eq hash_eq
same_text test (str s) (str t) is_text same = ap str (sym ((text_eq_iff s t).0 same))
same_text test (str s) _ is_text same = cc
same_text test _ w is_text same = cc

-- a list of texts is equal to itself only
same_texts :
    (test : Text → Bool) (refs ids : Items)
    → all_items (is_text_that test) refs ≡ true
    → items_eq refs ids ≡ true
    → ids ≡ refs
unfolding all_items items_eq
same_texts test nil nil texts same = refl
same_texts test nil (cons y ys) texts same = cc
same_texts test (cons x xs) nil texts same = cc
same_texts test (cons x xs) (cons y ys) texts same =
    let (first, later) =
      &&-eq-true (is_text_that test x) (all_items (is_text_that test) xs) texts in
    let (here, rest) = &&-eq-true (value_eq x y) (items_eq xs ys) same in
    rw (same_text test x y first here, same_texts test xs ys later rest) refl

object_ids-Identified : (entries ids : Items) → object_ids entries ≡ ok ids → Identified entries ids
unfolding object_ids Identified
object_ids-Identified nil ids h = let same : nil ≡ ids = ok-value h in rw (← same) tt
object_ids-Identified (cons v entries) ids h =
    let (entry, is_entry, h1) = as_dict-found v _ _ h in
    let (rest, more, h2) = >>=-eq-ok (object_ids entries) _ h1 in
    rw (← ok-value h2) (entry, is_entry, refl, object_ids-Identified entries rest more)

left_of : (x y : Bool) → (not x || not y) ≡ false → x ≡ true
left_of x y h = ground arith

right_of : (x y : Bool) → (not x || not y) ≡ false → y ≡ true
right_of x y h = ground arith

-- the result that is returned passed every check
pub verify_native-VerifiedExport :
    (verifier : Value → Value) (test : Text → Bool) (loaded : Value) (refs : Items)
    (bundle verification : Fields)
    → loaded ≡ dict bundle
    → verify_native (verifier (dict bundle)) bundle ≡ ok verification
    → value_at (codes "object_refs") verification ≡ arr refs
    → all_items (is_text_that test) refs ≡ true
    → VerifiedExport verifier loaded refs bundle verification
unfolding verify_native value_eq
verify_native-VerifiedExport verifier test loaded refs bundle verification is_bundle h listed
      texts =
    let (result, is_result, h1) = as_dict-found (verifier (dict bundle)) _ _ h in
    let (verified, h2) = guard-eq-ok _ _ _ h1 in
    let (same_bundle, h3) = guard-eq-ok _ _ _ h2 in
    let (same_count, h4) = guard-eq-ok _ _ _ h3 in
    let (objects, found, h5) = >>=-eq-ok (bundle_objects bundle) _ h4 in
    let (ids, identified, h6) = >>=-eq-ok (object_ids objects) _ h5 in
    let (same_refs, h7) = guard-eq-ok _ _ _ h6 in
    let same : result ≡ verification = ok-value h7 in
    of_result result same is_result verified same_bundle same_count objects found ids identified
      same_refs
  where
    of_result :
        (result : Fields)
        → result ≡ verification
        → verifier (dict bundle) ≡ dict result
        → (not (is_literal (codes "verified") (value_at (codes "status") result))
            || not (is_literal (codes "none") (value_at (codes "authority_effect") result)))
          ≡ false
        → not
            (value_eq (value_at (codes "bundle_ref") result) (value_at (codes "bundle_ref") bundle))
          ≡ false
        → not (
            value_eq
              (value_at (codes "object_count") result)
              (value_at (codes "object_count") bundle))
          ≡ false
        → (objects : Items) → bundle_objects bundle ≡ ok objects
        → (ids : Items) → object_ids objects ≡ ok ids
        → not (value_eq (value_at (codes "object_refs") result) (arr ids)) ≡ false
        → VerifiedExport verifier loaded refs bundle verification
    of_result result same is_result verified same_bundle same_count objects found ids identified
          same_refs =
        let compared = rw (same, listed) at (not-false _ same_refs) in
        let ids_are_refs : ids ≡ refs = same_texts test refs ids texts compared in
        record {
          is_bundle = is_bundle;
          is_result = ap verifier is_bundle ∙ (rw same at is_result);
          is_verified = is_literal-str _ _ (rw same at (left_of _ _ verified));
          without_authority = is_literal-str _ _ (rw same at (right_of _ _ verified));
          same_bundle = rw same at (not-false _ same_bundle);
          same_count = rw same at (not-false _ same_count);
          listed = listed;
          objects = objects;
          has_objects = found;
          identified = rw ids_are_refs at (object_ids-Identified objects ids identified);
        }
