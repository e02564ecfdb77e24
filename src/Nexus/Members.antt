-- ===== src/Nexus/Members.antt =====
-- The members and the minority reports of a council, validated.
use qsol_fed.Base.{
  suc, ◌≤◌, ◌≡◌, refl, sym, ap, Bool, true, false, not, List, [], ◌∷◌, ltb, ltb-false→le, leb,
  length, arith, All, Bool-cases, inl, inr,
}
use qsol_fed.Base.Result.{Error, ok, guard-eq-ok, >>=-eq-ok, nexus_minority_reports_invalid}
use qsol_fed.Base.Text.{Text, codes, text_eq, contains}
use qsol_fed.Platform.{Platform}
use qsol_fed.Json.{Value, Items, Fields, str, dict, nil, cons, lookup, count_items}
use qsol_fed.Sdk.Fields.{is_none}
use qsol_fed.Moriarty.Shapes.{value_at}
use qsol_fed.Moriarty.Corpus.{text_of}
use qsol_fed.Sdk.Found.{as_dict-found, as_list-found}
use qsol_fed.Base.Inverse.{not-false, ok-value}
use qsol_fed.Nexus.Source.{Limit, max_chars, max_utf8_bytes, within_limit, nfc_text}
use qsol_fed.Nexus.Council.{
  max_minorities, member_entry, minority_entry, ids_of, validate_member, validate_members,
  minority_report, minority_each, minority_reports,
}

-- the members of a report, by their identifiers
abbrev pub entries : List Text → Items
entries [] = nil
entries (id ∷ ids) = cons (dict (member_entry id)) (entries ids)

module _ (p : Platform) (is_secret : Text → Bool) where
  -- a text that the scrubber leaves alone, within its limit
  pub record Clean (limit : Limit) (s : Text) : Type 0 where
    pub no_secret : is_secret s ≡ false
    pub fits : within_limit limit s ≡ ok true

  pub record MinoritySafe (ids : List Text) (v : Value) : Type 0 where
    pub member_id : Text
    pub choice : Text
    pub rationale : Text
    pub is_entry : v ≡ dict (minority_entry member_id choice rationale)
    pub of_member : contains ids member_id ≡ true
    pub clean_choice : Clean (max_chars 256) choice
    pub clean_rationale : Clean (max_utf8_bytes 8192) rationale

  abbrev pub EachSafe : List Text → Items → Type 0
  EachSafe ids nil = Unit
  EachSafe ids (cons v items) = MinoritySafe ids v × EachSafe ids items

  pub nfc_text-Clean :
      (code : Error) (limit : Limit) (v : Value) (s : Text)
      → nfc_text p is_secret code limit v ≡ ok s
      → Clean limit s
  unfolding nfc_text
  nfc_text-Clean code limit (str raw) s h =
      let (nonempty, h1) = guard-eq-ok (not (leb 1 (length raw))) _ _ h in
      let (fits, bounded, h2) = >>=-eq-ok (within_limit limit (p.nfc raw)) _ h1 in
      let (fit, h3) = guard-eq-ok (not fits) _ _ h2 in
      let (scrubbed, h4) = guard-eq-ok (is_secret (p.nfc raw)) _ _ h3 in
      let same : p.nfc raw ≡ s = ok-value h4 in
      let yes : fits ≡ true = not-false fits fit in
      rw (← same) record { no_secret = scrubbed; fits = rw (← yes) bounded }
  nfc_text-Clean code limit _ s h = cc

  pub record Seated (roster members : Items) : Type 0 where
    pub ids : List Text
    pub as_entries : members ≡ entries ids
    pub same_ids : ids_of members ≡ ids
    pub counted : length ids ≡ count_items roster
    pub clean : All (Clean (max_chars 256)) ids

  validate_member-entry :
      (v : Value) (m : Fields)
      → validate_member p is_secret v ≡ ok m
      → (id : Text) × (m ≡ member_entry id) × Clean (max_chars 256) id
  unfolding validate_member
  validate_member-entry v m h =
      let (raw, is_raw, h1) = as_dict-found v _ _ h in
      let (id, named, h2) =
        >>=-eq-ok (nfc_text p is_secret _ (max_chars 256) (value_at (codes "member_id") raw)) _
          h1 in
      let (equal, h3) = guard-eq-ok _ _ _ h2 in
      (id, sym (ok-value h3), nfc_text-Clean _ _ _ id named)

  pub validate_members-Seated :
      (roster members : Items)
      → validate_members p is_secret roster ≡ ok members
      → Seated roster members
  unfolding validate_members ids_of member_entry value_at lookup text_eq text_of
  validate_members-Seated nil members h =
      let same : nil ≡ members = ok-value h in
      rw (← same)
        record { ids = []; as_entries = refl; same_ids = refl; counted = refl; clean = tt }
  validate_members-Seated (cons v roster) members h =
      let (m, one, h1) = >>=-eq-ok (validate_member p is_secret v) _ h in
      let (ms, rest, h2) = >>=-eq-ok (validate_members p is_secret roster) _ h1 in
      let same : cons (dict m) ms ≡ members = ok-value h2 in
      let (id, entry, clean) = validate_member-entry v m one in
      let later = validate_members-Seated roster ms rest in
      rw (← same) (
        rw entry record {
          ids = id ∷ later.ids;
          as_entries = ap (cons (dict (member_entry id))) later.as_entries;
          same_ids = ap (λ ids. id ∷ ids) later.same_ids;
          counted = ap suc later.counted;
          clean = (clean, later.clean);
        })

  minority_report-Safe :
      (ids : List Text) (v : Value) (r : Fields)
      → minority_report p is_secret ids v ≡ ok r
      → MinoritySafe ids (dict r)
  unfolding minority_report
  minority_report-Safe ids v r h =
      let (raw, is_raw, h1) = as_dict-found v _ _ h in
      let (id, named, h2) =
        >>=-eq-ok (nfc_text p is_secret _ (max_chars 256) (value_at (codes "member_id") raw)) _
          h1 in
      let (known, h3) = guard-eq-ok (not (contains ids id)) _ _ h2 in
      let (choice, chosen, h4) =
        >>=-eq-ok (nfc_text p is_secret _ (max_chars 256) (value_at (codes "choice") raw)) _ h3 in
      let (rationale, argued, h5) =
        >>=-eq-ok (nfc_text p is_secret _ (max_utf8_bytes 8192) (value_at (codes "rationale") raw))
          _ h4 in
      record {
        member_id = id;
        choice = choice;
        rationale = rationale;
        is_entry = ap dict (sym (ok-value h5));
        of_member = not-false _ known;
        clean_choice = nfc_text-Clean _ _ _ choice chosen;
        clean_rationale = nfc_text-Clean _ _ _ rationale argued;
      }

  minority_each-Safe :
      (ids : List Text) (raws reports : Items)
      → minority_each p is_secret ids raws ≡ ok reports
      → EachSafe ids reports × (count_items reports ≡ count_items raws)
  unfolding minority_each
  minority_each-Safe ids nil reports h =
      let same : nil ≡ reports = ok-value h in rw (← same) (tt, refl)
  minority_each-Safe ids (cons v raws) reports h =
      let (r, one, h1) = >>=-eq-ok (minority_report p is_secret ids v) _ h in
      let (rs, rest, h2) = >>=-eq-ok (minority_each p is_secret ids raws) _ h1 in
      let same : cons (dict r) rs ≡ reports = ok-value h2 in
      let later = minority_each-Safe ids raws rs rest in
      rw (← same) ((minority_report-Safe ids v r one, later.0), ap suc later.1)

  abbrev pub Few : List Text → Items → Type 0
  Few ids reports = EachSafe ids reports × (count_items reports ≤ 64)

  none-Few : (ids : List Text) (reports : Items) → ok nil ≡ ok reports → Few ids reports
  none-Few ids reports h = let same : nil ≡ reports = ok-value h in rw (← same) (tt, omega arith)

  pub minority_reports-Safe :
      (result : Value) (ids : List Text) (reports : Items)
      → minority_reports p is_secret result ids ≡ ok reports
      → Few ids reports
  unfolding minority_reports
  minority_reports-Safe (dict result) ids reports h =
      elim (Bool-cases (is_none (value_at (codes "minority_reports") result))) [
        | inl e ↦ none-Few ids reports (rw e at h)
        | inr e ↦
            (let (raws, listed, h1) =
                as_list-found (value_at (codes "minority_reports") result)
                  nexus_minority_reports_invalid _ (rw e at h) in
              let (few, h2) = guard-eq-ok (ltb max_minorities (count_items raws)) _ _ h1 in
              let (safe, counted) = minority_each-Safe ids raws reports h2 in
              let bound = ltb-false→le max_minorities (count_items raws) few in (safe, omega arith))
      ]
  minority_reports-Safe _ ids reports h = none-Few ids reports h
