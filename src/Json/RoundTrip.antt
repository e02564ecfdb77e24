-- ===== src/Json/RoundTrip.antt =====
-- What the reference printer prints is read back by `json.loads`.
use qsol_fed.Base.{
  ℕ, zero, suc, ◌+◌, ◌*◌, ◌<◌, ◌≡◌, refl, ap, ◌∙◌, true, false, [], ◌∷◌, ◌++◌, ltb, arith, length,
  length-append,
}
use mathlib.Core.List.{append_assoc, append-nil}
use qsol_fed.Base.Result.{ok, ◌>>=◌}
use qsol_fed.Base.Text.{Text}
use qsol_fed.Base.Utf8.{has_surrogate}
use qsol_fed.Json.{
  Value, Items, Fields, null, bool, int, str, arr, dict, pairs, other, nil, cons, end, field,
}
use qsol_fed.Json.Escape.{escape_chars}
use qsol_fed.Json.Print.{
  quote, print, print_items, print_members, unloaded, unloaded_items, unloaded_fields, Plain,
  PlainItems, PlainFields,
}
use qsol_fed.Json.Scan.{skip_space, scan_string}
use qsol_fed.Json.Steps.{
  scan_value-atom, scan_value-string, scan_value-array, scan_value-object, scan_array-body,
  scan_object-body, scan_items-close, scan_items-comma, scan_members-close, scan_members-comma,
}
use qsol_fed.Json.Loads.{
  scan_atom, scan_value, scan_array, scan_items, scan_object, scan_members, loads,
}
use qsol_fed.Json.Atoms.{
  Ends, Opens, skip_space-Opens, Opens-cons, scan_value-str_int, Opens-print, Ends-comma,
  Ends-bracket, Ends-brace, Ends-nil, scan_string-quote,
}

abbrev ReadsValue : Value → Type 0
ReadsValue v =
    (f : ℕ) (rest : Text)
    → Ends rest
    → 3 * length (print v) < f
    → scan_value f (print v ++ rest) ≡ ok (unloaded v, rest)

abbrev ReadsItems : Items → Type 0
ReadsItems nil = Unit
ReadsItems (cons x xs) =
    (f : ℕ) (rest : Text)
    → 3 * length (print_items (cons x xs)) + 1 < f
    → scan_items f (print_items (cons x xs) ++ b']' ∷ rest) ≡ ok (unloaded_items (cons x xs), rest)

abbrev ReadsMembers : Fields → Type 0
ReadsMembers end = Unit
ReadsMembers (field k v fs) =
    (f : ℕ) (rest : Text)
    → 3 * length (print_members (field k v fs)) + 1 < f
    → scan_members f (print_members (field k v fs) ++ b'}' ∷ rest)
      ≡ ok (unloaded_fields (field k v fs), rest)

Opens-append : (t s : Text) → Opens t → Opens (t ++ s)
Opens-append t s o = record {
  first = o.first;
  more = o.more ++ s;
  split = ap (λ (x : Text). x ++ s) o.split;
  no_space = o.no_space;
  no_close = o.no_close;
  ascii = o.ascii;
}

scan_array-items :
    (f : ℕ) (t s : Text) → Opens t → scan_array (suc f) (t ++ s) ≡ scan_items f (t ++ s)
scan_array-items f t s o = rw o.split (scan_array-body f (o.more ++ s) o.first ∙ rw o.no_close)

Opens-print_items : (x : Value) (xs : Items) → Plain x → Opens (print_items (cons x xs))
unfolding print
Opens-print_items x nil p = Opens-print x p
Opens-print_items x (cons y ys) p = Opens-append (print x) _ (Opens-print x p)

reads_item : (x : Value) → ReadsValue x → ReadsItems (cons x nil)
unfolding print unloaded
reads_item x read zero rest h = absurd (omega arith)
reads_item x read (suc f) rest h =
    scan_items-close f _ (read f (b']' ∷ rest) (Ends-bracket rest) (omega arith))

reads_items :
    (x y : Value) (ys : Items)
    → Plain y
    → ReadsValue x
    → ReadsItems (cons y ys)
    → ReadsItems (cons x (cons y ys))
unfolding print unloaded
reads_items x y ys p read reads zero rest h = absurd (omega arith)
reads_items x y ys p read reads (suc f) rest h =
    let others : Text = print_items (cons y ys) in
    let size = length-append (print x) (b',' ∷ others) in
    rw append_assoc (
      scan_items-comma f _ (read f _ (Ends-comma (others ++ b']' ∷ rest)) (omega (arith, size))) (
        rw (skip_space-Opens others (b']' ∷ rest) (Opens-print_items y ys p))
          (reads f rest (omega (arith, size)))))

reads_array : (xs : Items) → PlainItems xs → ReadsItems xs → ReadsValue (arr xs)
unfolding print unloaded Plain
reads_array nil p reads (suc (suc f)) rest ends h =
    scan_value-array (suc f) (b']' ∷ rest)
      (rw ((Ends-bracket rest).no_space) (scan_array-body f rest b']'))
reads_array (cons x xs) p reads (suc (suc f)) rest ends h =
    let items : Text = print_items (cons x xs) in
    let o = Opens-print_items x xs p.0 in
    let size = length-append items (b']' ∷ []) in
    rw append_assoc (
      scan_value-array (suc f) (items ++ b']' ∷ rest) (
        rw (skip_space-Opens items (b']' ∷ rest) o)
          (scan_array-items f items (b']' ∷ rest) o ∙ reads f rest (omega (arith, size)))))
reads_array xs p reads zero rest ends h = absurd (omega arith)
reads_array xs p reads (suc zero) rest ends h = absurd (omega arith)

-- `"key":` is read, whatever stands behind it.
key_read :
    (k s : Text)
    → has_surrogate k ≡ false
    → scan_string ((escape_chars k ++ b'"' ∷ []) ++ b':' ∷ s) ≡ ok (k, b':' ∷ s)
key_read k s h = scan_string-quote k (b':' ∷ s) h

reads_member :
    (k : Text) (v : Value)
    → has_surrogate k ≡ false
    → Plain v
    → ReadsValue v
    → ReadsMembers (field k v end)
unfolding print unloaded
reads_member k v h p read zero rest l = absurd (omega arith)
reads_member k v h p read (suc f) rest l =
    let size = length-append (quote k) (b':' ∷ print v) in
    rw append_assoc (
      scan_members-close f _ (print v ++ b'}' ∷ rest) k (key_read k _ h) (
        rw (skip_space-Opens (print v) (b'}' ∷ rest) (Opens-print v p))
          (read f (b'}' ∷ rest) (Ends-brace rest) (omega (arith, size)))))

Opens-print_members : (k : Text) (v : Value) (fs : Fields) → Opens (print_members (field k v fs))
unfolding print
Opens-print_members k v end = Opens-cons _ _ refl refl refl
Opens-print_members k v (field j w fs) = Opens-cons _ _ refl refl refl

scan_object-members :
    (f : ℕ) (k : Text) (v : Value) (fs : Fields) (s : Text)
    → scan_object (suc f) (print_members (field k v fs) ++ s)
      ≡ scan_members f (print_members (field k v fs) ++ s)
unfolding print
scan_object-members f k v end s = scan_object-body f _ b'"'
scan_object-members f k v (field j w fs) s = scan_object-body f _ b'"'

reads_members :
    (k : Text) (v : Value) (j : Text) (w : Value) (fs : Fields)
    → has_surrogate k ≡ false
    → Plain v
    → ReadsValue v
    → ReadsMembers (field j w fs)
    → ReadsMembers (field k v (field j w fs))
unfolding print unloaded
reads_members k v j w fs h p read reads zero rest l = absurd (omega arith)
reads_members k v j w fs h p read reads (suc f) rest l =
    let others : Text = print_members (field j w fs) in
    let size = length-append (quote k) (b':' ∷ (print v ++ b',' ∷ others)) in
    let size_value = length-append (print v) (b',' ∷ others) in
    rw (append_assoc, append_assoc (print v) (b',' ∷ others) (b'}' ∷ rest))
      (scan_members-comma f _ (print v ++ b',' ∷ (others ++ b'}' ∷ rest)) k (key_read k _ h)
        {more = others ++ b'}' ∷ rest}
        (rw (skip_space-Opens (print v) (b',' ∷ (others ++ b'}' ∷ rest)) (Opens-print v p))
          (read f _ (Ends-comma (others ++ b'}' ∷ rest)) (omega (arith, size, size_value))))
        (rw (skip_space-Opens others (b'}' ∷ rest) (Opens-print_members j w fs))
          (reads f rest (omega (arith, size, size_value)))))

reads_object : (fs : Fields) → ReadsMembers fs → ReadsValue (dict fs)
unfolding print unloaded
reads_object end reads (suc (suc f)) rest ends h =
    scan_value-object (suc f) (b'}' ∷ rest)
      (rw ((Ends-brace rest).no_space) (scan_object-body f rest b'}'))
reads_object (field k v fs) reads (suc (suc f)) rest ends h =
    let members : Text = print_members (field k v fs) in
    let o = Opens-print_members k v fs in
    let size = length-append members (b'}' ∷ []) in
    rw append_assoc (
      scan_value-object (suc f) (members ++ b'}' ∷ rest) (
        rw (skip_space-Opens members (b'}' ∷ rest) o)
          (scan_object-members f k v fs (b'}' ∷ rest) ∙ reads f rest (omega (arith, size)))))
reads_object fs reads zero rest ends h = absurd (omega arith)
reads_object fs reads (suc zero) rest ends h = absurd (omega arith)

reads_null : ReadsValue null
unfolding print unloaded scan_atom
reads_null zero rest ends h = absurd (omega arith)
reads_null (suc f) rest ends h = scan_value-atom f _ b'n' refl refl refl

reads_true : ReadsValue (bool true)
unfolding print unloaded scan_atom
reads_true zero rest ends h = absurd (omega arith)
reads_true (suc f) rest ends h = scan_value-atom f _ b't' refl refl refl

reads_false : ReadsValue (bool false)
unfolding print unloaded scan_atom
reads_false zero rest ends h = absurd (omega arith)
reads_false (suc f) rest ends h = scan_value-atom f _ b'f' refl refl refl

mutual
  unfolding Plain print unloaded

  scan_value-print : (v : Value) → Plain v → ReadsValue v
  scan_value-print null p f rest ends h = reads_null f rest ends h
  scan_value-print (bool true) p f rest ends h = reads_true f rest ends h
  scan_value-print (bool false) p f rest ends h = reads_false f rest ends h
  scan_value-print (int n) p (suc f) rest ends h = scan_value-str_int n p f rest ends.number
  scan_value-print (str s) p (suc f) rest ends h =
      scan_value-string f _ (scan_string-quote s rest p)
  scan_value-print (arr xs) p f rest ends h = reads_array xs p (scan_items-print xs p) f rest ends h
  scan_value-print (dict fs) p f rest ends h =
      reads_object fs (scan_members-print fs p) f rest ends h
  scan_value-print (pairs fs) p f rest ends h = absurd p
  scan_value-print other p f rest ends h = absurd p
  scan_value-print v p zero rest ends h = absurd (omega arith)

  scan_items-print : (xs : Items) → PlainItems xs → ReadsItems xs
  scan_items-print nil p = tt
  scan_items-print (cons x nil) p = reads_item x (scan_value-print x p.0)
  scan_items-print (cons x (cons y ys)) p =
      reads_items x y ys p.1.0 (scan_value-print x p.0) (scan_items-print (cons y ys) p.1)

  scan_members-print : (fs : Fields) → PlainFields fs → ReadsMembers fs
  scan_members-print end p = tt
  scan_members-print (field k v end) p = reads_member k v p.0 p.1 (scan_value-print v p.1)
  scan_members-print (field k v (field j w fs)) p =
      reads_members k v j w fs p.0 p.1 (scan_value-print v p.1)
        (scan_members-print (field j w fs) p.2)

-- What the reference printer prints of a plain value (texts without surrogates, integers below
-- 10 ^ 16) `json.loads` reads back, objects as pair lists in the printed order.
pub loads-print : (v : Value) → Plain v → loads (print v) ≡ ok (unloaded v)
unfolding loads
loads-print v p =
    let skipped : skip_space (print v) ≡ print v =
      rw append-nil at (skip_space-Opens (print v) [] (Opens-print v p)) in
    let read : scan_value (3 * length (print v) + 1) (print v) ≡ ok (unloaded v, []) =
      rw append-nil at
        (scan_value-print v p (3 * length (print v) + 1) [] Ends-nil (omega arith)) in
    rw (skipped, read) (unfold ◌>>=◌ skip_space in refl)

-- The printed text begins with an ASCII character.
pub print_head :
    (v : Value) → Plain v → (c : ℕ) × (s : Text) × (print v ≡ c ∷ s) × (ltb c 0x80 ≡ true)
print_head v p = let o = Opens-print v p in (o.first, o.more, o.split, o.ascii)
