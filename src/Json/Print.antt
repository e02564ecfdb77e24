-- ===== src/Json/Print.antt =====
-- A reference printer for canonical JSON text, and what it prints: it does not sort and checks
-- nothing, so it is the canonical form of values whose keys are in order.
use qsol_fed.Base.{◌^◌, ◌-◌, ◌≡◌, true, false, [], ◌∷◌, ◌++◌}
use qsol_fed.Base.Int.{Within}
use qsol_fed.Base.Text.{Text, codes}
use qsol_fed.Base.Utf8.{has_surrogate}
use qsol_fed.Json.{
  Value, Items, Fields, null, bool, int, str, arr, dict, pairs, other, nil, cons, end, field,
}
use qsol_fed.Json.Decimal.{str_int}
use qsol_fed.Json.Escape.{escape_chars}

abbrev pub quote : Text → Text
quote s = b'"' ∷ (escape_chars s ++ b'"' ∷ [])

unfoldable mutual
  pub print : Value → Text
  print null = codes "null"
  print (bool true) = codes "true"
  print (bool false) = codes "false"
  print (int n) = str_int n
  print (str s) = quote s
  print (arr xs) = b'[' ∷ (print_items xs ++ b']' ∷ [])
  print (dict fs) = b'{' ∷ (print_members fs ++ b'}' ∷ [])
  print (pairs fs) = []
  print other = []

  pub print_items : Items → Text
  print_items nil = []
  print_items (cons x nil) = print x
  print_items (cons x (cons y xs)) = print x ++ b',' ∷ print_items (cons y xs)

  pub print_members : Fields → Text
  print_members end = []
  print_members (field k v end) = quote k ++ b':' ∷ print v
  print_members (field k v (field j w fs)) =
      quote k ++ b':' ∷ (print v ++ b',' ∷ print_members (field j w fs))

-- The value as `json.loads` returns it: an object is a list of pairs.
unfoldable mutual
  pub unloaded : Value → Value
  unloaded (arr xs) = arr (unloaded_items xs)
  unloaded (dict fs) = pairs (unloaded_fields fs)
  unloaded null = null
  unloaded (bool b) = bool b
  unloaded (int n) = int n
  unloaded (str s) = str s
  unloaded (pairs fs) = pairs fs
  unloaded other = other

  pub unloaded_items : Items → Items
  unloaded_items nil = nil
  unloaded_items (cons x xs) = cons (unloaded x) (unloaded_items xs)

  pub unloaded_fields : Fields → Fields
  unloaded_fields end = end
  unloaded_fields (field k v fs) = field k (unloaded v) (unloaded_fields fs)

-- The values that the printer serves: integers of at most 16 digits, texts without surrogates,
-- objects as dictionaries.
unfoldable mutual
  pub Plain : Value → Type 0
  Plain null = Unit
  Plain (bool b) = Unit
  Plain (int n) = Within (10 ^ 16 - 1) n
  Plain (str s) = has_surrogate s ≡ false
  Plain (arr xs) = PlainItems xs
  Plain (dict fs) = PlainFields fs
  Plain (pairs fs) = ⊥
  Plain other = ⊥

  pub PlainItems : Items → Type 0
  PlainItems nil = Unit
  PlainItems (cons x xs) = Plain x × PlainItems xs

  pub PlainFields : Fields → Type 0
  PlainFields end = Unit
  PlainFields (field k v fs) = (has_surrogate k ≡ false) × Plain v × PlainFields fs
