-- ===== src/Query/Fields.antt =====
-- holochain.go, `Query`: the constraints on the content of an entry, of a JSON entry by its fields.
use holochain.Base.{
  Bytes, ℕ, [], ◌∷◌, Bool, true, false, Option, none, some, ◌==◌, if◌then◌else◌, bytes_equal,
}
use holochain.Base.Map.{Map, lookup}
use holochain.Base.Result.{Result, ok, panic, ◌>>=◌, or_foreign}
use holochain.Entry.{has_prefix}

-- What encoding/json makes of a field: a number is named by an ℕ, and what is inside of arrays and
-- objects is never read.
pub data Value : Type 0 where
  null array object : Value
  boolean : Bool → Value
  number : ℕ → Value
  string : Bytes → Value

-- encoding/json and regexp. The pairs of a map are in the order in which `range` visits them.
pub record Library : Type 0 where
  pub unmarshal : Bytes → Option (Map Value)
  pub compile : Bytes → Option (Bytes → Bool)

-- `strings.Index(s, sub) >= 0`.
unfoldable pub has_substring : Bytes → Bytes → Bool
unfolding has_prefix
has_substring [] sub = has_prefix [] sub
has_substring (b ∷ s) sub =
    let rest = has_substring s sub in if has_prefix (b ∷ s) sub then true else rest

-- `contentMap[fieldName]`, which is nil for a field that is not there.
unfoldable pub field : Bytes → Map Value → Value
unfolding lookup
field name content = elim (lookup name content) [ none ↦ null | some v ↦ v ]

-- `==` on interface values; slices and maps cannot be compared.
unfoldable pub same_value : Value → Value → Result Bool
same_value null null = ok true
same_value array array = panic
same_value object object = panic
same_value (boolean true) (boolean b) = ok b
same_value (boolean false) (boolean true) = ok false
same_value (boolean false) (boolean false) = ok true
same_value (number m) (number n) = ok (m == n)
same_value (string s) (string t) = ok (bytes_equal s t)
same_value _ _ = ok false

-- `v.(string)`.
unfoldable pub as_string : Value → Result Bytes
as_string (string s) = ok s
as_string _ = panic

unfoldable pub field_contains : Value → Value → Result Bool
unfolding as_string has_substring
field_contains v sub = do s ← as_string v; t ← as_string sub; ok (has_substring s t)

unfoldable pub field_matches : Value → (Bytes → Bool) → Result Bool
unfolding as_string
field_matches v re = do s ← as_string v; ok (re s)

-- The loops over the fields of a constraint, which end at the first field that meets it.
unfoldable pub any_field {ℓ} :
    {C : Type ℓ} → (Value → C → Result Bool) → Map C → Map Value → Result Bool
unfolding field
any_field test [] content = ok false
any_field test ((name, c) ∷ rest) content = do
  let others = any_field test rest content
  met ← test (field name content) c
  (if met then ok true else others)

unfoldable pub compile_fields : Library → Map Value → Result (Map (Bytes → Bool))
unfolding as_string
compile_fields lib [] = ok []
compile_fields lib ((name, v) ∷ rest) = do
  s ← as_string v
  re ← or_foreign (lib.compile s)
  res ← compile_fields lib rest
  ok ((name, re) ∷ res)

-- An empty constraint is none, and a constraint is not looked at once one was missed.
unfoldable pub unless_empty : Bytes → Result Bool → Result Bool → Result Bool
unless_empty [] test rest = rest
unless_empty (b ∷ bs) test rest = do met ← test; (if met then rest else ok false)

unfoldable pub json_equals : Library → Bytes → Map Value → Result Bool
unfolding any_field same_value
json_equals lib equals content = do
  m ← or_foreign (lib.unmarshal equals)
  any_field same_value m content

unfoldable pub json_contains : Library → Bytes → Map Value → Result Bool
unfolding any_field field_contains
json_contains lib contains content = do
  m ← or_foreign (lib.unmarshal contains)
  any_field field_contains m content

unfoldable pub json_matches : Library → Bytes → Map Value → Result Bool
unfolding any_field field_matches compile_fields
json_matches lib matches content = do
  m ← or_foreign (lib.unmarshal matches)
  res ← compile_fields lib m
  any_field field_matches res content

-- The constraints on the text of a JSON entry.
unfoldable pub json_meets : Library → Bytes → Bytes → Bytes → Bytes → Result Bool
unfolding json_equals json_contains json_matches unless_empty
json_meets lib equals contains matches s = do
  content ← or_foreign (lib.unmarshal s)
  unless_empty equals (json_equals lib equals content) (
      unless_empty contains (json_contains lib contains content)
        (unless_empty matches (json_matches lib matches content) (ok true)))

-- The constraints on the text of any other entry.
unfoldable pub text_meets : Library → Bytes → Bytes → Bytes → Bytes → Result Bool
unfolding unless_empty has_substring
text_meets lib equals contains matches s = unless_empty equals (ok (bytes_equal s equals)) (
    unless_empty contains (ok (has_substring s contains))
      (unless_empty matches (do re ← or_foreign (lib.compile matches); ok (re s)) (ok true)))
