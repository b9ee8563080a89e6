-- ===== src/Zome.antt =====
-- zome.go, ribosome.go, holochain.go and bridge.go: what the zomes of an application define, and
-- which of their functions may be called.
pub mod Bridges
use holochain.Base.{
  Bytes, ℕ, List, [], ◌∷◌, ◌++◌, Bool, true, false, Option, none, some, bytes_equal, if◌then◌else◌,
  codes,
}
use holochain.Base.Map.{Map, lookup, insert}
use holochain.Base.Result.{
  Error, Result, ok, err, panic, no_definition, unknown_zome, function_not_available, ◌>>=◌, ◌>>◌,
  guard, or_err,
}
use holochain.Entry.{
  EntryDef, dna_entry_type, agent_entry_type, key_entry_type, dna_entry_def, agent_entry_def,
  key_entry_def, private,
}

abbrev pub zome_exposure : Bytes
zome_exposure = []

abbrev pub public_exposure : Bytes
public_exposure = codes "public"

pub record FunctionDef : Type 0 where
  pub name : Bytes
  pub exposure : Bytes

pub record Zome : Type 0 where
  pub name : Bytes
  pub entries : List EntryDef
  pub functions : List FunctionDef
  pub bridge_funcs : List Bytes

unfoldable pub find_entry_def : Bytes → List EntryDef → Option EntryDef
find_entry_def entry_name [] = none
find_entry_def entry_name (def ∷ defs) =
    if bytes_equal def.name entry_name then some def else find_entry_def entry_name defs

unfoldable pub private_defs : List EntryDef → List EntryDef
private_defs [] = []
private_defs (def ∷ defs) =
    let rest = private_defs defs in if bytes_equal def.sharing private then def ∷ rest else rest

unfoldable pub find_function : Bytes → List FunctionDef → Option FunctionDef
find_function fn_name [] = none
find_function fn_name (f ∷ fs) =
    if bytes_equal f.name fn_name then some f else find_function fn_name fs

unfoldable pub valid_exposure : FunctionDef → Bytes → Bool
valid_exposure f context =
    if bytes_equal f.exposure public_exposure then true else bytes_equal f.exposure context

-- The error that is left is the last zome's, and there is none without zomes.
unfoldable pub zomes_entry_def : Bytes → List Zome → Result (Option EntryDef)
unfolding find_entry_def
zomes_entry_def t [] = ok none
zomes_entry_def t (z ∷ []) = do d ← or_err (find_entry_def t z.entries) no_definition; ok (some d)
zomes_entry_def t (z ∷ y ∷ zs) = elim (find_entry_def t z.entries) [
  | none ↦ zomes_entry_def t (y ∷ zs)
  | some d ↦ ok (some d)
]

-- `GetEntryDef`: the definition may be nil.
unfoldable pub get_entry_def : Bytes → List Zome → Result (Option EntryDef)
unfolding zomes_entry_def
get_entry_def t zomes =
    if bytes_equal t dna_entry_type
    then ok (some dna_entry_def)
    else if bytes_equal t agent_entry_type
    then ok (some agent_entry_def)
    else if bytes_equal t key_entry_type
    then ok (some key_entry_def)
    else zomes_entry_def t zomes

unfoldable pub private_entry_defs : List Zome → List EntryDef
unfolding private_defs
private_entry_defs [] = []
private_entry_defs (z ∷ zs) = private_defs z.entries ++ private_entry_defs zs

unfoldable pub get_zome : Bytes → List Zome → Result Zome
get_zome z_name [] = err unknown_zome
get_zome z_name (z ∷ zs) = if bytes_equal z.name z_name then ok z else get_zome z_name zs

-- `Call`, where `make_ribosome` makes the interpreter of a zome, which calls a function with the
-- arguments.
unfoldable pub call :
    (Zome → Result (FunctionDef → Result Bytes)) → Bytes → Bytes → Bytes → List Zome → Result Bytes
unfolding get_zome find_function valid_exposure
call make_ribosome zome_type function exposure_context zomes = do
  z ← get_zome zome_type zomes
  n ← make_ribosome z
  fn ← or_err (find_function function z.functions) no_definition
  _ ← guard (valid_exposure fn exposure_context) function_not_available
  n fn

-- The functions that are open to bridges, by the name of their zome.
abbrev pub BridgeSpec : Type 0
BridgeSpec = Map (Map Bool)

unfoldable pub check_bridge_spec : BridgeSpec → Bytes → Bytes → Bool
check_bridge_spec spec zome_type function = elim (lookup zome_type spec) [
  | none ↦ false
  | some f ↦ elim (lookup function f) [ none ↦ false | some b ↦ true ]
]

-- `funcs[f] = true` writes to the map made last, that of the zome with the name `last`.
unfoldable pub add_function : Bytes → Bytes → BridgeSpec → BridgeSpec
add_function last f spec = elim (lookup last spec) [
  | none ↦ spec
  | some funcs ↦ insert last (insert f true funcs) spec
]

-- The inner loop; it returns the name of the zome whose map was made last too.
unfoldable pub bridge_functions : Bytes → List Bytes → Bytes → BridgeSpec → Bytes × BridgeSpec
unfolding add_function
bridge_functions name [] last spec = (last, spec)
bridge_functions name (f ∷ fs) last spec = elim (lookup name spec) [
  | none ↦ bridge_functions name fs name (add_function name f (insert name [] spec))
  | some funcs ↦ bridge_functions name fs last (add_function last f spec)
]

unfoldable pub bridge_zomes : List Zome → Bytes → BridgeSpec → BridgeSpec
unfolding bridge_functions
bridge_zomes [] last spec = spec
bridge_zomes (z ∷ zs) last spec =
    let (last', spec') = bridge_functions z.name z.bridge_funcs last spec in
    bridge_zomes zs last' spec'

unfoldable pub make_bridge_spec : List Zome → BridgeSpec
unfolding bridge_zomes
make_bridge_spec zomes = bridge_zomes zomes [] []
