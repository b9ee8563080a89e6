-- ===== src/Action/Args.antt =====
-- action.go: the arguments of the actions that an application calls, and the check of their number.
use holochain.Base.{
  Bytes, ℕ, suc, List, [], ◌∷◌, Bool, true, false, not, ◌||◌, ltb, if◌then◌else◌, length, codes,
}
use holochain.Base.Result.{Result, ok, err, wrong_nargs}

pub data ArgType : Type 0 where
  hash_arg string_arg entry_arg int_arg bool_arg map_arg to_str_arg args_arg : ArgType

pub record Arg : Type 0 where
  pub name : Bytes
  pub type : ArgType
  pub optional : Bool

abbrev pub arg : Bytes → ArgType → Arg
arg name type = record { name = name; type = type; optional = false }

abbrev pub optional_arg : Bytes → ArgType → Arg
optional_arg name type = record { name = name; type = type; optional = true }

abbrev pub property_args : List Arg
property_args = arg (codes "name") string_arg ∷ []

abbrev pub debug_args : List Arg
debug_args = arg (codes "value") to_str_arg ∷ []

abbrev pub make_hash_args : List Arg
make_hash_args = arg (codes "entryType") string_arg ∷ arg (codes "entry") entry_arg ∷ []

abbrev pub commit_args : List Arg
commit_args = arg (codes "entryType") string_arg ∷ arg (codes "entry") entry_arg ∷ []

abbrev pub get_args : List Arg
get_args = arg (codes "hash") hash_arg ∷ optional_arg (codes "options") map_arg ∷ []

abbrev pub call_args : List Arg
call_args =
    arg (codes "zome") string_arg
    ∷ arg (codes "function") string_arg
    ∷ arg (codes "args") args_arg
    ∷ []

abbrev pub sign_args : List Arg
sign_args = arg (codes "doc") string_arg ∷ []

abbrev pub verify_signature_args : List Arg
verify_signature_args =
    arg (codes "signature") string_arg
    ∷ arg (codes "data") string_arg
    ∷ arg (codes "pubKey") string_arg
    ∷ []

abbrev pub bridge_args : List Arg
bridge_args =
    arg (codes "app") hash_arg
    ∷ arg (codes "zome") string_arg
    ∷ arg (codes "function") string_arg
    ∷ arg (codes "args") args_arg
    ∷ []

abbrev pub send_args : List Arg
send_args =
    arg (codes "to") hash_arg
    ∷ arg (codes "msg") map_arg
    ∷ optional_arg (codes "options") map_arg
    ∷ []

abbrev pub query_args : List Arg
query_args = optional_arg (codes "options") map_arg ∷ []

abbrev pub mod_args : List Arg
mod_args =
    arg (codes "entryType") string_arg
    ∷ arg (codes "entry") entry_arg
    ∷ arg (codes "replaces") hash_arg
    ∷ []

abbrev pub mod_agent_args : List Arg
mod_agent_args = arg (codes "options") map_arg ∷ []

abbrev pub del_args : List Arg
del_args = arg (codes "hash") hash_arg ∷ arg (codes "message") string_arg ∷ []

abbrev pub get_links_args : List Arg
get_links_args =
    arg (codes "base") hash_arg
    ∷ arg (codes "tag") string_arg
    ∷ optional_arg (codes "options") map_arg
    ∷ []

unfoldable pub min_args : List Arg → ℕ
min_args [] = 0
min_args (a ∷ args) = let rest = min_args args in if not a.optional then suc rest else rest

unfoldable pub check_arg_count : List Arg → ℕ → Result (Unit {0})
unfolding min_args
check_arg_count args l =
    if ltb l (min_args args) || ltb (length args) l then err wrong_nargs else ok tt
