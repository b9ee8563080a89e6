-- ===== src/Ribosome/Args.antt =====
-- jsribosome.go: `jsProcessArgs`, which turns what the application gives to a function of the library
-- into values of the declared kinds.
pub mod Kinds
use holochain.Base.{
  Bytes, ℕ, suc, List, [], ◌∷◌, Bool, true, false, ◌||◌, Option, none, some, if◌then◌else◌, length,
  bytes_equal, codes,
}
use holochain.Base.Result.{
  Result, ok, err, panic, wrong_argument, format_not_implemented, ◌>>=◌, ◌>>◌, or_foreign, or_panic,
}
use holochain.Hash.{Hash}
use holochain.Entry.{EntryDef, data_format_links, data_format_json}
use holochain.Zome.{Zome, get_entry_def}
use holochain.Action.Args.{
  ArgType, Arg, hash_arg, string_arg, entry_arg, int_arg, bool_arg, map_arg, to_str_arg, args_arg,
  check_arg_count,
}
use holochain.Ribosome.Code.{data_format_string, data_format_raw_js}

abbrev pub data_format_raw_zygo : Bytes
data_format_raw_zygo = codes "zygo"

-- What is stored in `args[i].value`; integers, which may be negative, maps and slices are named by a
-- number.
pub data ArgValue : Type 0 where
  text_value : Bytes → ArgValue
  hash_value : Hash → ArgValue
  int_value map_value slice_value : ℕ → ArgValue
  bool_value : Bool → ArgValue

-- A value of JavaScript; numbers, arrays, other objects and the rest are named by a number.
pub data JsArg : Type 0 where
  js_string : Bytes → JsArg
  js_bool : Bool → JsArg
  js_number js_array js_map js_else : ℕ → JsArg

-- otto and `NewHash`; `text_of` is what `ToString` returns, whether or not with an error.
pub record Otto : Type 0 where
  pub new_hash : Bytes → Option Hash
  pub to_integer : ℕ → Option ℕ
  pub stringify : JsArg → Option Bytes
  pub to_string : JsArg → Option Bytes
  pub text_of : JsArg → Bytes
  pub export_value : ℕ → Option ℕ

abbrev pub is_raw : Bytes → Bool
is_raw format =
    bytes_equal format data_format_raw_js
    || (bytes_equal format data_format_raw_zygo || bytes_equal format data_format_string)

module _ (o : Otto) where
  unfoldable pub js_string_arg : ℕ → JsArg → Result ArgValue
  js_string_arg n (js_string s) = ok (text_value s)
  js_string_arg n _ = err (wrong_argument n)

  unfoldable pub js_hash_arg : ℕ → JsArg → Result ArgValue
  js_hash_arg n (js_string s) = do h ← or_foreign (o.new_hash s); ok (hash_value h)
  js_hash_arg n _ = err (wrong_argument n)

  unfoldable pub js_int_arg : ℕ → JsArg → Result ArgValue
  js_int_arg n (js_number k) = do i ← or_foreign (o.to_integer k); ok (int_value i)
  js_int_arg n _ = err (wrong_argument n)

  unfoldable pub js_bool_arg : ℕ → JsArg → Result ArgValue
  js_bool_arg n (js_bool b) = ok (bool_value b)
  js_bool_arg n _ = err (wrong_argument n)

  unfoldable pub js_map_arg : ℕ → JsArg → Result ArgValue
  js_map_arg n (js_map k) = do m ← or_foreign (o.export_value k); ok (map_value m)
  js_map_arg n (js_array k) = do m ← or_foreign (o.export_value k); ok (slice_value m)
  js_map_arg n _ = err (wrong_argument n)

  unfoldable pub js_json : JsArg → Result ArgValue
  js_json a = do s ← or_foreign (o.stringify a); ok (text_value s)

  unfoldable pub js_args_arg : ℕ → JsArg → Result ArgValue
  unfolding js_json
  js_args_arg n (js_string s) = ok (text_value s)
  js_args_arg n (js_map k) = js_json (js_map k)
  js_args_arg n (js_array k) = js_json (js_array k)
  js_args_arg n _ = err (wrong_argument n)

  unfoldable pub js_to_str_arg : JsArg → Result ArgValue
  unfolding js_json
  js_to_str_arg (js_map k) = js_json (js_map k)
  js_to_str_arg (js_array k) = js_json (js_array k)
  js_to_str_arg a = ok (text_value (o.text_of a))

  unfoldable pub js_links_arg : ℕ → JsArg → Result ArgValue
  unfolding js_json
  js_links_arg n (js_map k) = js_json (js_map k)
  js_links_arg n (js_array k) = js_json (js_array k)
  js_links_arg n _ = err (wrong_argument n)

  unfoldable pub js_entry_of : Bytes → ℕ → JsArg → Result ArgValue
  unfolding js_string_arg js_links_arg js_json
  js_entry_of format n a =
      if is_raw format
      then js_string_arg n a
      else if bytes_equal format data_format_links
      then js_links_arg n a
      else if bytes_equal format data_format_json
      then js_json a
      else err format_not_implemented

  -- The entry type is the argument before, without which the index is out of range.
  unfoldable pub js_entry_arg : List Zome → ℕ → Option JsArg → JsArg → Result ArgValue
  unfolding get_entry_def js_entry_of
  js_entry_arg zomes n before a = do
    b ← or_panic before
    entry_type ← or_foreign (o.to_string b)
    found ← get_entry_def entry_type zomes
    def ← or_panic found
    js_entry_of def.data_format n a

  unfoldable pub js_process_arg : List Zome → ℕ → ArgType → Option JsArg → JsArg → Result ArgValue
  unfolding js_string_arg js_hash_arg js_int_arg js_bool_arg js_map_arg js_args_arg js_to_str_arg
      js_entry_arg
  js_process_arg zomes n string_arg before a = js_string_arg n a
  js_process_arg zomes n hash_arg before a = js_hash_arg n a
  js_process_arg zomes n int_arg before a = js_int_arg n a
  js_process_arg zomes n bool_arg before a = js_bool_arg n a
  js_process_arg zomes n args_arg before a = js_args_arg n a
  js_process_arg zomes n entry_arg before a = js_entry_arg zomes n before a
  js_process_arg zomes n map_arg before a = js_map_arg n a
  js_process_arg zomes n to_str_arg before a = js_to_str_arg a

  -- The loop, from argument number `n` on; `before` is the argument before it.
  unfoldable pub js_process_from :
      List Zome → ℕ → Option JsArg → List Arg → List JsArg → Result (List ArgValue)
  unfolding js_process_arg
  js_process_from zomes n before args [] = ok []
  js_process_from zomes n before [] (a ∷ o_args) = panic
  js_process_from zomes n before (arg ∷ args) (a ∷ o_args) = do
    v ← js_process_arg zomes n arg.type before a
    vs ← js_process_from zomes (suc n) (some a) args o_args
    ok (v ∷ vs)

  unfoldable pub js_process_args : List Zome → List Arg → List JsArg → Result (List ArgValue)
  unfolding check_arg_count js_process_from
  js_process_args zomes args o_args =
      check_arg_count args (length o_args) >> js_process_from zomes 1 none args o_args
