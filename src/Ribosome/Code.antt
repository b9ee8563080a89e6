-- ===== src/Ribosome/Code.antt =====
-- jsribosome.go: the code that validates an action, and what its result means. `run` runs JavaScript.
use holochain.Base.{
  Bytes, List, [], ◌∷◌, ◌++◌, Bool, true, false, Option, none, some, if◌then◌else◌, bytes_equal,
  codes,
}
use holochain.Base.Result.{
  Result, ok, err, panic, validation_failed, execution_failed, not_boolean, format_not_implemented,
  ◌>>=◌, or_err, or_foreign,
}
use holochain.Chain.{Chain}
use holochain.Platform.{Content, text}
use holochain.Hash.{Hash, hash_string}
use holochain.Header.{Header}
use holochain.Entry.{EntryDef, data_format_links, data_format_json}
use holochain.Ribosome.{quote, js_sanitize_string}

abbrev pub data_format_string : Bytes
data_format_string = codes "string"

abbrev pub data_format_raw_js : Bytes
data_format_raw_js = codes "js"

-- A value of the interpreter; a string stands for what `ToString` makes of any other value.
pub data JsValue : Type 0 where
  js_null js_object : JsValue
  js_boolean : Bool → JsValue
  js_other : Bytes → JsValue

-- The interpreter, the texts of hashes and of times, and `json.Marshal` of a package's chain.
pub record Machine : Type 0 where
  pub run : Bytes → Option JsValue
  pub b58 : Bytes → Bytes
  pub format_time : Bytes → Bytes
  pub marshal_chain : Chain → Option Bytes

-- A text between quotes.
abbrev pub quoted_text : Bytes → Bytes
quoted_text s = quote ∷ (s ++ (quote ∷ []))

unfoldable pub parse_call : Bytes → Bytes
unfolding js_sanitize_string
parse_call s = codes "JSON.parse(" ++ (quote ∷ (js_sanitize_string s ++ (quote ∷ codes ")")))

-- `entry.Content().(string)` panics on other content.
unfoldable pub js_entry : EntryDef → Content → Result Bytes
unfolding js_sanitize_string parse_call
js_entry def (text s) =
    if bytes_equal def.data_format data_format_raw_js
    then ok s
    else if bytes_equal def.data_format data_format_string
    then ok (quote ∷ (js_sanitize_string s ++ (quote ∷ [])))
    else if bytes_equal def.data_format data_format_links
    then ok (parse_call s)
    else if bytes_equal def.data_format data_format_json
    then ok (parse_call s)
    else err format_not_implemented
js_entry def _ = panic

module _ (m : Machine) where
  unfoldable pub js_header : Option Header → Bytes
  unfolding hash_string
  js_header none = codes "{\"EntryLink\":\"\",\"Type\":\"\",\"Time\":\"\"}"
  js_header (some hd) =
      codes "{\"EntryLink\":"
      ++ (quoted_text (hash_string m.b58 hd.entry_link)
          ++ (codes ",\"Type\":"
              ++ (quoted_text hd.type
                  ++ (codes ",\"Time\":" ++ (quoted_text (m.format_time hd.time) ++ codes "}")))))

  unfoldable pub prepare_js_entry_args : EntryDef → Content → Option Header → Result Bytes
  unfolding js_entry js_header
  prepare_js_entry_args def e header = do
    args ← js_entry def e
    ok (args ++ (codes "," ++ js_header header))

-- What of an action is validated; the links are marshalled.
pub data Validated : Type 0 where
  put_of commit_of : Content → Option Header → Validated
  mod_of : Content → Option Header → Hash → Validated
  del_of : Hash → Validated
  link_of : Hash → Bytes → Validated

unfoldable pub prepare_js_validate_args : Machine → EntryDef → Validated → Result Bytes
unfolding prepare_js_entry_args hash_string parse_call
prepare_js_validate_args m def (put_of e header) = prepare_js_entry_args m def e header
prepare_js_validate_args m def (commit_of e header) = prepare_js_entry_args m def e header
prepare_js_validate_args m def (mod_of e header replaces) = do
  args ← prepare_js_entry_args m def e header
  ok (args ++ (codes "," ++ quoted_text (hash_string m.b58 replaces)))
prepare_js_validate_args m def (del_of h) = ok (quoted_text (hash_string m.b58 h))
prepare_js_validate_args m def (link_of base links) =
    ok (quoted_text (hash_string m.b58 base) ++ (codes "," ++ parse_call links))

abbrev pub validate_name : Validated → Bytes
validate_name (put_of e header) = codes "validatePut"
validate_name (commit_of e header) = codes "validateCommit"
validate_name (mod_of e header replaces) = codes "validateMod"
validate_name (del_of h) = codes "validateDel"
validate_name (link_of base links) = codes "validateLink"

-- `strings.Join(sources, `","`)`.
unfoldable pub join_sources : List Bytes → Bytes
join_sources [] = []
join_sources (s ∷ []) = s
join_sources (s ∷ t ∷ ts) = s ++ (codes "\",\"" ++ join_sources (t ∷ ts))

unfoldable pub mk_js_sources : List Bytes → Bytes
unfolding join_sources
mk_js_sources sources = codes "[\"" ++ (join_sources sources ++ codes "\"]")

-- The package is the chain in it, if there is one.
unfoldable pub js_package : Machine → Option Chain → Result Bytes
js_package m none = ok (codes "{}")
js_package m (some chain) = do
  j ← or_foreign (m.marshal_chain chain)
  ok (codes "{\"Chain\":" ++ (j ++ codes "}"))

unfoldable pub build_js_validate_action :
    Machine → Validated → EntryDef → Option Chain → List Bytes → Result Bytes
unfolding prepare_js_validate_args mk_js_sources js_package
build_js_validate_action m action def pkg sources = do
  args ← prepare_js_validate_args m def action
  pkg_obj ← js_package m pkg
  ok (
      validate_name action
      ++ (codes "("
          ++ (quoted_text def.name
              ++ (codes ","
                  ++ (args
                      ++ (codes ","
                          ++ (pkg_obj ++ (codes "," ++ (mk_js_sources sources ++ codes ")")))))))))

-- What the value of a validation says.
unfoldable pub verdict : JsValue → Result (Unit {0})
verdict (js_boolean true) = ok tt
verdict (js_boolean false) = err validation_failed
verdict _ = err not_boolean

unfoldable pub run_validate : Machine → Bytes → Result (Unit {0})
unfolding verdict
run_validate m code = do v ← or_err (m.run code) execution_failed; verdict v

-- `ValidateAction` of the JavaScript ribosome.
unfoldable pub js_validate_action :
    Machine → Validated → EntryDef → Option Chain → List Bytes → Result (Unit {0})
unfolding build_js_validate_action run_validate
js_validate_action m action def pkg sources = do
  code ← build_js_validate_action m action def pkg sources
  run_validate m code

-- `Receive`.
unfoldable pub receive_code : Bytes → Bytes → Bytes
unfolding js_sanitize_string
receive_code from msg =
    codes "JSON.stringify(receive("
    ++ (quoted_text from
        ++ (codes ",JSON.parse(" ++ (quote ∷ (js_sanitize_string msg ++ (quote ∷ codes ")))")))))
