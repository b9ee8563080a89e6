-- ===== src/Tests/Scripts.antt =====
-- The theorems on the code for the JavaScript interpreter.
use holochain.Base.{
  Bytes, List, Option, length, bytes_equal, ◌≡◌, ◌↔◌, refl, [], ◌∷◌, ◌++◌, true, false, none, some,
  codes,
}
use holochain.Base.Result.{ok}
use holochain.Platform.{text}
use holochain.Entry.{EntryDef, has_prefix}
use holochain.Ribosome.{backslash, quote, newline, carriage_return, slash_mark, js_sanitize_string}
use holochain.Ribosome.Marks.{without_returns, has_mark}
use holochain.Ribosome.Literals.{read_literal, read_literal-js_sanitize_string}
use holochain.Chain.{new_chain}
use holochain.Ribosome.Code.{
  Machine, js_boolean, put_of, quoted_text, data_format_string, build_js_validate_action,
  js_package, js_validate_action,
}
use holochain.Zome.{Zome, get_entry_def, find_entry_def}
use holochain.Action.Args.{commit_args, check_arg_count}
use holochain.Ribosome.Args.{Otto, JsArg, js_string, text_value, js_process_args}
use holochain.Ribosome.Args.Kinds.{HaveKinds, js_process_args-kinds}
use holochain.Ribosome.Reads.{
  js_sanitize_string-slash_mark, after_entry, build_js_validate_action-reads,
  js_validate_action_iff,
}

-- A text that would end a literal: a backslash, a quote and a line end.
abbrev nasty : Bytes
nasty = codes "a\\\");" ++ (newline ∷ carriage_return ∷ codes "%b")

nasty-clean : has_mark (without_returns nasty) ≡ false
unfolding has_mark without_returns has_prefix
nasty-clean = refl

read_literal-js_sanitize_string_example :
    read_literal (js_sanitize_string nasty ++ quote ∷ codes ");")
    ≡ some (without_returns nasty, codes ");")
read_literal-js_sanitize_string_example =
    read_literal-js_sanitize_string nasty (codes ");") nasty-clean
      (refl, (refl, (refl, (refl, (refl, (refl, (refl, (refl, (refl, tt)))))))))

nasty-sanitized : js_sanitize_string nasty ≡ codes "a\\\\\\\");\\n%b"
unfolding js_sanitize_string has_prefix
nasty-sanitized = refl

js_sanitize_string-slash_mark_example :
    js_sanitize_string (slash_mark ++ codes "x") ≡ js_sanitize_string (backslash ∷ codes "x")
js_sanitize_string-slash_mark_example = js_sanitize_string-slash_mark (codes "x")

-- A machine for which everything is true.
abbrev machine : Machine
machine = record {
  run = λ code. some (js_boolean true);
  b58 = λ b. b;
  format_time = λ b. b;
  marshal_chain = λ c. some (codes "{}");
}

abbrev note_def : EntryDef
note_def = record { name = codes "note"; data_format = data_format_string; sharing = [] }

-- A package with an empty chain.
abbrev packed : Bytes
packed = codes "{\"Chain\":{}}"

is_packed : js_package machine (some new_chain) ≡ ok packed
unfolding js_package
is_packed = refl

build_js_validate_action-reads_example :
    (t : Bytes) × (build_js_validate_action machine
        (put_of (text nasty) none)
        note_def
        (some new_chain)
        (codes "ann" ∷ [])
      ≡ ok (codes "validatePut(" ++ (quoted_text note_def.name ++ (codes "," ++ (quote ∷ t)))))
    × (read_literal t
        ≡ some (
          without_returns nasty,
          after_entry machine note_def none (some new_chain) (codes "ann" ∷ []) packed,
        ))
build_js_validate_action-reads_example =
    build_js_validate_action-reads machine note_def none (some new_chain) (codes "ann" ∷ []) nasty
      packed refl is_packed nasty-clean
      (refl, (refl, (refl, (refl, (refl, (refl, (refl, (refl, (refl, tt)))))))))

js_validate_action_iff_example :
    (js_validate_action machine (put_of (text nasty) none) note_def none (codes "ann" ∷ []) ≡ ok tt)
    ↔ ((code : Bytes) × (build_js_validate_action machine
            (put_of (text nasty) none)
            note_def
            none
            (codes "ann" ∷ [])
          ≡ ok code)
        × (machine.run code ≡ some (js_boolean true)))
js_validate_action_iff_example =
    js_validate_action_iff machine note_def none none (codes "ann" ∷ []) (put_of (text nasty) none)

abbrev string_in : JsArg → Option Bytes
string_in (js_string s) = some s
string_in _ = none

-- An interpreter that makes the same text of every object.
abbrev toy_otto : Otto
toy_otto = record {
  new_hash = λ b. some b;
  to_integer = λ n. some n;
  stringify = λ a. some (codes "{}");
  to_string = λ a. string_in a;
  text_of = λ a. [];
  export_value = λ n. some n;
}

abbrev commit_given : List JsArg
commit_given = js_string (codes "note") ∷ js_string (codes "hello") ∷ []

abbrev notes : Zome
notes = record { name = codes "notes"; entries = note_def ∷ []; functions = []; bridge_funcs = [] }

commit_processed :
    js_process_args toy_otto (notes ∷ []) commit_args commit_given
    ≡ ok (text_value (codes "note") ∷ text_value (codes "hello") ∷ [])
unfolding js_process_args get_entry_def find_entry_def bytes_equal check_arg_count
commit_processed = refl

js_process_args-kinds_example :
    HaveKinds commit_args (text_value (codes "note") ∷ text_value (codes "hello") ∷ [])
    × (length (text_value (codes "note") ∷ text_value (codes "hello") ∷ []) ≡ length commit_given)
js_process_args-kinds_example =
    js_process_args-kinds toy_otto (notes ∷ []) commit_args commit_given
      (text_value (codes "note") ∷ text_value (codes "hello") ∷ []) ((λ e. refl), ((λ e. refl), tt))
      commit_processed
