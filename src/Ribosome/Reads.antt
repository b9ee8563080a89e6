-- ===== src/Ribosome/Reads.antt =====
-- jsribosome.go: what the interpreter reads from the code that was built.
use mathlib.Core.List.{append_assoc}
use holochain.Base.{
  Bytes, ◌≡◌, ◌↔◌, ◌∙◌, refl, sym, ap, List, [], ◌∷◌, ◌++◌, true, false, Option, some, bytes_equal,
  codes,
}
use holochain.Base.Result.{ok, >>=-eq-ok, or_err-eq-ok, or_err, execution_failed}
use holochain.Platform.{text}
use holochain.Header.{Header}
use holochain.Chain.{Chain}
use holochain.Entry.{EntryDef}
use holochain.Ribosome.{backslash, quote, slash_mark, js_sanitize_string, string_call}
use holochain.Ribosome.Replaced.{each_byte, marked, js_sanitize_string-marked}
use holochain.Ribosome.Marks.{without_returns, has_mark}
use holochain.Ribosome.Literals.{read_literal, NoSeparator, read_literal-js_sanitize_string}
use holochain.Ribosome.Code.{
  Machine, JsValue, js_boolean, js_null, js_object, js_other, Validated, put_of, quoted_text,
  data_format_string, js_entry, js_header, prepare_js_entry_args, js_package, mk_js_sources,
  build_js_validate_action, verdict, run_validate, js_validate_action,
}

verdict-true : (v : JsValue) → verdict v ≡ ok tt → v ≡ js_boolean true
unfolding verdict
verdict-true (js_boolean true) h = refl
verdict-true (js_boolean false) h = cc
verdict-true js_null h = cc
verdict-true js_object h = cc
verdict-true (js_other s) h = cc

-- Sanitized, a text that begins with %%%slash%%% is the same as the text with a backslash in the
-- place of it.
pub js_sanitize_string-slash_mark :
    (s : Bytes) → js_sanitize_string (slash_mark ++ s) ≡ js_sanitize_string (backslash ∷ s)
unfolding each_byte marked
js_sanitize_string-slash_mark s =
    js_sanitize_string-marked (slash_mark ++ s) ∙ sym (js_sanitize_string-marked (backslash ∷ s))

-- The code of a call is the name, and one literal with the arguments.
pub string_call-reads :
    (name params : Bytes)
    → has_mark (without_returns params) ≡ false
    → NoSeparator params
    → (t : Bytes) × (string_call name params ≡ name ++ (codes "(" ++ (quote ∷ t)))
      × (read_literal t ≡ some (without_returns params, codes ");"))
unfolding string_call
string_call-reads name params clean far = (
  js_sanitize_string params ++ (quote ∷ codes ");"),
  refl,
  read_literal-js_sanitize_string params (codes ");") clean far,
)

module _ (m : Machine) (def : EntryDef) (header : Option Header) (pkg : Option Chain)
    (sources : List Bytes) where
  -- What follows the entry in the code.
  abbrev pub after_entry : Bytes → Bytes
  after_entry pkg_obj =
      (codes "," ++ js_header m header)
      ++ (codes "," ++ (pkg_obj ++ (codes "," ++ (mk_js_sources sources ++ codes ")"))))

  -- For a put of an entry in the string format, the code that validates it is the call of
  -- validatePut with the name of the definition and one literal that reads as the entry's text
  -- less its carriage returns, followed by the header, the package and the sources, if the package
  -- can be marshalled and the text has neither the byte 226 nor, carriage returns aside, %%%slash.
  pub build_js_validate_action-reads :
      (s pkg_obj : Bytes)
      → def.data_format ≡ data_format_string
      → js_package m pkg ≡ ok pkg_obj
      → has_mark (without_returns s) ≡ false
      → NoSeparator s
      → (t : Bytes) × (build_js_validate_action m (put_of (text s) header) def pkg sources
          ≡ ok (codes "validatePut(" ++ (quoted_text def.name ++ (codes "," ++ (quote ∷ t)))))
        × (read_literal t ≡ some (without_returns s, after_entry pkg_obj))
  unfolding build_js_validate_action prepare_js_entry_args js_entry bytes_equal
  build_js_validate_action-reads s pkg_obj format packed clean far =
      let entry = js_sanitize_string s ++ (quote ∷ []) in
      let head = codes "," ++ js_header m header in
      let tail = codes "," ++ (pkg_obj ++ (codes "," ++ (mk_js_sources sources ++ codes ")"))) in
      let one_literal : ((entry ++ head) ++ tail)
          ≡ js_sanitize_string s ++ (quote ∷ after_entry pkg_obj) =
        append_assoc entry head tail
        ∙ append_assoc (js_sanitize_string s) (quote ∷ []) (head ++ tail) in
      (
        js_sanitize_string s ++ (quote ∷ after_entry pkg_obj),
        rw (format, packed)
            (ap
              (λ l.
                ok (codes "validatePut(" ++ (quoted_text def.name ++ (codes "," ++ (quote ∷ l)))))
              one_literal),
        read_literal-js_sanitize_string s (after_entry pkg_obj) clean far,
      )

  -- The JavaScript ribosome accepts an action exactly if its code can be built and the
  -- interpreter's value of it is true.
  pub js_validate_action_iff :
      (action : Validated)
      → (js_validate_action m action def pkg sources ≡ ok tt) ↔ (
          (code : Bytes) × (build_js_validate_action m action def pkg sources ≡ ok code)
          × (m.run code ≡ some (js_boolean true)))
  unfolding js_validate_action run_validate
  js_validate_action_iff action = (
    λ h.
        let (code, built, ran) =
          >>=-eq-ok (build_js_validate_action m action def pkg sources)
            (λ code. run_validate m code) h in
        let (v, value, truth) =
          >>=-eq-ok (or_err (m.run code) execution_failed) (λ v. verdict v) ran in
        (
          code,
          built,
          or_err-eq-ok (m.run code) execution_failed value ∙ ap some (verdict-true v truth),
        ),
    λ (code, built, ran). rw (built, ran) refl,
  )
