-- ===== src/Ribosome/Args/Kinds.antt =====
-- jsribosome.go: the values that `jsProcessArgs` stores are of the kinds that the functions of the
-- library assert.
use holochain.Base.{
  Bytes, ℕ, suc, ◌≡◌, refl, subst, List, [], ◌∷◌, Bool, true, false, Option, none, some,
  if◌then◌else◌, length, bytes_equal, ap,
}
use holochain.Base.Result.{Result, ok, >>=-eq-ok, ok_injective, or_foreign, or_panic}
use holochain.Zome.{Zome, get_entry_def}
use holochain.Entry.{data_format_links, data_format_json}
use holochain.Action.Args.{
  ArgType, Arg, hash_arg, string_arg, entry_arg, int_arg, bool_arg, map_arg, to_str_arg, args_arg,
  check_arg_count,
}
use holochain.Ribosome.Args.{
  ArgValue, text_value, hash_value, int_value, map_value, slice_value, bool_value, JsArg, js_string,
  js_bool, js_number, js_array, js_map, js_else, Otto, is_raw, js_string_arg, js_hash_arg,
  js_int_arg, js_bool_arg, js_map_arg, js_json, js_args_arg, js_to_str_arg, js_links_arg,
  js_entry_of, js_entry_arg, js_process_arg, js_process_from, js_process_args,
}

-- The type assertion that goes with a declared kind succeeds.
abbrev pub is_kind : ArgType → ArgValue → Bool
is_kind hash_arg (hash_value h) = true
is_kind int_arg (int_value n) = true
is_kind bool_arg (bool_value b) = true
is_kind map_arg (map_value m) = true
is_kind string_arg (text_value s) = true
is_kind entry_arg (text_value s) = true
is_kind to_str_arg (text_value s) = true
is_kind args_arg (text_value s) = true
is_kind _ _ = false

-- No array was given where a map is declared, and each value has its kind.
abbrev pub is_array : JsArg → Bool
is_array (js_array k) = true
is_array _ = false

abbrev pub NoArrays : List Arg → List JsArg → Type 0
NoArrays args [] = Unit {0}
NoArrays [] (a ∷ o_args) = Unit {0}
NoArrays (arg ∷ args) (a ∷ o_args) =
    (arg.type ≡ map_arg → is_array a ≡ false) × NoArrays args o_args

abbrev pub HaveKinds : List Arg → List ArgValue → Type 0
HaveKinds args [] = Unit {0}
HaveKinds [] (v ∷ vs) = ⊥
HaveKinds (arg ∷ args) (v ∷ vs) = (is_kind arg.type v ≡ true) × HaveKinds args vs

abbrev IsText : Result ArgValue → Type 0
IsText r = (v : ArgValue) → r ≡ ok v → is_kind string_arg v ≡ true

text_value-IsText : (s : Bytes) → IsText (ok (text_value s))
text_value-IsText s v e = subst (λ v. is_kind string_arg v ≡ true) (ok_injective e) refl

module _ (o : Otto) where
  js_json-IsText : (a : JsArg) → IsText (js_json o a)
  unfolding js_json
  js_json-IsText a v e =
      let (s, _, out) = >>=-eq-ok (or_foreign (o.stringify a)) (λ s. ok (text_value s)) e in
      text_value-IsText s v out

  js_string_arg-IsText : (n : ℕ) (a : JsArg) → IsText (js_string_arg o n a)
  unfolding js_string_arg
  js_string_arg-IsText n (js_string s) = text_value-IsText s
  js_string_arg-IsText n (js_bool b) = λ v e. cc
  js_string_arg-IsText n (js_number k) = λ v e. cc
  js_string_arg-IsText n (js_array k) = λ v e. cc
  js_string_arg-IsText n (js_map k) = λ v e. cc
  js_string_arg-IsText n (js_else k) = λ v e. cc

  js_args_arg-IsText : (n : ℕ) (a : JsArg) → IsText (js_args_arg o n a)
  unfolding js_args_arg
  js_args_arg-IsText n (js_string s) = text_value-IsText s
  js_args_arg-IsText n (js_bool b) = λ v e. cc
  js_args_arg-IsText n (js_number k) = λ v e. cc
  js_args_arg-IsText n (js_array k) = js_json-IsText (js_array k)
  js_args_arg-IsText n (js_map k) = js_json-IsText (js_map k)
  js_args_arg-IsText n (js_else k) = λ v e. cc

  js_to_str_arg-IsText : (a : JsArg) → IsText (js_to_str_arg o a)
  unfolding js_to_str_arg
  js_to_str_arg-IsText (js_string s) = text_value-IsText (o.text_of (js_string s))
  js_to_str_arg-IsText (js_bool b) = text_value-IsText (o.text_of (js_bool b))
  js_to_str_arg-IsText (js_number k) = text_value-IsText (o.text_of (js_number k))
  js_to_str_arg-IsText (js_array k) = js_json-IsText (js_array k)
  js_to_str_arg-IsText (js_map k) = js_json-IsText (js_map k)
  js_to_str_arg-IsText (js_else k) = text_value-IsText (o.text_of (js_else k))

  js_links_arg-IsText : (n : ℕ) (a : JsArg) → IsText (js_links_arg o n a)
  unfolding js_links_arg
  js_links_arg-IsText n (js_string s) = λ v e. cc
  js_links_arg-IsText n (js_bool b) = λ v e. cc
  js_links_arg-IsText n (js_number k) = λ v e. cc
  js_links_arg-IsText n (js_array k) = js_json-IsText (js_array k)
  js_links_arg-IsText n (js_map k) = js_json-IsText (js_map k)
  js_links_arg-IsText n (js_else k) = λ v e. cc

  IsText-if :
      (b : Bool) (r r' : Result ArgValue) → IsText r → IsText r' → IsText (if b then r else r')
  IsText-if true r r' h h' = h
  IsText-if false r r' h h' = h'

  js_entry_of-IsText : (format : Bytes) (n : ℕ) (a : JsArg) → IsText (js_entry_of o format n a)
  unfolding js_entry_of
  js_entry_of-IsText format n a = IsText-if (is_raw format) _ _ (js_string_arg-IsText n a) (
      IsText-if (bytes_equal format data_format_links) _ _ (js_links_arg-IsText n a)
        (IsText-if (bytes_equal format data_format_json) _ _ (js_json-IsText a) (λ v e. cc)))

  js_entry_arg-IsText :
      (zomes : List Zome) (n : ℕ) (before : Option JsArg) (a : JsArg)
      → IsText (js_entry_arg o zomes n before a)
  unfolding js_entry_arg
  js_entry_arg-IsText zomes n before a v e =
      let (b, _, e1) = >>=-eq-ok (or_panic before) _ e in
      let (entry_type, _, e2) = >>=-eq-ok (or_foreign (o.to_string b)) _ e1 in
      let (found, _, e3) = >>=-eq-ok (get_entry_def entry_type zomes) _ e2 in
      let (def, _, e4) = >>=-eq-ok (or_panic found) (λ def. js_entry_of o def.data_format n a) e3 in
      js_entry_of-IsText def.data_format n a v e4

  -- Each kind by itself.
  js_process_arg-kind :
      (zomes : List Zome) (n : ℕ) (type : ArgType) (before : Option JsArg) (a : JsArg)
      (v : ArgValue)
      → (type ≡ map_arg → is_array a ≡ false)
      → js_process_arg o zomes n type before a ≡ ok v
      → is_kind type v ≡ true
  unfolding js_process_arg js_hash_arg js_int_arg js_bool_arg js_map_arg
  js_process_arg-kind zomes n string_arg before a v k e = js_string_arg-IsText n a v e
  js_process_arg-kind zomes n entry_arg before a v k e = js_entry_arg-IsText zomes n before a v e
  js_process_arg-kind zomes n args_arg before a v k e = js_args_arg-IsText n a v e
  js_process_arg-kind zomes n to_str_arg before a v k e = js_to_str_arg-IsText a v e
  js_process_arg-kind zomes n hash_arg before (js_string s) v k e =
      let (h, _, out) = >>=-eq-ok (or_foreign (o.new_hash s)) (λ h. ok (hash_value h)) e in
      subst (λ v. is_kind hash_arg v ≡ true) (ok_injective out) refl
  js_process_arg-kind zomes n hash_arg before (js_bool b) v k e = cc
  js_process_arg-kind zomes n hash_arg before (js_number b) v k e = cc
  js_process_arg-kind zomes n hash_arg before (js_array b) v k e = cc
  js_process_arg-kind zomes n hash_arg before (js_map b) v k e = cc
  js_process_arg-kind zomes n hash_arg before (js_else b) v k e = cc
  js_process_arg-kind zomes n int_arg before (js_number i) v k e =
      let (h, _, out) = >>=-eq-ok (or_foreign (o.to_integer i)) (λ h. ok (int_value h)) e in
      subst (λ v. is_kind int_arg v ≡ true) (ok_injective out) refl
  js_process_arg-kind zomes n int_arg before (js_string b) v k e = cc
  js_process_arg-kind zomes n int_arg before (js_bool b) v k e = cc
  js_process_arg-kind zomes n int_arg before (js_array b) v k e = cc
  js_process_arg-kind zomes n int_arg before (js_map b) v k e = cc
  js_process_arg-kind zomes n int_arg before (js_else b) v k e = cc
  js_process_arg-kind zomes n bool_arg before (js_bool b) v k e =
      subst (λ v. is_kind bool_arg v ≡ true) (ok_injective e) refl
  js_process_arg-kind zomes n bool_arg before (js_string b) v k e = cc
  js_process_arg-kind zomes n bool_arg before (js_number b) v k e = cc
  js_process_arg-kind zomes n bool_arg before (js_array b) v k e = cc
  js_process_arg-kind zomes n bool_arg before (js_map b) v k e = cc
  js_process_arg-kind zomes n bool_arg before (js_else b) v k e = cc
  js_process_arg-kind zomes n map_arg before (js_map i) v k e =
      let (h, _, out) = >>=-eq-ok (or_foreign (o.export_value i)) (λ h. ok (map_value h)) e in
      subst (λ v. is_kind map_arg v ≡ true) (ok_injective out) refl
  js_process_arg-kind zomes n map_arg before (js_array b) v k e =
      let f = k refl in absurd (is_not f)
    where
      is_not : true ≡ false → ⊥
      is_not f = cc
  js_process_arg-kind zomes n map_arg before (js_string b) v k e = cc
  js_process_arg-kind zomes n map_arg before (js_bool b) v k e = cc
  js_process_arg-kind zomes n map_arg before (js_number b) v k e = cc
  js_process_arg-kind zomes n map_arg before (js_else b) v k e = cc

  js_process_from-kinds :
      (zomes : List Zome) (n : ℕ) (before : Option JsArg) (args : List Arg) (o_args : List JsArg)
      (vs : List ArgValue)
      → NoArrays args o_args
      → js_process_from o zomes n before args o_args ≡ ok vs
      → HaveKinds args vs × (length vs ≡ length o_args)
  unfolding js_process_from
  js_process_from-kinds zomes n before [] [] vs k e =
      subst (λ vs. HaveKinds [] vs × (length vs ≡ 0)) (ok_injective e) (tt, refl)
  js_process_from-kinds zomes n before (arg ∷ args) [] vs k e =
      subst (λ vs. HaveKinds (arg ∷ args) vs × (length vs ≡ 0)) (ok_injective e) (tt, refl)
  js_process_from-kinds zomes n before [] (a ∷ o_args) vs k e = cc
  js_process_from-kinds zomes n before (arg ∷ args) (a ∷ o_args) vs k e =
      let (v, here, rest) = >>=-eq-ok (js_process_arg o zomes n arg.type before a) _ e in
      let (ws, there, out) =
        >>=-eq-ok (js_process_from o zomes (suc n) (some a) args o_args) (λ ws. ok (v ∷ ws)) rest in
      let ih = js_process_from-kinds zomes (suc n) (some a) args o_args ws k.1 there in
      subst (λ vs. HaveKinds (arg ∷ args) vs × (length vs ≡ suc (length o_args))) (ok_injective out)
        ((js_process_arg-kind zomes n arg.type before a v k.0 here, ih.0), ap suc ih.1)

  -- Where no array is given for a declared map, `jsProcessArgs` stores one value for each argument
  -- that was given, of the kind that goes with its declaration: a hash, an integer, a Boolean, a
  -- map, or else a text.
  pub js_process_args-kinds :
      (zomes : List Zome) (args : List Arg) (o_args : List JsArg) (vs : List ArgValue)
      → NoArrays args o_args
      → js_process_args o zomes args o_args ≡ ok vs
      → HaveKinds args vs × (length vs ≡ length o_args)
  unfolding js_process_args
  js_process_args-kinds zomes args o_args vs k e =
      let (u, _, done) =
        >>=-eq-ok (check_arg_count args (length o_args))
          (λ u. js_process_from o zomes 1 none args o_args) e in
      js_process_from-kinds zomes 1 none args o_args vs k done

  -- An array where a map is declared is let through, and is no map.
  js_map_arg-array :
      (n k m : ℕ) → o.export_value k ≡ some m → js_map_arg o n (js_array k) ≡ ok (slice_value m)
  unfolding js_map_arg
  js_map_arg-array n k m e = rw e refl
