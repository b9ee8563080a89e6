-- ===== src/Ribosome.antt =====
-- jsribosome.go: how texts get into the JavaScript code that is run.
pub mod Replaced
pub mod Literals
pub mod Marks
pub mod Code
pub mod Reads
pub mod Args
use holochain.Base.{
  Bytes, ℕ, zero, suc, ◌-◌, List, [], ◌∷◌, ◌++◌, Bool, true, false, if◌then◌else◌, length, codes,
  ◌==◌,
}
use holochain.Entry.{has_prefix}

-- `strings.Replace(s, old, replacement, -1)`, where `skip` bytes of a match are still to pass.
unfoldable pub replace_from : Bytes → Bytes → ℕ → Bytes → Bytes
unfolding has_prefix
replace_from old replacement skip [] = []
replace_from old replacement zero (c ∷ s) =
    if has_prefix (c ∷ s) old
    then replacement ++ replace_from old replacement (length old - 1) s
    else c ∷ replace_from old replacement zero s
replace_from old replacement (suc skip) (c ∷ s) = replace_from old replacement skip s

unfoldable pub replace : Bytes → Bytes → Bytes → Bytes
unfolding replace_from
replace old replacement s = replace_from old replacement 0 s

abbrev pub backslash : ℕ
backslash = 92

abbrev pub quote : ℕ
quote = 34

abbrev pub newline : ℕ
newline = 10

abbrev pub tab : ℕ
tab = 9

abbrev pub carriage_return : ℕ
carriage_return = 13

abbrev pub slash_mark : Bytes
slash_mark = codes "%%%slash%%%"

unfoldable pub js_sanitize_string : Bytes → Bytes
unfolding replace
js_sanitize_string s =
    let s1 = replace (backslash ∷ []) slash_mark s in
    let s2 = replace (newline ∷ []) (backslash ∷ codes "n") s1 in
    let s3 = replace (tab ∷ []) (backslash ∷ codes "t") s2 in
    let s4 = replace (carriage_return ∷ []) [] s3 in
    let s5 = replace (quote ∷ []) (backslash ∷ quote ∷ []) s4 in
    replace slash_mark (backslash ∷ backslash ∷ []) s5

-- The code of `Call`: the calling type is that of strings or that of JSON.
unfoldable pub string_call : Bytes → Bytes → Bytes
unfolding js_sanitize_string
string_call name params =
    name ++ (codes "(" ++ (quote ∷ (js_sanitize_string params ++ (quote ∷ codes ");"))))

unfoldable pub json_call : Bytes → Bytes → Bytes
unfolding js_sanitize_string
json_call name [] = codes "JSON.stringify(" ++ (name ++ codes "());")
json_call name (b ∷ params) =
    codes "JSON.stringify("
    ++ (name
        ++ (codes "(JSON.parse("
            ++ (quote ∷ (js_sanitize_string (b ∷ params) ++ (quote ∷ codes ")));")))))
