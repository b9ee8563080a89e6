-- ===== src/Ribosome/Literals.antt =====
-- jsribosome.go: a sanitized text between quotes is one literal of JavaScript with that text.
use holochain.Base.{
  Bytes, ℕ, ◌≡◌, refl, sym, subst, [], ◌∷◌, ◌++◌, Bool, false, ◌||◌, if◌then◌else◌, ◌==◌, arith,
  Option, none, some,
}
use holochain.Ribosome.{
  replace, backslash, quote, newline, tab, carriage_return, js_sanitize_string,
}
use holochain.Ribosome.Replaced.{each_byte, js_sanitize_string-marked}
use holochain.Ribosome.Marks.{
  escaped, escaped-plain, without_returns, has_mark, slash, line, tabulator, nothing, quoted, plain,
  making, replace-marked,
}

-- What a backslash and a byte stand for; the other escapes are not written here.
unfoldable pub unescape : ℕ → Option ℕ
unescape c =
    if c == backslash
    then some backslash
    else if c == quote
    then some quote
    else if c == 110
    then some newline
    else if c == 116
    then some tab
    else none

-- No line ends in a literal, and neither does the byte 226 stand in one here, with which the other
-- two line separators of JavaScript begin.
abbrev pub is_barred : ℕ → Bool
is_barred c = c == newline || (c == carriage_return || c == 226)

unfoldable pub and_byte : Option ℕ → Option (Bytes × Bytes) → Option (Bytes × Bytes)
and_byte none r = none
and_byte (some c) none = none
and_byte (some c) (some (s, rest)) = some (c ∷ s, rest)

-- A literal of JavaScript after its opening quote: its text, and what follows its closing quote.
unfoldable pub read_literal : Bytes → Option (Bytes × Bytes)
unfolding unescape and_byte
read_literal [] = none
read_literal (c ∷ []) = if c == quote then some ([], []) else none
read_literal (c ∷ d ∷ s) =
    let after = and_byte (unescape d) (read_literal s) in
    let later = if is_barred c then none else and_byte (some c) (read_literal (d ∷ s)) in
    if c == quote then some ([], d ∷ s) else if c == backslash then after else later

abbrev pub NoSeparator : Bytes → Type 0
NoSeparator [] = Unit {0}
NoSeparator (c ∷ s) = ((c == 226) ≡ false) × NoSeparator s

read_literal-quote : (rest : Bytes) → read_literal (quote ∷ rest) ≡ some ([], rest)
unfolding read_literal
read_literal-quote [] = refl
read_literal-quote (c ∷ rest) = refl

-- A plain byte in front of more.
read_literal-plain :
    (c : ℕ) (s : Bytes) {r : Bytes × Bytes}
    → (c == quote) ≡ false
    → (c == backslash) ≡ false
    → is_barred c ≡ false
    → read_literal s ≡ some r
    → read_literal (c ∷ s) ≡ some (c ∷ r.0, r.1)
unfolding read_literal
read_literal-plain c [] p q b h = cc
read_literal-plain c (d ∷ s) p q b h = rw (p, q, b, h) refl

-- An escaped byte in front of more.
read_literal-backslash :
    (d b : ℕ) (s : Bytes) {r : Bytes × Bytes}
    → unescape d ≡ some b
    → read_literal s ≡ some r
    → read_literal (backslash ∷ d ∷ s) ≡ some (b ∷ r.0, r.1)
unfolding read_literal
read_literal-backslash d b s e h = rw (e, h) refl

read_literal-escaped :
    (s rest : Bytes)
    → NoSeparator s
    → read_literal (each_byte escaped s ++ quote ∷ rest) ≡ some (without_returns s, rest)
unfolding each_byte escaped without_returns unescape
read_literal-escaped [] rest h = read_literal-quote rest
read_literal-escaped (c ∷ s) rest (far, h) =
    let ih = read_literal-escaped s rest h in
    let goal_of = λ (d : ℕ).
      read_literal (each_byte escaped (d ∷ s) ++ quote ∷ rest)
      ≡ some (without_returns (d ∷ s), rest) in
    elim (making c) [
      | slash e ↦
          subst goal_of (sym e) (
            read_literal-backslash backslash backslash (each_byte escaped s ++ quote ∷ rest) refl
              ih)
      | line e ↦
          subst goal_of (sym e)
            (read_literal-backslash 110 newline (each_byte escaped s ++ quote ∷ rest) refl ih)
      | tabulator e ↦
          subst goal_of (sym e)
            (read_literal-backslash 116 tab (each_byte escaped s ++ quote ∷ rest) refl ih)
      | nothing e ↦ subst goal_of (sym e) ih
      | quoted e ↦
          subst goal_of (sym e)
            (read_literal-backslash quote quote (each_byte escaped s ++ quote ∷ rest) refl ih)
      | plain n1 n2 n3 n4 n5 ↦
          let stays : (c == carriage_return) ≡ false = ground arith in
          rw (escaped-plain c n1 n2 n3 n4 n5, stays)
            (read_literal-plain c (each_byte escaped s ++ quote ∷ rest) (ground arith)
              (ground arith) (ground arith) ih)
    ]

-- A text without the byte 226 whose carriage returns aside nothing in it reads %%%slash, sanitized
-- and put before a closing quote, is read by JavaScript as one literal with that text less its
-- carriage returns, and what follows the quote is left.
pub read_literal-js_sanitize_string :
    (s rest : Bytes)
    → has_mark (without_returns s) ≡ false
    → NoSeparator s
    → read_literal (js_sanitize_string s ++ quote ∷ rest) ≡ some (without_returns s, rest)
unfolding replace
read_literal-js_sanitize_string s rest clean far =
    rw (js_sanitize_string-marked s, replace-marked s clean) (read_literal-escaped s rest far)
