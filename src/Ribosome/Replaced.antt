-- ===== src/Ribosome/Replaced.antt =====
-- jsribosome.go: the replacements of `jsSanitizeString`, as what they make of each byte.
use holochain.Base.{
  Bytes, ℕ, ◌≡◌, ◌∙◌, refl, sym, ap, [], ◌∷◌, ◌++◌, if◌then◌else◌, ◌==◌, inl, inr, Bool-cases,
  codes,
}
use mathlib.Core.List.{append_assoc}
use holochain.Entry.{has_prefix}
use holochain.Ribosome.{
  replace, backslash, quote, newline, tab, carriage_return, slash_mark, js_sanitize_string,
}

-- Each byte made into several.
unfoldable pub each_byte : (ℕ → Bytes) → Bytes → Bytes
each_byte f [] = []
each_byte f (c ∷ s) = f c ++ each_byte f s

pub each_byte-append :
    (f : ℕ → Bytes) (s t : Bytes) → each_byte f (s ++ t) ≡ each_byte f s ++ each_byte f t
unfolding each_byte
each_byte-append f [] t = refl
each_byte-append f (c ∷ s) t =
    ap (λ r. f c ++ r) (each_byte-append f s t)
    ∙ sym (append_assoc (f c) (each_byte f s) (each_byte f t))

abbrev pub swap_byte : ℕ → Bytes → ℕ → Bytes
swap_byte old replacement c = if c == old then replacement else c ∷ []

-- A replacement of a single byte.
pub replace-byte :
    (old : ℕ) (replacement s : Bytes)
    → replace (old ∷ []) replacement s ≡ each_byte (swap_byte old replacement) s
unfolding replace each_byte has_prefix
replace-byte old replacement [] = refl
replace-byte old replacement (c ∷ s) = elim (Bool-cases (c == old)) [
  | inl e ↦ rw e (ap (λ r. replacement ++ r) (replace-byte old replacement s))
  | inr e ↦ rw e (ap (λ r. c ∷ r) (replace-byte old replacement s))
]

-- What the first five replacements make of a byte.
unfoldable pub marked : ℕ → Bytes
marked c =
    if c == backslash
    then slash_mark
    else if c == newline
    then backslash ∷ codes "n"
    else if c == tab
    then backslash ∷ codes "t"
    else if c == carriage_return
    then []
    else if c == quote
    then backslash ∷ quote ∷ []
    else c ∷ []

each_byte-each_byte :
    (f g : ℕ → Bytes) (s : Bytes)
    → each_byte g (each_byte f s) ≡ each_byte (λ c. each_byte g (f c)) s
unfolding each_byte
each_byte-each_byte f g [] = refl
each_byte-each_byte f g (c ∷ s) =
    each_byte-append g (f c) (each_byte f s)
    ∙ ap (λ r. each_byte g (f c) ++ r) (each_byte-each_byte f g s)

each_byte_cong :
    (f g : ℕ → Bytes) (s : Bytes) → ((c : ℕ) → f c ≡ g c) → each_byte f s ≡ each_byte g s
unfolding each_byte
each_byte_cong f g [] h = refl
each_byte_cong f g (c ∷ s) h = rw (h c, each_byte_cong f g s h) refl

five_bytes :
    (c : ℕ)
    → each_byte (swap_byte quote (backslash ∷ quote ∷ [])) (
        each_byte (swap_byte carriage_return []) (
          each_byte (swap_byte tab (backslash ∷ codes "t")) (
            each_byte
              (swap_byte newline (backslash ∷ codes "n"))
              (swap_byte backslash slash_mark c))))
      ≡ marked c
unfolding each_byte marked
five_bytes c = elim (Bool-cases (c == backslash)) [
  | inl e ↦ rw e refl
  | inr e1 ↦ elim (Bool-cases (c == newline)) [
    | inl e ↦ rw (e1, e) refl
    | inr e2 ↦ elim (Bool-cases (c == tab)) [
      | inl e ↦ rw (e1, e2, e) refl
      | inr e3 ↦ elim (Bool-cases (c == carriage_return)) [
        | inl e ↦ rw (e1, e2, e3, e) refl
        | inr e4 ↦ elim (Bool-cases (c == quote)) [
          | inl e ↦ rw (e1, e2, e3, e4, e) refl
          | inr e5 ↦ rw (e1, e2, e3, e4, e5) refl
        ]
      ]
    ]
  ]
]

-- The string before the marks are replaced.
pub js_sanitize_string-marked :
    (s : Bytes)
    → js_sanitize_string s ≡ replace slash_mark (backslash ∷ backslash ∷ []) (each_byte marked s)
unfolding js_sanitize_string
js_sanitize_string-marked s =
    let f1 = swap_byte backslash slash_mark in
    let f2 = swap_byte newline (backslash ∷ codes "n") in
    let f3 = swap_byte tab (backslash ∷ codes "t") in
    let f4 = swap_byte carriage_return [] in
    let f5 = swap_byte quote (backslash ∷ quote ∷ []) in
    let g2 = λ (c : ℕ). each_byte f2 (f1 c) in
    let g3 = λ (c : ℕ). each_byte f3 (g2 c) in
    let g4 = λ (c : ℕ). each_byte f4 (g3 c) in
    let together : each_byte f5 (each_byte f4 (each_byte f3 (each_byte f2 (each_byte f1 s))))
        ≡ each_byte marked s =
      ap (λ t. each_byte f5 (each_byte f4 (each_byte f3 t))) (each_byte-each_byte f1 f2 s)
      ∙ ap (λ t. each_byte f5 (each_byte f4 t)) (each_byte-each_byte g2 f3 s)
      ∙ ap (each_byte f5) (each_byte-each_byte g3 f4 s)
      ∙ each_byte-each_byte g4 f5 s
      ∙ each_byte_cong (λ c. each_byte f5 (g4 c)) marked s five_bytes in
    rw
      (
        replace-byte backslash slash_mark s,
        replace-byte newline (backslash ∷ codes "n") (each_byte f1 s),
        replace-byte tab (backslash ∷ codes "t") (each_byte f2 (each_byte f1 s)),
        replace-byte carriage_return [] (each_byte f3 (each_byte f2 (each_byte f1 s))),
        replace-byte quote (backslash ∷ quote ∷ [])
            (each_byte f4 (each_byte f3 (each_byte f2 (each_byte f1 s)))),
      )
      (ap (replace slash_mark (backslash ∷ backslash ∷ [])) together)
