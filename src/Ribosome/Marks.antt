-- ===== src/Ribosome/Marks.antt =====
-- jsribosome.go: `jsSanitizeString` byte by byte, and why its mark for backslashes does no harm.
use holochain.Base.{
  Bytes, ℕ, ◌≡◌, ◌≢◌, refl, sym, ap, subst, [], ◌∷◌, ◌++◌, Bool, true, false, ◌||◌, if◌then◌else◌,
  ◌==◌, arith, inl, inr, Bool-cases, codes, ℕ_discrete, ◌&&◌, &&_iff,
}
use holochain.Entry.{has_prefix}
use holochain.Ribosome.{replace_from, backslash, quote, newline, tab, carriage_return, slash_mark}
use holochain.Ribosome.Replaced.{each_byte, marked}

-- What each byte becomes in the end.
unfoldable pub escaped : ℕ → Bytes
escaped c =
    if c == backslash
    then backslash ∷ backslash ∷ []
    else if c == newline
    then backslash ∷ codes "n"
    else if c == tab
    then backslash ∷ codes "t"
    else if c == carriage_return
    then []
    else if c == quote
    then backslash ∷ quote ∷ []
    else c ∷ []

-- The text without its carriage returns.
unfoldable pub without_returns : Bytes → Bytes
without_returns [] = []
without_returns (c ∷ s) =
    let rest = without_returns s in if c == carriage_return then rest else c ∷ rest

-- Whether a text has the start of the mark.
unfoldable pub has_mark : Bytes → Bool
unfolding has_prefix
has_mark [] = false
has_mark (c ∷ s) = has_prefix (c ∷ s) (codes "%%%slash") || has_mark s

-- A byte that is written as it is.
abbrev IsPlain : ℕ → Type 0
IsPlain c = marked c ≡ c ∷ []

-- What is special about a byte.
pub data Making (c : ℕ) : Type 0 where
  slash : c ≡ backslash → Making c
  line : c ≡ newline → Making c
  tabulator : c ≡ tab → Making c
  nothing : c ≡ carriage_return → Making c
  quoted : c ≡ quote → Making c
  plain : c ≢ backslash → c ≢ newline → c ≢ tab → c ≢ carriage_return → c ≢ quote → Making c

pub making : (c : ℕ) → Making c
making c = elim (ℕ_discrete c backslash) [
  | yes e ↦ slash e
  | no e1 ↦ elim (ℕ_discrete c newline) [
    | yes e ↦ line e
    | no e2 ↦ elim (ℕ_discrete c tab) [
      | yes e ↦ tabulator e
      | no e3 ↦ elim (ℕ_discrete c carriage_return) [
        | yes e ↦ nothing e
        | no e4 ↦ elim (ℕ_discrete c quote) [ yes e ↦ quoted e | no e5 ↦ plain e1 e2 e3 e4 e5 ]
      ]
    ]
  ]
]

module _ (c : ℕ) (n1 : c ≢ backslash) (n2 : c ≢ newline) (n3 : c ≢ tab) (n4 : c ≢ carriage_return)
    (n5 : c ≢ quote) where
  marked-plain : marked c ≡ c ∷ []
  unfolding marked
  marked-plain = ground arith

  pub escaped-plain : escaped c ≡ c ∷ []
  unfolding escaped
  escaped-plain = ground arith

abbrev slash_end : Bytes
slash_end = codes "%%%"

-- A part of the start of the mark that a text can only have as it is.
data IsTail : Bytes → Type 0 where
  done : IsTail []
  more :
      {part : Bytes}
      → (r : ℕ) → (r == backslash) ≡ false
      → ((rest : Bytes) → has_prefix (slash_mark ++ rest) ((r ∷ part) ++ slash_end) ≡ false)
      → IsTail part
      → IsTail (r ∷ part)

seven-IsTail : IsTail (codes "%%slash")
unfolding has_prefix
seven-IsTail =
    more 37 refl (λ r. refl)
      (more 37 refl (λ r. refl)
        (more 115 refl (λ r. refl)
          (more 108 refl (λ r. refl)
            (more 97 refl (λ r. refl)
              (more 115 refl (λ r. refl) (more 104 refl (λ r. refl) done))))))

apart_bits : {b : Bool} → b ≡ true → b ≡ false → ⊥
apart_bits h k = cc

-- Where a marked text goes on with the mark, the text itself goes on with its start.
mark_part :
    (part s : Bytes)
    → IsTail part
    → has_prefix (each_byte marked s) (part ++ slash_end) ≡ true
    → has_prefix (without_returns s) part ≡ true
unfolding has_prefix each_byte without_returns marked
mark_part [] s done h = refl
mark_part (r ∷ part) [] (more _ _ _ _) h = cc
mark_part (r ∷ part) (c ∷ s) (more _ apart unlike tail) h =
    let of_byte = λ (b : ℕ) (e : c ≡ b).
      subst (λ d. has_prefix (each_byte marked (d ∷ s)) ((r ∷ part) ++ slash_end) ≡ true) e h in
    elim (making c) [
      | slash e ↦
          let h' = of_byte backslash e in
          let u = unlike (each_byte marked s) in absurd (apart_bits h' u)
      | line e ↦ let h' = of_byte newline e in ground (arith, h')
      | tabulator e ↦ let h' = of_byte tab e in ground (arith, h')
      | nothing e ↦
          let h' = of_byte carriage_return e in
          subst (λ d. has_prefix (without_returns (d ∷ s)) (r ∷ part) ≡ true) (sym e)
            (mark_part (r ∷ part) s (more r apart unlike tail) h')
      | quoted e ↦ let h' = of_byte quote e in ground (arith, h')
      | plain n1 n2 n3 n4 n5 ↦
          let h' : (c == r && has_prefix (each_byte marked s) (part ++ slash_end)) ≡ true =
            subst (λ m. has_prefix (m ++ each_byte marked s) ((r ∷ part) ++ slash_end) ≡ true)
              (marked-plain c n1 n2 n3 n4 n5) h in
          let both = (&&_iff (c == r) (has_prefix (each_byte marked s) (part ++ slash_end))).0 h' in
          let stays : (c == carriage_return) ≡ false = ground arith in
          rw stays (
            (&&_iff (c == r) (has_prefix (without_returns s) part)).1
              (both.0, mark_part part s tail both.1))
    ]

rest_clean :
    (c : ℕ) (s : Bytes)
    → has_mark (without_returns (c ∷ s)) ≡ false
    → has_mark (without_returns s) ≡ false
unfolding has_mark without_returns
rest_clean c s h = elim (Bool-cases (c == carriage_return)) [
  | inl e ↦ rw e at h
  | inr e ↦ let h' = rw e at h in ground (arith, h')
]

-- A plain byte begins no mark in a text without the start of one.
plain_unmarked :
    (c : ℕ) (s : Bytes)
    → (c == carriage_return) ≡ false
    → has_mark (without_returns (c ∷ s)) ≡ false
    → has_prefix (c ∷ each_byte marked s) slash_mark ≡ false
unfolding has_mark without_returns has_prefix
plain_unmarked c s stays h = elim (Bool-cases (has_prefix (c ∷ each_byte marked s) slash_mark)) [
  | inr e ↦ e
  | inl e ↦
      let both =
        (&&_iff (c == 37) (has_prefix (each_byte marked s) (codes "%%slash" ++ slash_end))).0 e in
      let part = mark_part (codes "%%slash") s seven-IsTail both.1 in
      let h' = rw stays at h in ground (arith, h', both.0, part)
]

-- The last replacement finds the marks of the first one, and nothing else.
pub replace-marked :
    (s : Bytes)
    → has_mark (without_returns s) ≡ false
    → replace_from slash_mark (backslash ∷ backslash ∷ []) 0 (each_byte marked s)
      ≡ each_byte escaped s
unfolding each_byte replace_from has_prefix marked escaped
replace-marked [] h = refl
replace-marked (c ∷ s) h =
    let goal_of = λ (d : ℕ).
      replace_from slash_mark (backslash ∷ backslash ∷ []) 0 (each_byte marked (d ∷ s))
      ≡ each_byte escaped (d ∷ s) in
    let ih = replace-marked s (rest_clean c s h) in
    elim (making c) [
      | slash e ↦ subst goal_of (sym e) (ap (λ r. backslash ∷ backslash ∷ r) ih)
      | line e ↦ subst goal_of (sym e) (ap (λ r. backslash ∷ 110 ∷ r) ih)
      | tabulator e ↦ subst goal_of (sym e) (ap (λ r. backslash ∷ 116 ∷ r) ih)
      | nothing e ↦ subst goal_of (sym e) ih
      | quoted e ↦ subst goal_of (sym e) (ap (λ r. backslash ∷ quote ∷ r) ih)
      | plain n1 n2 n3 n4 n5 ↦
          rw (marked-plain c n1 n2 n3 n4 n5, escaped-plain c n1 n2 n3 n4 n5)
            (rw (plain_unmarked c s (ground arith) h) (ap (λ r. c ∷ r) ih))
    ]
