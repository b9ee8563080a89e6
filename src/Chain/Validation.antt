-- ===== src/Chain/Validation.antt =====
-- chain.go: the proofs about `Validate`.
use native.Mathlib.Numerals.{add-one}
use holochain.Base.{
  ℕ, zero, suc, ◌+◌, ◌≤◌, ◌<◌, ◌≡◌, refl, sym, ap, ◌∙◌, [], ◌∷◌, ◌++◌, Bool, true, false,
  Bool-cases, ◌↔◌, some, arith, ltb, ltb→lt, lt→ltb, le→ltb, if◌then◌else◌, length, get_elem?,
  get_elem?-total, get_elem?-bound, inl, inr, ◌⊎◌, bytes_equal_refl, bytes_equal, eq_of_bytes_equal,
  get_elem?-snoc, length-snoc, dec_lt,
}
use holochain.Base.Result.{
  Error, Result, ok, err, panic, header_mismatch, entry_mismatch, guard, ◌>>◌, ◌>>=◌, or_foreign,
  >>=-eq-ok, >>=_assoc,
}
use holochain.Platform.{Platform, Content}
use holochain.Hash.{Hash, equal}
use holochain.Entry.{entry_sum}
use holochain.Header.{Header, header_sum}
use holochain.Chain.{Chain, next_link, check_entry, check_link, validate_from, validate, appended}
use holochain.Chain.Linked.{
  IsAligned, IsLinked, appended-IsAligned, appended-sums, appended-entry_links,
}

pub equal_refl : (h : Hash) → equal h h ≡ true
unfolding equal
equal_refl h = ground (arith, bytes_equal_refl h)

-- `Equal` is equality of the bytes.
pub eq_of_equal : (h k : Hash) → equal h k ≡ true → h ≡ k
unfolding equal
eq_of_equal (x ∷ []) (y ∷ []) e = ground (arith, eq_of_bytes_equal (x ∷ []) (y ∷ []))
eq_of_equal [] k e = eq_of_bytes_equal [] k e
eq_of_equal (x ∷ y ∷ h) k e = eq_of_bytes_equal (x ∷ y ∷ h) k e
eq_of_equal (x ∷ []) [] e = ground arith
eq_of_equal (x ∷ []) (y ∷ z ∷ k) e = ground (arith, eq_of_bytes_equal (x ∷ []) (y ∷ z ∷ k))

-- The links that are compared: up to the third header from the end with the header that follows,
-- for the last two with the hash that the chain holds beside them.
pub record HasCheckedLinks (p : Platform) (c : Chain) : Type 0 where
  pub inner :
      (i : ℕ) (hd next : Header)
      → i + 2 < length c.headers
      → get_elem? c.headers i ≡ some hd
      → get_elem? c.headers (i + 1) ≡ some next
      → header_sum p hd ≡ ok next.header_link
  pub last_two :
      (i : ℕ) (hd : Header) (h : Hash)
      → length c.headers ≤ i + 2
      → get_elem? c.headers i ≡ some hd
      → get_elem? c.hashes i ≡ some h
      → header_sum p hd ≡ ok h

pub record HasCheckedEntries (p : Platform) (c : Chain) : Type 0 where
  pub entry_links :
      (i : ℕ) (hd : Header) (e : Content)
      → get_elem? c.headers i ≡ some hd
      → get_elem? c.entries i ≡ some e
      → entry_sum p e ≡ ok hd.entry_link

guarded_link {ℓ} :
    {A : Type ℓ} (r : Result Hash) (n : Hash) (x : Error) (m : Result A) {a : A}
    → (do h ← r; guard (equal h n) x; m) ≡ ok a
    → r ≡ ok n
guarded_link (ok h) n x m q = ground (arith, eq_of_equal h n)
guarded_link (err y) n x m q = cc
guarded_link panic n x m q = cc

guarded_entry :
    (r : Result Hash) (n : Hash) (x : Error)
    → (do h ← r; guard (bytes_equal h n) x) ≡ ok tt
    → r ≡ ok n
guarded_entry (ok h) n x q = ground (arith, eq_of_bytes_equal h n)
guarded_entry (err y) n x q = cc
guarded_entry panic n x q = cc

module _ (p : Platform) where
  module _ (c : Chain) (a : IsAligned c) where
    module _ (l : HasCheckedLinks p c) (i : ℕ) (hd : Header)
        (at : get_elem? c.headers i ≡ some hd) where
      next_link-sum : (n : Hash) × (next_link c i ≡ ok n) × (header_sum p hd ≡ ok n)
      unfolding next_link
      next_link-sum = elim (Bool-cases (ltb (i + 2) (length c.headers))) [
        | inl more ↦
            let within = ltb→lt (i + 2) (length c.headers) more in
            let (next, at') = get_elem?-total c.headers (i + 1) (omega arith) in
            (next.header_link, rw (more, at'), l.inner i hd next within at at')
        | inr last ↦
            let within = get_elem?-bound c.headers i at in
            let (h, at') = get_elem?-total c.hashes i (omega (arith, a.hashes)) in
            (h, rw (last, at'), l.last_two i hd h (ground arith) at at')
      ]

    module _ (l : HasCheckedEntries p c) (i : ℕ) (hd : Header)
        (at : get_elem? c.headers i ≡ some hd) where
      check_entry-ok : check_entry p hd i c ≡ ok tt
      unfolding check_entry entry_sum
      check_entry-ok =
          let within = get_elem?-bound c.headers i at in
          let (e, at') = get_elem?-total c.entries i (omega (arith, a.entries)) in
          ground (arith, l.entry_links i hd e at at', bytes_equal_refl hd.entry_link)

    module _ (skip : Bool) (l : HasCheckedLinks p c)
        (es : skip ≡ false → HasCheckedEntries p c) where
      check_link-ok : (i : ℕ) → i < length c.headers → check_link p skip i c ≡ ok tt
      unfolding check_link
      check_link-ok i within =
          let (hd, at) = get_elem?-total c.headers i within in
          let (n, next, s) = next_link-sum l i hd at in
          rw (at, s, next, equal_refl n) (rest hd at (Bool-cases skip))
        where
          rest :
              (hd : Header)
              → get_elem? c.headers i ≡ some hd
              → (skip ≡ true) ⊎ (skip ≡ false)
              → (if skip then ok tt else check_entry p hd i c) ≡ ok tt
          rest hd at (inl yes') = rw yes'
          rest hd at (inr no') = rw no' (check_entry-ok (es no') i hd at)

      validate_from-ok :
          (rounds i : ℕ) → i + rounds ≡ length c.headers → validate_from p skip rounds i c ≡ ok tt
      unfolding validate_from
      validate_from-ok zero i n = refl
      validate_from-ok (suc rounds) i n =
          rw (check_link-ok i (omega arith)) (validate_from-ok rounds (i + 1) (omega arith))

  -- The other way: what one round of the loop establishes.
  module _ (skip : Bool) (c : Chain) where
    check_link-sum :
        (i : ℕ) (hd : Header) (n : Hash)
        → check_link p skip i c ≡ ok tt
        → get_elem? c.headers i ≡ some hd
        → next_link c i ≡ ok n
        → header_sum p hd ≡ ok n
    unfolding check_link
    check_link-sum i hd n k at next =
        guarded_link (header_sum p hd) n (header_mismatch i) _ (rw (at, next) at k)

    check_link_rest :
        (i : ℕ) (hd : Header)
        → skip ≡ false
        → check_link p skip i c ≡ ok tt
        → get_elem? c.headers i ≡ some hd
        → check_entry p hd i c ≡ ok tt
    unfolding check_link
    check_link_rest i hd s k at = ground arith

    check_link-entry :
        (i : ℕ) (hd : Header) (e : Content)
        → skip ≡ false
        → check_link p skip i c ≡ ok tt
        → get_elem? c.headers i ≡ some hd
        → get_elem? c.entries i ≡ some e
        → entry_sum p e ≡ ok hd.entry_link
    unfolding entry_sum check_entry
    check_link-entry i hd e s k at at' =
        guarded_entry (entry_sum p e) hd.entry_link (entry_mismatch i)
          (>>=_assoc (or_foreign (p.encode e)) _ _ ∙ rw at' at (check_link_rest i hd s k at))

    check_link_of_validate_from :
        (rounds i j : ℕ)
        → validate_from p skip rounds i c ≡ ok tt
        → i ≤ j
        → j < i + rounds
        → check_link p skip j c ≡ ok tt
    unfolding validate_from
    check_link_of_validate_from zero i j v low high = absurd (omega arith)
    check_link_of_validate_from (suc rounds) i j v low high =
        let (_, now, later) = >>=-eq-ok (check_link p skip i c) _ v in
        elim (dec_lt i j) [
          | yes past ↦
              check_link_of_validate_from rounds (i + 1) j later (omega arith) (omega arith)
          | no here ↦ let same : i ≡ j = omega arith in rw same at now
        ]

  module _ (skip : Bool) (c : Chain) (a : IsAligned c) (v : validate p skip c ≡ ok tt) where
    checked : (i : ℕ) → i < length c.headers → check_link p skip i c ≡ ok tt
    unfolding validate
    checked i within =
        check_link_of_validate_from skip c (length c.headers) 0 i v (omega arith) (omega arith)

    HasCheckedLinks-of_validate : HasCheckedLinks p c
    unfolding next_link
    HasCheckedLinks-of_validate = record {
      inner = λ i hd next within at at'.
          check_link-sum skip c i hd next.header_link (checked i (get_elem?-bound c.headers i at))
            at (rw (lt→ltb (i + 2) (length c.headers) within, at'));
      last_two = λ i hd h last at at'.
          check_link-sum skip c i hd h (checked i (get_elem?-bound c.headers i at)) at
            (rw (le→ltb (i + 2) (length c.headers) last, at'));
    }

    HasCheckedEntries-of_validate : skip ≡ false → HasCheckedEntries p c
    HasCheckedEntries-of_validate s = record {
      entry_links = λ i hd e at at'.
          check_link-entry skip c i hd e s (checked i (get_elem?-bound c.headers i at)) at at';
    }

  -- On an aligned chain `Validate` succeeds exactly if every header but the last two hashes to the
  -- header link of the next one, the last two hash to their stored hashes and, when entries are
  -- not skipped, every entry hashes to its header's entry link.
  pub validate_iff :
      (skip : Bool) (c : Chain)
      → IsAligned c
      → (validate p skip c ≡ ok tt) ↔ (HasCheckedLinks p c × (skip ≡ false → HasCheckedEntries p c))
  unfolding validate
  validate_iff skip c a = (
    λ v. (HasCheckedLinks-of_validate skip c a v, HasCheckedEntries-of_validate skip c a v),
    λ l. validate_from-ok c a skip l.0 l.1 (length c.headers) 0 (omega arith),
  )

  -- In a linked chain each header links to the one before it.
  sum_of_next :
      (c : Chain)
      → IsLinked p c
      → (i : ℕ) (hd next : Header) → get_elem? c.headers i ≡ some hd
      → get_elem? c.headers (i + 1) ≡ some next
      → header_sum p hd ≡ ok next.header_link
  sum_of_next c l i hd next at at' =
      let within = get_elem?-bound c.headers i at in
      let (h, here) = get_elem?-total c.hashes i (omega (arith, l.aligned.hashes)) in
      let at'' : get_elem? c.headers (suc i) ≡ some next = rw (← add-one i) at' in
      l.sums i hd h at here ∙ ap ok (sym (l.header_links i next h at'' here))

  IsLinked-HasCheckedLinks : (c : Chain) → IsLinked p c → HasCheckedLinks p c
  IsLinked-HasCheckedLinks c l = record {
    inner = λ i hd next within. sum_of_next c l i hd next;
    last_two = λ i hd h last at at'. l.sums i hd h at at';
  }

  IsLinked-HasCheckedEntries : (c : Chain) → IsLinked p c → HasCheckedEntries p c
  IsLinked-HasCheckedEntries c l = record { entry_links = l.entry_links }

  -- A linked chain passes `Validate`, with its entries or without.
  pub validate-IsLinked : (skip : Bool) (c : Chain) → IsLinked p c → validate p skip c ≡ ok tt
  validate-IsLinked skip c l =
      (validate_iff skip c l.aligned).1
        (IsLinked-HasCheckedLinks c l, λ s. IsLinked-HasCheckedEntries c l)

  -- On top of a linked chain `Validate` accepts any header that has its own hash and its entry's
  -- hash, whatever it links to: the link of the latest header is never compared.
  pub validate-unlinked_top :
      (skip : Bool) (c : Chain) (i : ℕ) (h : Hash) (hd : Header) (e : Content)
      → IsLinked p c
      → header_sum p hd ≡ ok h
      → entry_sum p e ≡ ok hd.entry_link
      → validate p skip (appended p i h hd e c) ≡ ok tt
  validate-unlinked_top skip c i h hd e l s es =
      (validate_iff skip (appended p i h hd e c) (appended-IsAligned p c h hd e l i)).1
        (links, λ _. record { entry_links = appended-entry_links p c h hd e l i es })
    where
      old_header :
          (j : ℕ) (x : Header)
          → j < length c.headers
          → get_elem? (c.headers ++ hd ∷ []) j ≡ some x
          → get_elem? c.headers j ≡ some x
      old_header j x within at = ground (arith, get_elem?-snoc c.headers hd j)

      links : HasCheckedLinks p (appended p i h hd e c)
      links = record {
        inner = λ j x next within at at'.
            let n = length-snoc c.headers hd in
            sum_of_next c l j x next (old_header j x (omega (arith, n)) at)
              (old_header (j + 1) next (omega (arith, n)) at');
        last_two = λ j x k last at at'. appended-sums p c h hd e l i s j x k at at';
      }
