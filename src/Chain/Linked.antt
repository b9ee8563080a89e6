-- ===== src/Chain/Linked.antt =====
-- The hash links of a chain, and what extending it by one header does to them.
use holochain.Base.{
  Bytes, ℕ, suc, ◌-◌, ◌<◌, ◌≡◌, refl, ap, ◌∙◌, [], ◌∷◌, ◌++◌, List, Option, some, arith, length,
  get_elem?, length-snoc, get_elem?-snoc, snoc-cases, snoc_pair-cases, get_elem?-bound, inl, inr,
  ◌⊎◌,
}
use holochain.Base.Result.{ok}
use holochain.Platform.{Platform, Content}
use holochain.Hash.{Hash, null_hash}
use holochain.Entry.{entry_sum}
use holochain.Header.{Header, header_sum}
use holochain.Chain.{Chain, new_chain, previous_hash, appended}

-- Each list has one item for each header.
pub record IsAligned (c : Chain) : Type 0 where
  pub hashes : length c.hashes ≡ length c.headers
  pub entries : length c.entries ≡ length c.headers

-- Every header has its own hash beside it, the hash of its entry inside, and the hash of the header
-- before it as its link.
pub record IsLinked (p : Platform) (c : Chain) : Type 0 where
  pub aligned : IsAligned c
  pub sums :
      (i : ℕ) (hd : Header) (h : Hash)
      → get_elem? c.headers i ≡ some hd
      → get_elem? c.hashes i ≡ some h
      → header_sum p hd ≡ ok h
  pub entry_links :
      (i : ℕ) (hd : Header) (e : Content)
      → get_elem? c.headers i ≡ some hd
      → get_elem? c.entries i ≡ some e
      → entry_sum p e ≡ ok hd.entry_link
  pub first_link : (hd : Header) → get_elem? c.headers 0 ≡ some hd → hd.header_link ≡ null_hash
  pub header_links :
      (i : ℕ) (hd : Header) (h : Hash)
      → get_elem? c.headers (suc i) ≡ some hd
      → get_elem? c.hashes i ≡ some h
      → hd.header_link ≡ h

-- The previous hash is the last one, or the null hash of an empty chain.
previous_hash-last :
    (hs : List Hash) (h : Hash)
    → previous_hash hs ≡ ok h
    → ((hs ≡ []) × (h ≡ null_hash)) ⊎ ((i : ℕ) × (suc i ≡ length hs) × (get_elem? hs i ≡ some h))
unfolding previous_hash
previous_hash-last [] h q = inl (refl, ground arith)
previous_hash-last (x ∷ hs) h q = inr (length (x ∷ hs) - 1, omega arith, ground arith)

module _ (p : Platform) (c : Chain) (h : Hash) (hd : Header) (e : Content) (l : IsLinked p c) where
  open l use {aligned}

  pub appended-IsAligned : (i : ℕ) → IsAligned (appended p i h hd e c)
  appended-IsAligned i = record {
    hashes = omega (arith, aligned.hashes, length-snoc c.hashes h, length-snoc c.headers hd);
    entries = omega (arith, aligned.entries, length-snoc c.entries e, length-snoc c.headers hd);
  }

  pub appended-sums :
      (i : ℕ)
      → header_sum p hd ≡ ok h
      → (j : ℕ) (hd' : Header) (h' : Hash) → get_elem? (appended p i h hd e c).headers j ≡ some hd'
      → get_elem? (appended p i h hd e c).hashes j ≡ some h'
      → header_sum p hd' ≡ ok h'
  appended-sums i hs j hd' h' a b =
      elim (snoc_pair-cases c.headers hd c.hashes h j aligned.hashes a b) [
        | inl (_, new, new') ↦ cc (new, new', hs)
        | inr (old, old') ↦ l.sums j hd' h' old old'
      ]

  pub appended-entry_links :
      (i : ℕ)
      → entry_sum p e ≡ ok hd.entry_link
      → (j : ℕ) (hd' : Header) (e' : Content)
      → get_elem? (appended p i h hd e c).headers j ≡ some hd'
      → get_elem? (appended p i h hd e c).entries j ≡ some e'
      → entry_sum p e' ≡ ok hd'.entry_link
  appended-entry_links i es j hd' e' a b =
      elim (snoc_pair-cases c.headers hd c.entries e j aligned.entries a b) [
        | inl (_, new, new') ↦ cc (new, new', es)
        | inr (old, old') ↦ l.entry_links j hd' e' old old'
      ]

  -- The new header links to the last hash.
  new_link :
      (i : ℕ) (h' : Hash)
      → previous_hash c.hashes ≡ ok hd.header_link
      → suc i ≡ length c.hashes
      → get_elem? c.hashes i ≡ some h'
      → hd.header_link ≡ h'
  new_link i h' ps n g = elim (previous_hash-last c.hashes hd.header_link ps) [
    | inl (z, _) ↦ absurd (omega (arith, ap length z))
    | inr (j, m, k) ↦ let same : j ≡ i = omega arith in cc (same, k, g)
  ]

  first_is_null :
      previous_hash c.hashes ≡ ok hd.header_link → length c.headers ≡ 0 → hd.header_link ≡ null_hash
  first_is_null ps n = elim (previous_hash-last c.hashes hd.header_link ps) [
    | inl (_, null) ↦ null
    | inr (j, m, _) ↦ absurd (omega (arith, aligned.hashes))
  ]

  -- A chain extended by a header that links to its last hash is linked.
  pub appended-IsLinked :
      (i : ℕ)
      → header_sum p hd ≡ ok h
      → entry_sum p e ≡ ok hd.entry_link
      → previous_hash c.hashes ≡ ok hd.header_link
      → IsLinked p (appended p i h hd e c)
  appended-IsLinked i hs es ps = record {
    aligned = appended-IsAligned i;
    sums = appended-sums i hs;
    entry_links = appended-entry_links i es;
    first_link = λ hd' a. elim (snoc-cases c.headers hd 0 a) [
      | inl (z, new) ↦ ap (λ (x : Header). x.header_link) new ∙ first_is_null ps (omega arith)
      | inr old ↦ l.first_link hd' old
    ];
    header_links = λ j hd' h' a b.
        let k : j < length c.hashes = omega (
          arith,
          get_elem?-bound (c.headers ++ hd ∷ []) (suc j) a,
          length-snoc c.headers hd,
          aligned.hashes,
        ) in
        let b' : get_elem? c.hashes j ≡ some h' = ground (arith, get_elem?-snoc c.hashes h j) in
        elim (snoc-cases c.headers hd (suc j) a) [
          | inl (at, new) ↦
              ap (λ (x : Header). x.header_link) new
              ∙ new_link j h' ps (omega (arith, aligned.hashes)) b'
          | inr old ↦ l.header_links j hd' h' old b'
        ];
  }

pub new_chain-IsLinked : (p : Platform) → IsLinked p new_chain
new_chain-IsLinked p = record {
  aligned = record { hashes = refl; entries = refl };
  sums = λ i hd h a b. cc;
  entry_links = λ i hd h a b. cc;
  first_link = λ hd a. cc;
  header_links = λ i hd h a b. cc;
}

-- What `addEntry` stores in memory does not depend on what the write to the stream does.
pub IsLinked-stream :
    (p : Platform) (c : Chain) (s : Option Bytes)
    → IsLinked p c
    → IsLinked p (record c { stream = s })
IsLinked-stream p c s l = record {
  aligned = record { hashes = l.aligned.hashes; entries = l.aligned.entries };
  sums = l.sums;
  entry_links = l.entry_links;
  first_link = l.first_link;
  header_links = l.header_links;
}
