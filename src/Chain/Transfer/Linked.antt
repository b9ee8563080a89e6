-- ===== src/Chain/Transfer/Linked.antt =====
-- chain.go: the proofs about the hashes that `UnmarshalChain` takes from the header links.
use mathlib.Core.List.{append-nil, append_assoc, map}
use holochain.Base.{
  Bytes, ℕ, suc, ◌+◌, ◌-◌, ◌<◌, ◌^◌, ◌≡◌, refl, sym, ap, ◌∙◌, List, [], ◌∷◌, ◌++◌, some, arith,
  length, get_elem?, get_elem?-total, get_elem?-bound, some_injective,
}
use holochain.Base.Result.{ok, >>=-eq-ok, or_foreign, or_foreign-eq-ok}
use holochain.Platform.{Platform, Content, IsLawful}
use holochain.Hash.{Hash, hash_string}
use holochain.Header.{Header, header_sum, marshal_header}
use holochain.Chain.{Chain, new_chain, key}
use holochain.Chain.Linked.{IsLinked}
use holochain.Chain.Transfer.{marshal_chain, unmarshal_chain, hash_or_nil, add_pair}
use holochain.Chain.Transfer.RoundTrip.{AreWirePairs, added, marshal_chain-added}

-- Hashes that agree with the links at each index, and one more.
links-hashes :
    (f : Header → Hash) (hs : List Header) (ks : List Hash) (last : Hash)
    → length ks ≡ suc (length hs)
    → ((i : ℕ) (hd : Header) (k : Hash)
        → get_elem? hs i ≡ some hd
        → get_elem? ks i ≡ some k
        → f hd ≡ k)
    → get_elem? ks (length hs) ≡ some last
    → map f hs ++ last ∷ [] ≡ ks
links-hashes f hs [] last n agree top = absurd (omega arith)
links-hashes f [] (k ∷ []) last n agree top = ap (λ k. k ∷ []) (sym (some_injective top))
links-hashes f [] (k ∷ l ∷ ks) last n agree top = absurd (omega arith)
links-hashes f (hd ∷ hs) (k ∷ ks) last n agree top =
    ap (◌∷◌ (f hd)) (links-hashes f hs ks last (omega arith) (λ i. agree (suc i)) top)
    ∙ ap (λ k. k ∷ ks) (agree 0 hd k refl refl)

module _ (p : Platform) (laws : IsLawful p) where
  abbrev link_of : Header → Hash
  link_of hd = hash_or_nil p (p.from_b58 (key p hd.header_link))

  key-b58 : (h : Hash) → length h ≡ 34 → key p h ≡ p.b58 h
  unfolding hash_string
  key-b58 [] n = absurd (omega arith)
  key-b58 (x ∷ h) n = refl

  sum_of : (hd : Header) (h : Hash) → header_sum p hd ≡ ok h → (b : Bytes) × (p.sum b ≡ some h)
  unfolding header_sum
  sum_of hd h e =
      let (b, m, q) = >>=-eq-ok (marshal_header hd) (λ b. or_foreign (p.sum b)) e in
      (b, or_foreign-eq-ok (p.sum b) q)

  link_of-linked :
      (c : Chain)
      → IsLinked p c
      → (i : ℕ) (hd : Header) (k : Hash) → get_elem? c.headers (suc i) ≡ some hd
      → get_elem? c.hashes i ≡ some k
      → i < length c.headers
      → link_of hd ≡ k
  link_of-linked c l i hd k at hash within =
      let (before, there) = get_elem?-total c.headers i within in
      let (b, e) = sum_of before k (l.sums i before k there hash) in
      ap (λ h. hash_or_nil p (p.from_b58 (key p h))) (l.header_links i hd k at hash)
      ∙ ap (λ t. hash_or_nil p (p.from_b58 t)) (key-b58 k (laws.sum-IsWireHash b k e).1)
      ∙ ap (hash_or_nil p) (laws.from_b58-b58 b k e)

  added-hashes :
      (i : ℕ) (hs : List Header) (es : List Content) (c : Chain)
      → AreWirePairs p hs es
      → (added p (suc i) hs es c).hashes ≡ c.hashes ++ map link_of hs
  unfolding AreWirePairs added add_pair
  added-hashes i [] [] c w = sym (append-nil c.hashes)
  added-hashes i [] (e ∷ es) c w = absurd w
  added-hashes i (hd ∷ hs) [] c w = absurd w
  added-hashes i (hd ∷ hs) (e ∷ es) c (w, ws) =
      let next : suc i + 1 ≡ suc (suc i) = omega arith in
      ap (λ n. (added p n hs es (add_pair p (some hd, some e) (suc i) c)).hashes) next
      ∙ added-hashes (suc i) hs es (add_pair p (some hd, some e) (suc i) c) ws
      ∙ append_assoc c.hashes (link_of hd ∷ []) (map link_of hs)

  restored :
      (c : Chain) (h : Hash) (hs : List Header) (es : List Content)
      → IsLinked p c
      → c.headers ≡ hs
      → AreWirePairs p hs es
      → 0 < length hs
      → get_elem? c.hashes (length hs - 1) ≡ some h
      → (added p 0 hs es new_chain).hashes ++ h ∷ [] ≡ c.hashes
  unfolding AreWirePairs added add_pair
  restored c h [] es l same w n top = absurd (omega arith)
  restored c h (hd ∷ hs) [] l same w n top = absurd w
  restored c h (hd ∷ hs) (e ∷ es) l same (w, ws) n top =
      let all = ap length same in
      let at_end : length hs ≡ suc (length hs) - 1 = omega arith in
      ap (λ ks. ks ++ h ∷ []) (added-hashes 0 hs es (add_pair p (some hd, some e) 0 new_chain) ws)
      ∙ links-hashes link_of hs c.hashes h (l.aligned.hashes ∙ all)
          (λ i x k at hash.
            link_of-linked c l i x k (ap (λ z. get_elem? z (suc i)) same ∙ at) hash
              (omega (arith, get_elem?-bound hs i at, all)))
          (ap (get_elem? c.hashes) at_end ∙ top)

  -- On a lawful platform a linked chain of at least one and fewer than 2^63 pairs, all of which
  -- fit the wire, is marshalled whole by `MarshalChain` without flags or lists, and
  -- `UnmarshalChain` of the bytes, followed by anything, gives a chain with the same headers,
  -- entries and hashes, and leaves what follows.
  pub unmarshal_chain-marshal_chain :
      (c : Chain) (rest : Bytes)
      → IsLinked p c
      → AreWirePairs p c.headers c.entries
      → 0 < length c.headers
      → length c.headers < 2 ^ 63
      → (b : Bytes) × (c' : Chain) × (marshal_chain p 0 [] [] c ≡ ok b)
        × (unmarshal_chain p (b ++ rest) ≡ ok ((0, c'), rest))
        × (c'.headers ≡ c.headers)
        × (c'.entries ≡ c.entries)
        × (c'.hashes ≡ c.hashes)
  unmarshal_chain-marshal_chain c rest l w n small =
      let (top, at) = get_elem?-total c.headers (length c.headers - 1) (omega arith) in
      let (h, hash) =
        get_elem?-total c.hashes (length c.headers - 1) (omega (arith, l.aligned.hashes)) in
      let (s, e) = sum_of top h (l.sums (length c.headers - 1) top h at hash) in
      let (b, c', m, u, hs, es, ks) =
        marshal_chain-added p laws c h rest (sym l.aligned.entries) small w hash
          (laws.sum-IsWireHash s h e).0 n in
      (b, c', m, u, hs, es, ks ∙ restored c h c.headers c.entries l refl w n hash)
