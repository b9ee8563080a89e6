-- ===== src/Chain/Transfer/RoundTrip.antt =====
-- chain.go: the proofs about `MarshalChain` and `UnmarshalChain`, pair by pair.
use mathlib.Core.List.{append-nil, append_assoc}
use holochain.Base.{
  Bytes, ℕ, zero, suc, ◌+◌, ◌-◌, ◌<◌, ◌^◌, ◌≡◌, refl, sym, ap, ◌∙◌, List, [], ◌∷◌, ◌++◌, some,
  arith, length, ◌==◌, if◌then◌else◌, get_elem?, ==_iff, lt→ltb,
}
use holochain.Base.Map.{insert}
use holochain.Base.Result.{ok}
use holochain.Platform.{Platform, Content, IsLawful}
use holochain.Hash.{Hash}
use holochain.Hash.RoundTrip.{
  IsWireHash, wire_form, marshal_hash-wire_form, unmarshal_hash-wire_form,
}
use holochain.Wire.{put_uint}
use holochain.Wire.RoundTrip.{read_uint-put_uint}
use holochain.Entry.{marshal_entry}
use holochain.Entry.RoundTrip.{unmarshal_entry-marshal_entry}
use holochain.Header.{Header}
use holochain.Header.RoundTrip.{
  IsWireHeader, header_form, marshal_header-header_form, unmarshal_header-header_form,
}
use holochain.Chain.{Chain, new_chain, write_pair, write_header, filter_pass, key}
use holochain.Chain.Transfer.{
  pair_to_write, pairs_to_write, is_written, read_pair, write_pairs, write_last, marshal_chain,
  add_pair, read_pairs, read_last, unmarshal_chain, last_to_write,
}

module _ (p : Platform) where
  unfoldable pub IsWirePair : Header → Content → Type 0
  IsWirePair hd e = IsWireHeader hd × ((b : Bytes) × (p.encode e ≡ some b))

  -- Headers and entries, as many of the one as of the other, that fit the wire.
  unfoldable pub AreWirePairs : List Header → List Content → Type 0
  AreWirePairs [] [] = Unit
  AreWirePairs (hd ∷ hs) (e ∷ es) = IsWirePair hd e × AreWirePairs hs es
  AreWirePairs _ _ = ⊥

  pair_form : Header → Content → Bytes
  pair_form hd e = header_form hd ++ marshal_entry p e

  write_pair-pair_form :
      (hd : Header) (e : Content)
      → IsWirePair hd e
      → write_pair p (some hd) (some e) ≡ ok (pair_form hd e)
  unfolding write_pair write_header pair_form IsWirePair
  write_pair-pair_form hd e (w, s) = rw (marshal_header-header_form hd w) refl

  read_pair-pair_form :
      (laws : IsLawful p) (hd : Header) (e : Content) (rest : Bytes)
      → IsWirePair hd e
      → read_pair p 0 (pair_form hd e ++ rest) ≡ ok ((some hd, some e), rest)
  unfolding read_pair pair_form IsWirePair
  read_pair-pair_form laws hd e rest (w, (b, s)) =
      rw (append_assoc (header_form hd) (marshal_entry p e) rest) (
        rw (unmarshal_header-header_form hd (marshal_entry p e ++ rest) w)
          (rw (unmarshal_entry-marshal_entry p laws e b rest s) refl))

  pairs_to_write-cons :
      (i : ℕ) (hd : Header) (e : Content) (hs : List Header) (es : List Content)
      → pairs_to_write 0 [] [] i (hd ∷ hs) (e ∷ es)
        ≡ (some hd, some e) ∷ pairs_to_write 0 [] [] (i + 1) hs es
  unfolding pairs_to_write is_written pair_to_write filter_pass
  pairs_to_write-cons i hd e hs es = ground arith

  -- What reading pairs makes of a chain.
  unfoldable pub added : ℕ → List Header → List Content → Chain → Chain
  added i [] es c = c
  added i (hd ∷ hs) [] c = c
  added i (hd ∷ hs) (e ∷ es) c = added (i + 1) hs es (add_pair p (some hd, some e) i c)

  read_pairs-write_pairs :
      (laws : IsLawful p) (i : ℕ) (hs : List Header) (es : List Content)
      → AreWirePairs hs es
      → (body : Bytes) × (write_pairs p (pairs_to_write 0 [] [] i hs es) ≡ ok body)
        × ((c : Chain) (rest : Bytes)
            → read_pairs p 0 (length hs) i c (body ++ rest) ≡ ok (added i hs es c, rest))
  unfolding AreWirePairs pairs_to_write write_pairs read_pairs added
  read_pairs-write_pairs laws i [] [] w = ([], refl, λ c rest. refl)
  read_pairs-write_pairs laws i [] (e ∷ es) w = absurd w
  read_pairs-write_pairs laws i (hd ∷ hs) [] w = absurd w
  read_pairs-write_pairs laws i (hd ∷ hs) (e ∷ es) (w, ws) =
      let (body, written, back) = read_pairs-write_pairs laws (i + 1) hs es ws in
      (
        pair_form hd e ++ body,
        rw (pairs_to_write-cons i hd e hs es) (rw (write_pair-pair_form hd e w) (rw written refl)),
        λ c rest. rw (append_assoc (pair_form hd e) body rest) (
            rw (read_pair-pair_form laws hd e (body ++ rest) w)
              (back (add_pair p (some hd, some e) i c) rest)),
      )

  added-headers :
      (i : ℕ) (hs : List Header) (es : List Content) (c : Chain)
      → AreWirePairs hs es
      → ((added i hs es c).headers ≡ c.headers ++ hs)
        × ((added i hs es c).entries ≡ c.entries ++ es)
  unfolding AreWirePairs added add_pair
  added-headers i [] [] c w = (sym (append-nil c.headers), sym (append-nil c.entries))
  added-headers i [] (e ∷ es) c w = absurd w
  added-headers i (hd ∷ hs) [] c w = absurd w
  added-headers zero (hd ∷ hs) (e ∷ es) c (w, ws) =
      let (a, b) = added-headers 1 hs es (add_pair p (some hd, some e) 0 c) ws in
      (a ∙ append_assoc c.headers (hd ∷ []) hs, b ∙ append_assoc c.entries (e ∷ []) es)
  added-headers (suc i) (hd ∷ hs) (e ∷ es) c (w, ws) =
      let (a, b) = added-headers (suc i + 1) hs es (add_pair p (some hd, some e) (suc i) c) ws in
      (a ∙ append_assoc c.headers (hd ∷ []) hs, b ∙ append_assoc c.entries (e ∷ []) es)

  last_to_write-all :
      (last i : ℕ) (hs : List Header)
      → last_to_write [] last (i + 1) hs ≡ (if length hs == 0 then last else i + length hs)
  unfolding last_to_write is_written filter_pass
  last_to_write-all last i [] = omega arith
  last_to_write-all last i (hd ∷ hs) = ground (arith, last_to_write-all (i + 1) (i + 1) hs)

  last_to_write-top : (hs : List Header) → 0 < length hs → last_to_write [] 0 0 hs ≡ length hs - 1
  unfolding last_to_write is_written filter_pass
  last_to_write-top [] h = absurd (omega arith)
  last_to_write-top (hd ∷ hs) h = ground (arith, last_to_write-all 0 0 hs)

  length-pairs_to_write :
      (i : ℕ) (hs : List Header) (es : List Content)
      → length hs ≡ length es
      → length (pairs_to_write 0 [] [] i hs es) ≡ length hs
  unfolding pairs_to_write
  length-pairs_to_write i [] [] h = refl
  length-pairs_to_write i [] (e ∷ es) h = refl
  length-pairs_to_write i (hd ∷ hs) [] h = absurd (omega arith)
  length-pairs_to_write i (hd ∷ hs) (e ∷ es) h =
      ap length (pairs_to_write-cons i hd e hs es)
      ∙ ap suc (length-pairs_to_write (i + 1) hs es (omega arith))

  -- The bytes of a whole chain.
  chain_form : ℕ → Bytes → Hash → Bytes
  chain_form n body h = put_uint 8 0 ++ (put_uint 8 n ++ (body ++ wire_form h))

  marshal_chain-chain_form :
      (c : Chain) (h : Hash) (body : Bytes)
      → length c.headers ≡ length c.entries
      → get_elem? c.hashes (length c.headers - 1) ≡ some h
      → IsWireHash h
      → 0 < length c.headers
      → write_pairs p (pairs_to_write 0 [] [] 0 c.headers c.entries) ≡ ok body
      → marshal_chain p 0 [] [] c ≡ ok (chain_form (length c.headers) body h)
  unfolding marshal_chain write_last chain_form
  marshal_chain-chain_form c h body aligned top w some_header written = rw (
    (==_iff (length c.headers) (length c.entries)).1 aligned,
    written,
    last_to_write-top c.headers some_header,
    top,
    marshal_hash-wire_form h w,
    length-pairs_to_write 0 c.headers c.entries aligned,
  )

  unmarshal_chain-chain_form :
      (n : ℕ) (body : Bytes) (h : Hash) (rest : Bytes) (got : Chain)
      → n < 2 ^ 63
      → IsWireHash h
      → ((rest : Bytes) → read_pairs p 0 n 0 new_chain (body ++ rest) ≡ ok (got, rest))
      → unmarshal_chain p (chain_form n body h ++ rest)
        ≡ ok (
          (
            0,
            record got { hashes = got.hashes ++ h ∷ []; hmap = insert (key p h) (n - 1) got.hmap },
          ),
          rest,
        )
  unfolding unmarshal_chain read_last chain_form
  unmarshal_chain-chain_form n body h rest got small w back = simp append_assoc (
      rw (read_uint-put_uint 8 0 (put_uint 8 n ++ (body ++ (wire_form h ++ rest))) (omega arith)) (
        rw (read_uint-put_uint 8 n (body ++ (wire_form h ++ rest)) (omega arith)) (
          rw (lt→ltb n (2 ^ 63) small)
            (rw (back (wire_form h ++ rest)) (rw (unmarshal_hash-wire_form h rest w) refl)))))

  -- Both ways, with the chain that comes back as `added` makes it.
  pub marshal_chain-added :
      (laws : IsLawful p) (c : Chain) (h : Hash) (rest : Bytes)
      → length c.headers ≡ length c.entries
      → length c.headers < 2 ^ 63
      → AreWirePairs c.headers c.entries
      → get_elem? c.hashes (length c.headers - 1) ≡ some h
      → IsWireHash h
      → 0 < length c.headers
      → (b : Bytes) × (c' : Chain) × (marshal_chain p 0 [] [] c ≡ ok b)
        × (unmarshal_chain p (b ++ rest) ≡ ok ((0, c'), rest))
        × (c'.headers ≡ c.headers)
        × (c'.entries ≡ c.entries)
        × (c'.hashes ≡ (added 0 c.headers c.entries new_chain).hashes ++ h ∷ [])
  marshal_chain-added laws c h rest aligned small wire top w some_header =
      let (body, written, back) = read_pairs-write_pairs laws 0 c.headers c.entries wire in
      let got = added 0 c.headers c.entries new_chain in
      let (hs, es) = added-headers 0 c.headers c.entries new_chain wire in
      (
        chain_form (length c.headers) body h,
        record got {
          hashes = got.hashes ++ h ∷ [];
          hmap = insert (key p h) (length c.headers - 1) got.hmap;
        },
        marshal_chain-chain_form c h body aligned top w some_header written,
        unmarshal_chain-chain_form (length c.headers) body h rest got small w (back new_chain),
        hs,
        es,
        refl,
      )
