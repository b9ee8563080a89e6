-- ===== src/Chain/Transfer.antt =====
-- chain.go: `readPair`, `MarshalChain`, `addPair` and `UnmarshalChain`, by which a chain goes over
-- the wire. A reader or writer that fails is not modelled: only the bytes decide.
pub mod RoundTrip
pub mod Linked
use Prim.Native.Nat.{bit_and}
use holochain.Base.{
  Bytes, ℕ, zero, suc, ◌+◌, ◌-◌, ◌^◌, List, [], ◌∷◌, ◌++◌, Bool, true, false, not, ◌&&◌, ◌||◌,
  Option, none, some, ltb, ◌==◌, if◌then◌else◌, length, get_elem?, codes,
}
use holochain.Base.Map.{insert}
use holochain.Base.Result.{Result, ok, err, panic, incomplete_chain, ◌>>=◌, ◌>>◌, or_panic, guard}
use holochain.Platform.{Platform, Content, text}
use holochain.Hash.{Hash, marshal_hash, unmarshal_hash}
use holochain.Wire.{Reader, read_uint, put_uint}
use holochain.Entry.{unmarshal_entry}
use holochain.Header.{Header, unmarshal_header}
use holochain.Chain.{Chain, new_chain, filter_pass, key, write_pair}

abbrev pub flag_no_headers : ℕ
flag_no_headers = 1

abbrev pub flag_no_entries : ℕ
flag_no_entries = 2

abbrev pub flag_omit_dna : ℕ
flag_omit_dna = 4

abbrev pub redacted : Content
redacted = text (codes "%%PRIVATE ENTRY REDACTED%%")

abbrev pub has_flag : ℕ → ℕ → Bool
has_flag flags flag = not (bit_and flags flag == 0)

abbrev pub Pair : Type 0
Pair = Option Header × Option Content

-- The pair that is written for header `i`.
unfoldable pub pair_to_write : ℕ → List Bytes → List Bytes → ℕ → Header → Content → Pair
unfolding filter_pass
pair_to_write flags whitelist private_types i header e =
    let sent = (if i == 0 && has_flag flags flag_omit_dna then text [] else e) in
    let kept = (if has_flag flags flag_no_entries then none else some sent) in
    let shown =
      (if not (filter_pass header whitelist private_types) then some redacted else kept) in
    (if has_flag flags flag_no_headers then none else some header, shown)

-- The first header is always written.
unfoldable pub is_written : List Bytes → ℕ → Header → Bool
unfolding filter_pass
is_written whitelist i header = i == 0 || filter_pass header whitelist []

unfoldable pub pairs_to_write :
    ℕ → List Bytes → List Bytes → ℕ → List Header → List Content → List Pair
unfolding pair_to_write is_written
pairs_to_write flags whitelist private_types i (header ∷ headers) (e ∷ entries) =
    let rest = pairs_to_write flags whitelist private_types (i + 1) headers entries in
    if is_written whitelist i header
    then pair_to_write flags whitelist private_types i header e ∷ rest
    else rest
pairs_to_write flags whitelist private_types i _ _ = []

-- `lastHeaderToWrite`, where headers are written.
unfoldable pub last_to_write : List Bytes → ℕ → ℕ → List Header → ℕ
unfolding is_written
last_to_write whitelist last i [] = last
last_to_write whitelist last i (header ∷ headers) =
    last_to_write whitelist (if is_written whitelist i header then i else last) (i + 1) headers

module _ (p : Platform) where
  unfoldable pub read_pair : ℕ → Reader Pair
  read_pair flags r = do
    (header, r1) ←
        (if has_flag flags flag_no_headers
          then ok (none, r)
          else (do (hd, s) ← unmarshal_header r; ok (some hd, s)))
    (entry, r2) ←
        (if has_flag flags flag_no_entries
          then ok (none, r1)
          else (do (e, s) ← unmarshal_entry p r1; ok (some e, s)))
    ok ((header, entry), r2)

  unfoldable pub write_pairs : List Pair → Result Bytes
  unfolding write_pair
  write_pairs [] = ok []
  write_pairs ((header, entry) ∷ pairs) = do
    b ← write_pair p header entry
    bs ← write_pairs pairs
    ok (b ++ bs)

  -- The hash that ends the stream.
  unfoldable pub write_last : ℕ → List Bytes → Chain → Result Bytes
  unfolding last_to_write
  write_last flags whitelist c = if has_flag flags flag_no_headers then ok [] else (do
    hash ← or_panic (get_elem? c.hashes (last_to_write whitelist 0 0 c.headers))
    marshal_hash hash)

  unfoldable pub marshal_chain : ℕ → List Bytes → List Bytes → Chain → Result Bytes
  unfolding pairs_to_write write_pairs write_last
  marshal_chain flags whitelist private_types c = do
    guard (length c.headers == length c.entries) incomplete_chain
    let pairs = pairs_to_write flags whitelist private_types 0 c.headers c.entries
    body ← write_pairs pairs
    end ← write_last flags whitelist c
    ok (put_uint 8 flags ++ (put_uint 8 (length pairs) ++ (body ++ end)))

  -- `NewHash`, whose error `addPair` drops.
  abbrev pub hash_or_nil : Option Bytes → Hash
  hash_or_nil none = []
  hash_or_nil (some h) = h

  abbrev pub add_link_hash : Header → ℕ → Chain → Chain
  add_link_hash header zero c = c
  add_link_hash header (suc i) c = record c {
    hashes = c.hashes ++ hash_or_nil (p.from_b58 (key p header.header_link)) ∷ [];
    hmap = insert (key p header.header_link) i c.hmap;
  }

  abbrev pub add_header : Option Header → ℕ → Chain → Chain
  add_header none i c = c
  add_header (some header) i c =
      let c' = add_link_hash header i c in
      record c' {
        headers = c'.headers ++ header ∷ [];
        type_tops = insert header.type i c'.type_tops;
        emap = insert (key p header.entry_link) i c'.emap;
      }

  abbrev pub add_content : Option Content → Chain → Chain
  add_content none c = c
  add_content (some e) c = record c { entries = c.entries ++ e ∷ [] }

  unfoldable pub add_pair : Pair → ℕ → Chain → Chain
  add_pair (header, entry) i c = add_content entry (add_header header i c)

  unfoldable pub read_pairs : ℕ → ℕ → ℕ → Chain → Reader Chain
  unfolding read_pair add_pair
  read_pairs flags zero i c r = ok (c, r)
  read_pairs flags (suc rounds) i c r = do
    (pair, r1) ← read_pair flags r
    read_pairs flags rounds (i + 1) (add_pair pair i c) r1

  -- A length is an `int64`: a negative one reads nothing.
  abbrev pub rounds_of : ℕ → ℕ
  rounds_of l = if ltb l (2 ^ 63) then l else 0

  -- The last hash belongs to the last pair. Without any pair its index is -1 in Go, which is 0 here
  -- and, like it, is no index of the chain that was read.
  unfoldable pub read_last : ℕ → ℕ → Chain → Reader Chain
  read_last flags rounds c r = if has_flag flags flag_no_headers then ok (c, r) else (do
    (h, r1) ← unmarshal_hash r
    ok (record c { hashes = c.hashes ++ h ∷ []; hmap = insert (key p h) (rounds - 1) c.hmap }, r1))

  unfoldable pub unmarshal_chain : Reader (ℕ × Chain)
  unfolding read_pairs read_last
  unmarshal_chain r = do
    (flags, r1) ← read_uint 8 r
    (l, r2) ← read_uint 8 r1
    (c, r3) ← read_pairs flags (rounds_of l) 0 new_chain r2
    (c', r4) ← read_last flags (rounds_of l) c r3
    ok ((flags, c'), r4)
