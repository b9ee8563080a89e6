-- ===== src/Chain.antt =====
-- chain.go: the in-memory chain, its stream, and its operations. `Hmap` and `Emap` are keyed by the
-- text of a hash. The locks are not modelled: each operation is one step. Every entry is a
-- `GobEntry`, given by its content.
pub mod Linked
pub mod Prepare
pub mod AddEntry
pub mod Validation
pub mod Lookup
pub mod Transfer
use holochain.Base.{
  Bytes, ℕ, zero, suc, ◌+◌, ◌-◌, [], ◌∷◌, ◌++◌, List, Bool, true, false, not, ◌&&◌, ◌||◌, Option,
  none, some, ltb, ◌==◌, if◌then◌else◌, length, get_elem?, bytes_equal,
}
use holochain.Base.Map.{Map, lookup, insert}
use holochain.Base.Result.{
  Result, ok, err, panic, hash_not_found, incomplete_chain, index_mismatch, header_mismatch,
  entry_mismatch, ◌>>=◌, ◌>>◌, or_foreign, or_panic, or_err, guard,
}
use holochain.Platform.{Platform, Content}
use holochain.Hash.{Hash, null_hash, equal, hash_string}
use holochain.Entry.{marshal_entry}
use holochain.Header.{Header, StatusChange, marshal_header, header_sum, new_header}

-- `stream` is the file that new entries are appended to, if there is one.
pub record Chain : Type 0 where
  pub hashes : List Hash
  pub headers : List Header
  pub entries : List Content
  pub type_tops : Map ℕ
  pub hmap : Map ℕ
  pub emap : Map ℕ
  pub stream : Option Bytes

abbrev pub new_chain : Chain
new_chain = record {
  hashes = [];
  headers = [];
  entries = [];
  type_tops = [];
  hmap = [];
  emap = [];
  stream = none;
}

-- `Nth`: the nth latest header, nil past the first.
unfoldable pub nth : ℕ → Chain → Result (Option Header)
nth n c =
    let l = length c.headers in
    if ltb 0 (l - n)
    then (do hd ← or_panic (get_elem? c.headers (l - n - 1)); ok (some hd))
    else ok none

unfoldable pub top : Chain → Result (Option Header)
unfolding nth
top c = nth 0 c

unfoldable pub top_type : Bytes → Chain → Result (Option (Hash × Header))
top_type entry_type c = elim (lookup entry_type c.type_tops) [
  | none ↦ ok none
  | some i ↦ (do
    header ← or_panic (get_elem? c.headers i)
    hash ← or_panic (get_elem? c.hashes i)
    ok (some (hash, header)))
]

-- The hash that the next header links to.
unfoldable pub previous_hash : List Hash → Result Hash
previous_hash [] = ok null_hash
previous_hash (h ∷ hs) = or_panic (get_elem? (h ∷ hs) (length (h ∷ hs) - 1))

unfoldable pub previous_of_type : Bytes → Chain → Result Hash
previous_of_type entry_type c = elim (lookup entry_type c.type_tops) [
  | none ↦ ok null_hash
  | some i ↦ or_panic (get_elem? c.hashes i)
]

-- `writePair`: the bytes that it writes; a nil part is left out.
unfoldable pub write_header : Option Header → Result Bytes
write_header none = ok []
write_header (some hd) = marshal_header hd

-- `contains` and `filterPass`.
unfoldable pub contains : List Bytes → Bytes → Bool
contains [] e = false
contains (a ∷ s) e = if bytes_equal a e then true else contains s e

abbrev pub is_empty : List Bytes → Bool
is_empty [] = true
is_empty (a ∷ s) = false

unfoldable pub filter_pass : Header → List Bytes → List Bytes → Bool
unfolding contains
filter_pass header whitelist blacklist =
    let pass = (if is_empty whitelist then true else contains whitelist header.type) in
    if is_empty blacklist then pass else pass && not (contains blacklist header.type)

-- The link that `Validate` compares with the hash of header `i`.
unfoldable pub next_link : Chain → ℕ → Result Hash
next_link c i =
    if ltb (i + 2) (length c.headers)
    then (do hd ← or_panic (get_elem? c.headers (i + 1)); ok hd.header_link)
    else or_panic (get_elem? c.hashes i)

module _ (p : Platform) where
  abbrev pub key : Hash → Bytes
  key h = hash_string p.b58 h

  abbrev pub entry_part : Option Content → Bytes
  entry_part none = []
  entry_part (some e) = marshal_entry p e

  unfoldable pub write_pair : Option Header → Option Content → Result Bytes
  unfolding write_header
  write_pair header entry = do b ← write_header header; ok (b ++ entry_part entry)

  unfoldable pub prepare_header :
      Bytes → Bytes → Content → Option StatusChange → Chain → Result (ℕ × Hash × Header)
  prepare_header now entry_type e change c = do
    ph ← previous_hash c.hashes
    pth ← previous_of_type entry_type c
    (hash, header) ← new_header p now entry_type e ph pth change
    ok (length c.hashes, hash, header)

  -- What `addEntry` does to memory before it writes.
  abbrev pub appended : ℕ → Hash → Header → Content → Chain → Chain
  appended i hash header e c = record c {
    hashes = c.hashes ++ hash ∷ [];
    headers = c.headers ++ header ∷ [];
    entries = c.entries ++ e ∷ [];
    type_tops = insert header.type i c.type_tops;
    emap = insert (key header.entry_link) i c.emap;
    hmap = insert (key hash) i c.hmap;
  }

  abbrev pub written : Bytes → Chain → Result Bytes → Result (Unit {0}) × Chain
  written s c (ok b) = (ok tt, record c { stream = some (s ++ b) })
  written s c (err x) = (err x, c)
  written s c panic = (panic, c)

  -- The write to the stream; a failed one leaves the chain in memory extended.
  abbrev pub persist : Header → Content → Chain → Option Bytes → Result (Unit {0}) × Chain
  persist header e c none = (ok tt, c)
  persist header e c (some s) = written s c (write_pair (some header) (some e))

  unfoldable pub add_entry_at : ℕ → Hash → Header → Content → Chain → Result (Unit {0}) × Chain
  add_entry_at i hash header e c =
      if not (length c.hashes == i)
      then (err index_mismatch, c)
      else if not (length c.hashes == length c.entries)
      then (err incomplete_chain, c)
      else persist header e (appended i hash header e c) c.stream

  -- `AddEntry`.
  abbrev pub add_prepared : Content → Chain → Result (ℕ × Hash × Header) → Result Hash × Chain
  add_prepared e c (ok (i, hash, header)) =
      let (r, c') = add_entry_at i hash header e c in ((do r; ok hash), c')
  add_prepared e c (err x) = (err x, c)
  add_prepared e c panic = (panic, c)

  unfoldable pub add_entry : Bytes → Bytes → Content → Chain → Result Hash × Chain
  unfolding prepare_header add_entry_at previous_hash previous_of_type
  add_entry now entry_type e c = add_prepared e c (prepare_header now entry_type e none c)

  unfoldable pub get : Hash → Chain → Result Header
  get h c = do i ← or_err (lookup (key h) c.hmap) hash_not_found; or_panic (get_elem? c.headers i)

  unfoldable pub get_entry : Hash → Chain → Result (Content × Bytes)
  get_entry h c = do
    i ← or_err (lookup (key h) c.emap) hash_not_found
    entry ← or_panic (get_elem? c.entries i)
    header ← or_panic (get_elem? c.headers i)
    ok (entry, header.type)

  unfoldable pub get_entry_header : Hash → Chain → Result Header
  get_entry_header h c = do
    i ← or_err (lookup (key h) c.emap) hash_not_found
    or_panic (get_elem? c.headers i)

  unfoldable pub check_entry : Header → ℕ → Chain → Result (Unit {0})
  check_entry hd i c = do
    e ← or_panic (get_elem? c.entries i)
    b ← or_foreign (p.encode e)
    hash ← or_foreign (p.sum b)
    guard (bytes_equal hash hd.entry_link) (entry_mismatch i)

  unfoldable pub check_link : Bool → ℕ → Chain → Result (Unit {0})
  check_link skip_entries i c = do
    hd ← or_panic (get_elem? c.headers i)
    hash ← header_sum p hd
    nexth ← next_link c i
    guard (equal hash nexth) (header_mismatch i)
    if skip_entries then ok tt else check_entry hd i c

  -- The loop of `Validate`, with `rounds` headers left from `i` on.
  unfoldable pub validate_from : Bool → ℕ → ℕ → Chain → Result (Unit {0})
  validate_from skip_entries zero i c = ok tt
  validate_from skip_entries (suc rounds) i c =
      check_link skip_entries i c >>= λ _. validate_from skip_entries rounds (i + 1) c

  unfoldable pub validate : Bool → Chain → Result (Unit {0})
  unfolding validate_from check_link next_link check_entry
  validate skip_entries c = validate_from skip_entries (length c.headers) 0 c

-- `Walk`: the visitor's state and result are threaded from the latest entry to the first.
module _ {S : Type 0} (fn : S → Hash → Header → Content → Result S) where
  unfoldable pub walk_from : ℕ → S → Chain → Result S
  walk_from zero s c = ok s
  walk_from (suc i) s c = do
    hash ← or_panic (get_elem? c.hashes i)
    header ← or_panic (get_elem? c.headers i)
    entry ← or_panic (get_elem? c.entries i)
    s' ← fn s hash header entry
    walk_from i s' c

  unfoldable pub walk : S → Chain → Result S
  unfolding walk_from
  walk s c = walk_from (length c.headers) s c

unfoldable pub chain_length : Chain → ℕ
chain_length c = length c.headers
