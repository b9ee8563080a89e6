-- ===== src/Chain/AddEntry.antt =====
-- chain.go: the proofs about `AddEntry` and the links of a chain.
use holochain.Base.{Bytes, ℕ, ◌≡◌, refl, sym, ◌∙◌, ◌++◌, Option, none, some, ==_iff, length}
use holochain.Base.Result.{Result, ok, err, panic}
use holochain.Platform.{Platform, Content}
use holochain.Hash.{Hash}
use holochain.Header.{Header}
use holochain.Chain.{
  Chain, prepare_header, appended, add_entry_at, add_entry, persist, written, write_pair,
  add_prepared,
}
use holochain.Chain.Linked.{IsLinked, IsLinked-stream, appended-IsLinked}
use holochain.Chain.Prepare.{prepare_header-Prepared}

module _ (p : Platform) where
  written-IsLinked :
      (c : Chain) (s : Bytes) (r : Result Bytes) → IsLinked p c → IsLinked p (written p s c r).1
  written-IsLinked c s (ok b) l = IsLinked-stream p c (some (s ++ b)) l
  written-IsLinked c s (err x) l = l
  written-IsLinked c s panic l = l

  persist-IsLinked :
      (hd : Header) (e : Content) (c : Chain) (s : Option Bytes)
      → IsLinked p c
      → IsLinked p (persist p hd e c s).1
  persist-IsLinked hd e c none l = l
  persist-IsLinked hd e c (some s) l = written-IsLinked c s (write_pair p (some hd) (some e)) l

  -- On an aligned chain, at the next index, `addEntry` extends the lists and writes.
  pub add_entry_at-persist :
      (i : ℕ) (h : Hash) (hd : Header) (e : Content) (c : Chain)
      → i ≡ length c.hashes
      → length c.hashes ≡ length c.entries
      → add_entry_at p i h hd e c ≡ persist p hd e (appended p i h hd e c) c.stream
  unfolding add_entry_at
  add_entry_at-persist i h hd e c a b =
      rw ((==_iff (length c.hashes) i).1 (sym a), (==_iff (length c.hashes) (length c.entries)).1 b)

  add_prepared-IsLinked :
      (now t : Bytes) (e : Content) (c : Chain) (r : Result (ℕ × Hash × Header))
      → prepare_header p now t e none c ≡ r
      → IsLinked p c
      → IsLinked p (add_prepared p e c r).1
  add_prepared-IsLinked now t e c (err x) q l = l
  add_prepared-IsLinked now t e c panic q l = l
  add_prepared-IsLinked now t e c (ok (i, h, hd)) q l =
      let m = prepare_header-Prepared p now t e none c i h hd q in
      let grown = appended-IsLinked p c h hd e l i m.hash m.entry_link m.previous in
      rw (add_entry_at-persist i h hd e c m.at (l.aligned.hashes ∙ sym l.aligned.entries))
        (persist-IsLinked hd e (appended p i h hd e c) c.stream grown)

  -- `AddEntry` preserves the linked-chain invariant on its success and all of its error paths:
  -- aligned lists, each stored hash that of its header, each entry link that of its entry, each
  -- header link the hash before.
  pub add_entry-IsLinked :
      (now t : Bytes) (e : Content) (c : Chain)
      → IsLinked p c
      → IsLinked p (add_entry p now t e c).1
  unfolding add_entry
  add_entry-IsLinked now t e c l =
      add_prepared-IsLinked now t e c (prepare_header p now t e none c) refl l
