-- ===== src/Chain/Lookup.antt =====
-- chain.go: what `Get`, `GetEntry` and `TopType` return after `AddEntry`.
use holochain.Base.{
  Bytes, ℕ, ◌≡◌, refl, sym, ap, subst, ◌∙◌, [], ◌∷◌, ◌++◌, List, Option, none, some, arith, length,
  get_elem?, get_elem?-snoc,
}
use holochain.Base.Map.{lookup, insert, lookup-insert_same}
use holochain.Base.Result.{Result, ok, err, panic, >>=-eq-ok, ok_injective}
use holochain.Platform.{Platform, Content}
use holochain.Hash.{Hash}
use holochain.Header.{Header}
use holochain.Chain.{
  Chain, key, prepare_header, appended, add_entry_at, add_entry, persist, written, write_pair,
  add_prepared, get, get_entry, get_entry_header, top_type,
}
use holochain.Chain.Linked.{IsAligned}
use holochain.Chain.Prepare.{prepare_header-Prepared}
use holochain.Chain.AddEntry.{add_entry_at-persist}

last-read {ℓ} :
    {A : Type ℓ} (xs : List A) (x : A) (i : ℕ) → i ≡ length xs → get_elem? (xs ++ x ∷ []) i ≡ some x
last-read xs x i h = ground (arith, get_elem?-snoc xs x i)

module _ (p : Platform) where
  -- What the lookups find of a new pair.
  pub record Found (c : Chain) (t : Bytes) (e : Content) (h : Hash) (hd : Header) : Type 0 where
    pub by_hash : get p h c ≡ ok hd
    pub by_entry : get_entry p hd.entry_link c ≡ ok (e, t)
    pub entry_header : get_entry_header p hd.entry_link c ≡ ok hd
    pub by_type : top_type t c ≡ ok (some (h, hd))

  appended-Found :
      (t : Bytes) (i : ℕ) (h : Hash) (hd : Header) (e : Content) (c : Chain)
      → IsAligned c
      → i ≡ length c.hashes
      → hd.type ≡ t
      → Found (appended p i h hd e c) t e h hd
  unfolding get get_entry get_entry_header top_type
  appended-Found t i h hd e c a at same =
      let own = lookup-insert_same (key p h) i c.hmap in
      let entry = lookup-insert_same (key p hd.entry_link) i c.emap in
      let kind =
        subst (λ u. lookup u (insert hd.type i c.type_tops) ≡ some i) same
          (lookup-insert_same hd.type i c.type_tops) in
      let headers = last-read c.headers hd i (at ∙ a.hashes) in
      let entries = last-read c.entries e i (at ∙ a.hashes ∙ sym a.entries) in
      let hashes = last-read c.hashes h i at in
      record {
        by_hash = rw (own, headers);
        by_entry = rw (entry, entries, headers, same);
        entry_header = rw (entry, headers);
        by_type = ground (arith, kind, headers, hashes);
      }

  Found-stream :
      (t : Bytes) (h : Hash) (hd : Header) (e : Content) (c : Chain) (s : Option Bytes)
      → Found c t e h hd
      → Found (record c { stream = s }) t e h hd
  unfolding get get_entry get_entry_header top_type
  Found-stream t h hd e c s f = record {
    by_hash = f.by_hash;
    by_entry = f.by_entry;
    entry_header = f.entry_header;
    by_type = f.by_type;
  }

  written-Found :
      (t : Bytes) (h : Hash) (hd : Header) (e : Content) (c : Chain) (s : Bytes) (r : Result Bytes)
      → Found c t e h hd
      → Found (written p s c r).1 t e h hd
  written-Found t h hd e c s (ok b) f = Found-stream t h hd e c (some (s ++ b)) f
  written-Found t h hd e c s (err x) f = f
  written-Found t h hd e c s panic f = f

  persist-Found :
      (t : Bytes) (h : Hash) (hd : Header) (e : Content) (c : Chain) (s : Option Bytes)
      → Found c t e h hd
      → Found (persist p hd e c s).1 t e h hd
  persist-Found t h hd e c none f = f
  persist-Found t h hd e c (some s) f =
      written-Found t h hd e c s (write_pair p (some hd) (some e)) f

  add_prepared-Found :
      (now t : Bytes) (e : Content) (c : Chain) (h : Hash) (r : Result (ℕ × Hash × Header))
      → IsAligned c
      → prepare_header p now t e none c ≡ r
      → (add_prepared p e c r).0 ≡ ok h
      → (hd : Header) × Found (add_prepared p e c r).1 t e h hd
  add_prepared-Found now t e c h (err x) a q g = absurd (cc g)
  add_prepared-Found now t e c h panic a q g = absurd (cc g)
  add_prepared-Found now t e c h (ok (i, h', hd)) a q g =
      let m = prepare_header-Prepared p now t e none c i h' hd q in
      let added = add_entry_at-persist p i h' hd e c m.at (a.hashes ∙ sym a.entries) in
      let (u, w, same) = >>=-eq-ok (add_entry_at p i h' hd e c).0 (λ u. ok h') g in
      (
        hd,
        subst (λ d. Found d t e h hd) (sym (ap (λ d. d.1) added))
            (persist-Found t h hd e (appended p i h' hd e c) c.stream (
              subst (λ h. Found (appended p i h' hd e c) t e h hd) (ok_injective same)
                (appended-Found t i h' hd e c a m.at m.type))),
      )

  -- After a successful `AddEntry` on an aligned chain, `Get` of the hash that it returned gives a
  -- header, `GetEntry` and `GetEntryHeader` of that header's entry link give the entry, its type
  -- and the header, and `TopType` of the type gives the hash and the header.
  pub add_entry-Found :
      (now t : Bytes) (e : Content) (c : Chain) (h : Hash)
      → IsAligned c
      → (add_entry p now t e c).0 ≡ ok h
      → (hd : Header) × Found (add_entry p now t e c).1 t e h hd
  unfolding add_entry
  add_entry-Found now t e c h a g =
      add_prepared-Found now t e c h (prepare_header p now t e none c) a refl g
