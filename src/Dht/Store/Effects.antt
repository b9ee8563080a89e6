-- ===== src/Dht/Store/Effects.antt =====
-- dht.go: the store that each transaction leaves.
use holochain.Base.{
  Bytes, ℕ, ◌+◌, List, ◌∷◌, true, Option, none, some, ◌≡◌, refl, arith, subst, sym, ◌∙◌, ap,
}
use holochain.Base.Map.{Map, lookup, insert}
use holochain.Base.Result.{
  ok, hash_not_found, foreign, ◌>>=◌, >>=-eq-ok, ok_injective, guard-eq-ok, or_foreign-eq-ok,
  or_err-eq-ok, or_err, guard, or_foreign,
}
use holochain.Hash.{Hash, hash_string}
use holochain.Kad.Bucket.{PeerId}
use holochain.Dht.Store.{
  Db, Codec, Message, LinkEvent, db_update, inc_idx, put_tx, put, set_status, add_link, mod_tx,
  status_live, status_modified, sys_tag_replaced_by,
}
use holochain.Dht.Store.Reads.{commit-eq-ok, SameTables}

module _ (x : Codec) where
  -- The database with one more message.
  abbrev pub logged : Message → Hash → Db → Db
  logged m f db = record db {
    idx = db.idx + 1;
    messages = (db.idx + 1, m) ∷ db.messages;
    fingerprints = insert (hash_string x.b58 f) (db.idx + 1) db.fingerprints;
  }

  pub inc_idx-logged :
      (m : Message) (db : Db) {db' : Db}
      → inc_idx x (some m) db ≡ ok db'
      → (f : Hash) × (x.encodes m ≡ true) × (x.fingerprint m ≡ some f) × (db' ≡ logged m f db)
  unfolding inc_idx
  inc_idx-logged m db h =
      let (u, p, q) =
        >>=-eq-ok (guard (x.encodes m) foreign)
          (λ u. or_foreign (x.fingerprint m) >>= λ f. ok (logged m f db)) h in
      let (f, r, s) = >>=-eq-ok (or_foreign (x.fingerprint m)) (λ f. ok (logged m f db)) q in
      (
        f,
        guard-eq-ok (x.encodes m) foreign p,
        or_foreign-eq-ok (x.fingerprint m) r,
        sym (ok_injective s),
      )

  pub inc_idx-SameTables :
      (m : Option Message) (db : Db) {db' : Db} → inc_idx x m db ≡ ok db' → SameTables db db'
  unfolding inc_idx SameTables
  inc_idx-SameTables none db h =
      subst (λ d. SameTables db d) (ok_injective h) (refl, refl, refl, refl, refl, refl)
  inc_idx-SameTables (some m) db h =
      let (f, a, b, e) = inc_idx-logged m db h in
      subst (λ d. SameTables db d) (sym e) (refl, refl, refl, refl, refl, refl)

  abbrev pub stored : Bytes → Bytes → PeerId → Bytes → ℕ → Db → Db
  stored k entry_type src value status db = record db {
    entry = insert k value db.entry;
    type = insert k entry_type db.type;
    src = insert k src db.src;
    status = insert k status db.status;
  }

  pub put-stored :
      (m : Option Message) (entry_type : Bytes) (key : Hash) (src : PeerId) (value : Bytes)
      (status : ℕ) (db : Db) {db' : Db}
      → put x m entry_type key src value status db ≡ (ok tt, db')
      → (db1 : Db) × (inc_idx x m db ≡ ok db1)
        × (db' ≡ stored (hash_string x.b58 key) entry_type src value status db1)
  unfolding put put_tx db_update
  put-stored m entry_type key src value status db h =
      let k = hash_string x.b58 key in
      let (db1, p, q) =
        >>=-eq-ok (inc_idx x m db) (λ d. ok (stored k entry_type src value status d))
          (commit-eq-ok db (put_tx x m entry_type k src value status db) h) in
      (db1, p, sym (ok_injective q))

  abbrev pub marked : Bytes → ℕ → Db → Db
  marked k status db = record db { status = insert k status db.status }

  pub set_status-marked :
      (m : Option Message) (k : Bytes) (status : ℕ) (db : Db) {db' : Db}
      → set_status x m k status db ≡ ok db'
      → (value : Bytes) × (lookup k db.entry ≡ some value)
        × (db1 : Db) × (inc_idx x m db ≡ ok db1)
        × (db' ≡ marked k status db1)
  unfolding set_status
  set_status-marked m k status db h =
      let (value, p, q) =
        >>=-eq-ok (or_err (lookup k db.entry) hash_not_found)
          (λ v. inc_idx x m db >>= λ d. ok (marked k status d)) h in
      let (db1, r, s) = >>=-eq-ok (inc_idx x m db) (λ d. ok (marked k status d)) q in
      (value, or_err-eq-ok (lookup k db.entry) hash_not_found p, db1, r, sym (ok_injective s))

  pub add_link-linked :
      (base link tag : Bytes) (src : PeerId) (status : ℕ) (leh : Hash) (db : Db) {db' : Db}
      → add_link x base link tag src status leh db ≡ ok db'
      → (links : Map (List LinkEvent)) × (db' ≡ record db { link = links })
  unfolding add_link
  add_link-linked base link tag src status leh db {db'} h = (db'.link, ground arith)

  -- The database of `mod`, before the message was counted.
  abbrev pub replaced : Bytes → Bytes → Map (List LinkEvent) → Db → Db
  replaced k link links db = record db {
    status = insert k status_modified db.status;
    link = links;
    replaced_by = insert k link db.replaced_by;
  }

  pub mod_tx-replaced :
      (m : Message) (k : Bytes) (newkey : Hash) (db : Db) {db' : Db}
      → mod_tx x m k newkey db ≡ ok db'
      → (value : Bytes) × (lookup k db.entry ≡ some value)
        × (db0 : Db) × (inc_idx x (some m) db ≡ ok db0)
        × (links : Map (List LinkEvent)) × (db' ≡ replaced k (hash_string x.b58 newkey) links db0)
  unfolding mod_tx
  mod_tx-replaced m k newkey db h =
      let link = hash_string x.b58 newkey in
      let finish = λ (d : Db). ok (record d { replaced_by = insert k link d.replaced_by }) in
      let join = λ (d : Db). add_link x k link sys_tag_replaced_by m.from status_live newkey d in
      let (db1, p, q) =
        >>=-eq-ok (set_status x (some m) k status_modified db) (λ d. join d >>= finish) h in
      let (db2, r, s) = >>=-eq-ok (join db1) finish q in
      let (value, has, db0, i, e) = set_status-marked (some m) k status_modified db p in
      let (links, t) = add_link-linked k link sys_tag_replaced_by m.from status_live newkey db1 r in
      (
        value,
        has,
        db0,
        i,
        links,
        sym (ok_injective s)
            ∙ ap (λ (d : Db). record d { replaced_by = insert k link d.replaced_by })
                (t ∙ ap (λ (d : Db). record d { link = links }) e),
      )
