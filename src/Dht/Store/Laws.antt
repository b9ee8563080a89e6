-- ===== src/Dht/Store/Laws.antt =====
-- dht.go: what `get` returns after `put`, `del` and `mod`.
use holochain.Base.{Bytes, ℕ, [], ◌∷◌, Option, none, some, ◌≡◌, ◌≢◌, subst, sym, ◌∙◌, ap}
use holochain.Base.Map.{lookup, lookup-insert_same, lookup-insert_apart}
use holochain.Base.Result.{ok, hash_deleted, hash_modified}
use holochain.Hash.{Hash, hash_string}
use holochain.Kad.Bucket.{PeerId}
use holochain.Dht.Store.{
  Db, Codec, Message, no_more, db_update, put, set_status, del, mod_tx, modify, get_at, get,
  status_default, status_live, status_deleted, status_modified, effective_mask,
}
use holochain.Dht.Store.Reads.{
  commit-eq-ok, SameTables, get_value-of_deleted, get_value-of_modified, get_at-live, Agrees,
  get_at-of_error, get_at-Agrees,
}
use holochain.Dht.Store.Effects.{
  inc_idx-SameTables, stored, put-stored, marked, set_status-marked, replaced, mod_tx-replaced,
}

module _ (x : Codec) where
  -- After a successful `put` as live, `get` of the same hash with mask 7, which asks for the
  -- entry, its type and its sources, returns the value, its type, its source and the live status.
  pub get-put :
      (m : Option Message) (entry_type : Bytes) (key : Hash) (src : PeerId) (value : Bytes)
      (db : Db) {db' : Db}
      → put x m entry_type key src value status_live db ≡ (ok tt, db')
      → get x key status_default 7 db'
        ≡ ok (
          (record {
            data_bytes = value;
            entry_type = entry_type;
            sources = src ∷ [];
            status = status_live;
          }),
          none,
        )
  unfolding get
  get-put m entry_type key src value db {db'} h =
      let (db1, p, q) = put-stored x m entry_type key src value status_live db h in
      let k = hash_string x.b58 key in
      subst
        (λ d.
          get_at k status_default 7 d
          ≡ ok (
            (record {
              data_bytes = value;
              entry_type = entry_type;
              sources = src ∷ [];
              status = status_live;
            }),
            none,
          ))
        (sym q)
        (get_at-live k (stored x k entry_type src value status_live db1)
          (lookup-insert_same k value db1.entry) (lookup-insert_same k entry_type db1.type)
          (lookup-insert_same k src db1.src) (lookup-insert_same k status_live db1.status))

  pub put-Agrees :
      (m : Option Message) (entry_type : Bytes) (key : Hash) (src : PeerId) (value : Bytes)
      (status : ℕ) (db : Db) {db' : Db} (k : Bytes)
      → hash_string x.b58 key ≢ k
      → put x m entry_type key src value status db ≡ (ok tt, db')
      → Agrees k db db'
  unfolding Agrees SameTables
  put-Agrees m entry_type key src value status db k apart h =
      let (db1, p, q) = put-stored x m entry_type key src value status db h in
      let (a, b, c, d, e, l) = inc_idx-SameTables x m db p in
      let own = hash_string x.b58 key in
      subst (λ z. Agrees k db z) (sym q)
        (
          lookup-insert_apart own value db1.entry k apart ∙ ap (lookup k) a,
          lookup-insert_apart own entry_type db1.type k apart ∙ ap (lookup k) b,
          lookup-insert_apart own src db1.src k apart ∙ ap (lookup k) c,
          lookup-insert_apart own status db1.status k apart ∙ ap (lookup k) d,
          ap (lookup k) e,
        )

  -- A successful `put` leaves what `get` returns, under any masks, as it was for every hash with
  -- another text.
  pub get-put_other :
      (m : Option Message) (entry_type : Bytes) (key other : Hash) (src : PeerId) (value : Bytes)
      (status status_mask get_mask : ℕ) (db : Db) {db' : Db}
      → hash_string x.b58 key ≢ hash_string x.b58 other
      → put x m entry_type key src value status db ≡ (ok tt, db')
      → get x other status_mask get_mask db' ≡ get x other status_mask get_mask db
  unfolding get
  get-put_other m entry_type key other src value status status_mask get_mask db {db'} apart h =
      get_at-Agrees (hash_string x.b58 other) db db'
        (put-Agrees m entry_type key src value status db (hash_string x.b58 other) apart h)
        status_mask (effective_mask get_mask)

  -- A successful `del` was of a stored hash, and `get` of it on the store that `del` leaves returns
  -- its old value with the deleted error.
  pub get-del :
      (m : Option Message) (key : Hash) (get_mask : ℕ) (db : Db) {db' : Db}
      → del x m key db ≡ (ok tt, db')
      → (value : Bytes) × (lookup (hash_string x.b58 key) db.entry ≡ some value)
        × (get x key status_default get_mask db' ≡ ok (no_more value, some hash_deleted))
  unfolding del db_update get SameTables
  get-del m key get_mask db {db'} h =
      let k = hash_string x.b58 key in
      let (value, p, db1, q, r) =
        set_status-marked x m k status_deleted db
          (commit-eq-ok db (set_status x m k status_deleted db) h) in
      (
        value,
        p,
        subst (λ d. get x key status_default get_mask d ≡ ok (no_more value, some hash_deleted))
            (sym r)
            (get_at-of_error k status_default (effective_mask get_mask)
              (marked x k status_deleted db1)
              (get_value-of_deleted k (marked x k status_deleted db1)
                (ap (lookup k) (inc_idx-SameTables x m db q).0 ∙ p)
                (lookup-insert_same k status_deleted db1.status))),
      )

  -- A successful `mod` was of a stored hash, and `get` of it on the store that `mod` leaves
  -- returns the replacing hash with the modified error.
  pub get-modify :
      (m : Message) (key newkey : Hash) (get_mask : ℕ) (db : Db) {db' : Db}
      → modify x m key newkey db ≡ (ok tt, db')
      → (value : Bytes) × (lookup (hash_string x.b58 key) db.entry ≡ some value)
        × (get x key status_default get_mask db'
            ≡ ok (no_more (hash_string x.b58 newkey), some hash_modified))
  unfolding modify db_update get SameTables
  get-modify m key newkey get_mask db {db'} h =
      let k = hash_string x.b58 key in
      let link = hash_string x.b58 newkey in
      let (value, has, db0, i, links, e) =
        mod_tx-replaced x m k newkey db (commit-eq-ok db (mod_tx x m k newkey db) h) in
      (
        value,
        has,
        subst (λ d. get x key status_default get_mask d ≡ ok (no_more link, some hash_modified))
            (sym e)
            (get_at-of_error k status_default (effective_mask get_mask)
              (replaced x k link links db0)
              (get_value-of_modified k (replaced x k link links db0)
                (ap (lookup k) (inc_idx-SameTables x (some m) db i).0 ∙ has)
                (lookup-insert_same k status_modified db0.status)
                (lookup-insert_same k link db0.replaced_by))),
      )
