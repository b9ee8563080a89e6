-- ===== src/Dht/Fates.antt =====
-- dht.go: what each operation of the store does to the value and the status of a hash.
use holochain.Base.{
  Bytes, ℕ, List, Option, some, ◌≡◌, refl, ◌⊎◌, inl, inr, Bool-cases, arith, subst, ap, ◌∙◌,
  bytes_equal, bytes_equal_iff,
}
use holochain.Base.Map.{Map, lookup, insert, lookup-insert}
use holochain.Base.Result.{Result, ok, err, panic, >>=-eq-ok, ok_injective}
use holochain.Hash.{Hash, hash_string}
use holochain.Kad.Bucket.{PeerId}
use holochain.Dht.Store.{
  Db, Codec, Message, commit, db_update, inc_idx, put_tx, put, set_status, del, mod_tx, modify,
  status_live, status_deleted, status_modified,
}
use holochain.Dht.Store.Reads.{SameTables}
use holochain.Dht.Store.Effects.{
  stored, inc_idx-SameTables, set_status-marked, mod_tx-replaced, add_link-linked,
}
use holochain.Dht.Links.Added.{link_tx-added}
use holochain.Dht.Links.{link_tx, put_link, del_link}
use holochain.Dht.Gossip.{delete_gossiper}
use holochain.Dht.Gossip.Exchange.{PeerRecord, set_records, add_to_list_tx, add_to_list}

-- What the store has of a hash: a value, and a status.
abbrev pub Fate : Type 0
Fate = Option Bytes × Option ℕ

abbrev pub fate : Bytes → Db → Fate
fate k db = (lookup k db.entry, lookup k db.status)

-- What a put of the value leaves of the hash `j`, and what a mark of the key leaves.
abbrev pub IsPut : Bytes → Bytes → Bytes → ℕ → Fate → Fate → Type 0
IsPut k j value status f g = (g ≡ f) ⊎ ((k ≡ j) × (g ≡ (some value, some status)))

abbrev pub IsMark : Bytes → Bytes → ℕ → Fate → Fate → Type 0
IsMark k j status f g =
    (g ≡ f) ⊎ ((k ≡ j) × (value : Bytes) × (f.0 ≡ some value) × (g ≡ (some value, some status)))

insert-IsPut :
    (k j : Bytes) (v : Bytes) (s : ℕ) (e : Map Bytes) (st : Map ℕ)
    → IsPut k j v s (lookup j e, lookup j st) (lookup j (insert k v e), lookup j (insert k s st))
insert-IsPut k j v s e st = elim (Bool-cases (bytes_equal k j)) [
  | inl t ↦
      rw (lookup-insert k j v e, lookup-insert k j s st, t) (inr ((bytes_equal_iff k j).0 t, refl))
  | inr f ↦ rw (lookup-insert k j v e, lookup-insert k j s st, f) (inl refl)
]

insert-IsMark :
    (k j : Bytes) (v : Bytes) (s : ℕ) (e : Map Bytes) (st : Map ℕ)
    → lookup k e ≡ some v
    → IsMark k j s (lookup j e, lookup j st) (lookup j e, lookup j (insert k s st))
insert-IsMark k j v s e st has = elim (Bool-cases (bytes_equal k j)) [
  | inl t ↦
      let same = (bytes_equal_iff k j).0 t in
      let here : lookup j e ≡ some v = subst (λ j. lookup j e ≡ some v) same has in
      rw (lookup-insert k j s st, t) (inr (same, v, here, ap (λ o. (o, some s)) here))
  | inr f ↦ rw (lookup-insert k j s st, f) (inl refl)
]

module _ (x : Codec) (j : Bytes) where
  commit-Fate :
      (P : Fate → Type 0) (db : Db) (r : Result Db)
      → P (fate j db)
      → ((d : Db) → r ≡ ok d → P (fate j d))
      → P (fate j (commit db r).1)
  commit-Fate P db (ok d) same h = h d refl
  commit-Fate P db (err e) same h = same
  commit-Fate P db panic same h = same

  pub put-IsPut :
      (m : Option Message) (entry_type : Bytes) (key : Hash) (src : PeerId) (value : Bytes)
      (status : ℕ) (db : Db)
      → IsPut
          (hash_string x.b58 key)
          j
          value
          status
          (fate j db)
          (fate j (put x m entry_type key src value status db).1)
  unfolding put put_tx db_update SameTables
  put-IsPut m entry_type key src value status db =
      let k = hash_string x.b58 key in
      commit-Fate (IsPut k j value status (fate j db)) db
        (put_tx x m entry_type k src value status db) (inl refl)
        λ d h.
          let (db1, p, q) =
            >>=-eq-ok (inc_idx x m db) (λ e. ok (stored x k entry_type src value status e)) h in
          let same = inc_idx-SameTables x m db p in
          subst (λ d. IsPut k j value status (fate j db) (fate j d)) (ok_injective q)
            (rw (same.0, same.3) (insert-IsPut k j value status db.entry db.status))

  pub del-IsMark :
      (m : Option Message) (key : Hash) (db : Db)
      → IsMark (hash_string x.b58 key) j status_deleted (fate j db) (fate j (del x m key db).1)
  unfolding del db_update SameTables
  del-IsMark m key db =
      let k = hash_string x.b58 key in
      commit-Fate (IsMark k j status_deleted (fate j db)) db (set_status x m k status_deleted db)
        (inl refl)
        λ d h.
          let (v, has, db1, q, e) = set_status-marked x m k status_deleted db h in
          let same = inc_idx-SameTables x m db q in
          rw (e, same.0, same.3) (insert-IsMark k j v status_deleted db.entry db.status has)

  pub modify-IsMark :
      (m : Message) (key new : Hash) (db : Db)
      → IsMark
          (hash_string x.b58 key)
          j
          status_modified
          (fate j db)
          (fate j (modify x m key new db).1)
  unfolding modify db_update SameTables
  modify-IsMark m key new db =
      let k = hash_string x.b58 key in
      commit-Fate (IsMark k j status_modified (fate j db)) db (mod_tx x m k new db) (inl refl)
        λ d h.
          let (v, has, db1, q, links, e) = mod_tx-replaced x m k new db h in
          let same = inc_idx-SameTables x (some m) db q in
          rw (e, same.0, same.3) (insert-IsMark k j v status_modified db.entry db.status has)

  link_tx-same :
      (m : Message) (base link tag : Bytes) (status : ℕ) (db d : Db)
      → link_tx x m base link tag status db ≡ ok d
      → fate j d ≡ fate j db
  unfolding SameTables
  link_tx-same m base link tag status db d h =
      let (db1, leh, e, q) = link_tx-added x m base link tag status db h in
      let (links, f) = add_link-linked x base link tag m.from status leh db e in
      let same = inc_idx-SameTables x (some m) db1 q in
      rw (same.0 ∙ ap (λ d. d.entry) f, same.3 ∙ ap (λ d. d.status) f) refl

  pub put_link-same :
      (m : Message) (base link tag : Bytes) (db : Db)
      → fate j (put_link x m base link tag db).1 ≡ fate j db
  unfolding put_link db_update
  put_link-same m base link tag db =
      commit-Fate (λ g. g ≡ fate j db) db (link_tx x m base link tag status_live db) refl
        (link_tx-same m base link tag status_live db)

  pub del_link-same :
      (m : Message) (base link tag : Bytes) (db : Db)
      → fate j (del_link x m base link tag db).1 ≡ fate j db
  unfolding del_link db_update
  del_link-same m base link tag db =
      commit-Fate (λ g. g ≡ fate j db) db (link_tx x m base link tag status_deleted db) refl
        (link_tx-same m base link tag status_deleted db)

  pub add_to_list-same :
      (m : Option Message) (type : Bytes) (records : List PeerRecord) (db : Db)
      → fate j (add_to_list x m type records db).1 ≡ fate j db
  unfolding add_to_list add_to_list_tx db_update SameTables
  add_to_list-same m type records db =
      commit-Fate (λ g. g ≡ fate j db) db (add_to_list_tx x m type records db) refl
        λ d h.
          let (db1, p, q) =
            >>=-eq-ok (inc_idx x m db)
              (λ e. ok (record e { list = set_records type records e.list })) h in
          let same = inc_idx-SameTables x m db p in
          subst (λ d. fate j d ≡ fate j db) (ok_injective q) (rw (same.0, same.3) refl)

  pub drop-same : (id : PeerId) (db : Db) → fate j (delete_gossiper id db).1 ≡ fate j db
  unfolding delete_gossiper
  drop-same id db = ground arith
