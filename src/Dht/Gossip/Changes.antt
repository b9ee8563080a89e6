-- ===== src/Dht/Gossip/Changes.antt =====
-- dht.go and gossip.go: every change of the store, and what it does to the log.
use holochain.Base.{
  Bytes, ℕ, List, Option, some, ◌≡◌, refl, inl, inr, Bool-cases, arith, ltb, subst, sym,
}
use holochain.Base.Map.{lookup}
use holochain.Base.Result.{ok, >>=-eq-ok, ok_injective}
use holochain.Hash.{Hash, hash_string}
use holochain.Kad.Bucket.{PeerId}
use holochain.Dht.Store.{
  Db, Codec, Message, db_update, inc_idx, put_tx, put, set_status, del, add_link, mod_tx, modify,
  status_live, status_deleted,
}
use holochain.Dht.Store.Effects.{stored, set_status-marked, mod_tx-replaced, add_link-linked}
use holochain.Dht.Links.Added.{link_tx-added}
use holochain.Dht.Links.{link_tx, put_link, del_link}
use holochain.Dht.Gossip.{or_zero, delete_gossiper, update_gossiper}
use holochain.Dht.Gossip.Exchange.{PeerRecord, set_records, add_to_list_tx, add_to_list}
use holochain.Dht.Gossip.Index.{SameLog, Logs, inc_idx-Logs, Logs-then, Logs-after, commit-Logs}

module _ (x : Codec) where
  -- Each change of the store, whether it succeeds or not.
  pub data Change : Db → Db → Type 0 where
    by_put :
        (m : Option Message) (entry_type : Bytes) (key : Hash) (src : PeerId) (value : Bytes)
        (status : ℕ) (db : Db)
        → Change db (put x m entry_type key src value status db).1
    by_del : (m : Option Message) (key : Hash) (db : Db) → Change db (del x m key db).1
    by_mod : (m : Message) (key newkey : Hash) (db : Db) → Change db (modify x m key newkey db).1
    by_put_link :
        (m : Message) (base link tag : Bytes) (db : Db)
        → Change db (put_link x m base link tag db).1
    by_del_link :
        (m : Message) (base link tag : Bytes) (db : Db)
        → Change db (del_link x m base link tag db).1
    by_gossip : (id : PeerId) (idx : ℕ) (db : Db) → Change db (update_gossiper id idx db)
    by_list :
        (m : Option Message) (type : Bytes) (records : List PeerRecord) (db : Db)
        → Change db (add_to_list x m type records db).1
    by_drop : (id : PeerId) (db : Db) → Change db (delete_gossiper id db).1

  pub put-Logs :
      (m : Option Message) (entry_type : Bytes) (key : Hash) (src : PeerId) (value : Bytes)
      (status : ℕ) (db : Db)
      → Logs x db (put x m entry_type key src value status db).1
  unfolding put put_tx db_update SameLog
  put-Logs m entry_type key src value status db =
      commit-Logs x db (put_tx x m entry_type (hash_string x.b58 key) src value status db) λ d h.
        let (db1, p, q) =
          >>=-eq-ok (inc_idx x m db)
            (λ e. ok (stored x (hash_string x.b58 key) entry_type src value status e)) h in
        Logs-then x db db1 d (inc_idx-Logs x m db p)
          (subst (SameLog db1) (ok_injective q) (refl, refl, refl))

  pub set_status-Logs :
      (m : Option Message) (k : Bytes) (status : ℕ) (db : Db) {d : Db}
      → set_status x m k status db ≡ ok d
      → Logs x db d
  unfolding SameLog
  set_status-Logs m k status db {d} h =
      let (value, p, db1, q, r) = set_status-marked x m k status db h in
      Logs-then x db db1 d (inc_idx-Logs x m db q) (subst (SameLog db1) (sym r) (refl, refl, refl))

  pub del-Logs : (m : Option Message) (key : Hash) (db : Db) → Logs x db (del x m key db).1
  unfolding del db_update
  del-Logs m key db =
      commit-Logs x db (set_status x m (hash_string x.b58 key) status_deleted db)
        λ d h. set_status-Logs m (hash_string x.b58 key) status_deleted db h

  pub add_link-SameLog :
      (base link tag : Bytes) (src : PeerId) (status : ℕ) (leh : Hash) (db : Db) {d : Db}
      → add_link x base link tag src status leh db ≡ ok d
      → SameLog db d
  unfolding SameLog
  add_link-SameLog base link tag src status leh db h =
      let (links, e) = add_link-linked x base link tag src status leh db h in
      subst (SameLog db) (sym e) (refl, refl, refl)

  pub modify-Logs :
      (m : Message) (key newkey : Hash) (db : Db) → Logs x db (modify x m key newkey db).1
  unfolding modify mod_tx db_update SameLog
  modify-Logs m key newkey db =
      commit-Logs x db (mod_tx x m (hash_string x.b58 key) newkey db) λ d h.
        let (value, has, db0, i, links, e) =
          mod_tx-replaced x m (hash_string x.b58 key) newkey db h in
        Logs-then x db db0 d (inc_idx-Logs x (some m) db i)
          (subst (SameLog db0) (sym e) (refl, refl, refl))

  pub link_tx-Logs :
      (m : Message) (base link tag : Bytes) (status : ℕ) (db d : Db)
      → link_tx x m base link tag status db ≡ ok d
      → Logs x db d
  link_tx-Logs m base link tag status db d h =
      let (db1, leh, e, s) = link_tx-added x m base link tag status db h in
      Logs-after x db db1 d (add_link-SameLog base link tag m.from status leh db e)
        (inc_idx-Logs x (some m) db1 s)

  pub put_link-Logs :
      (m : Message) (base link tag : Bytes) (db : Db) → Logs x db (put_link x m base link tag db).1
  unfolding put_link db_update
  put_link-Logs m base link tag db =
      commit-Logs x db (link_tx x m base link tag status_live db)
        (link_tx-Logs m base link tag status_live db)

  pub del_link-Logs :
      (m : Message) (base link tag : Bytes) (db : Db) → Logs x db (del_link x m base link tag db).1
  unfolding del_link db_update
  del_link-Logs m base link tag db =
      commit-Logs x db (link_tx x m base link tag status_deleted db)
        (link_tx-Logs m base link tag status_deleted db)

  pub add_to_list-Logs :
      (m : Option Message) (type : Bytes) (records : List PeerRecord) (db : Db)
      → Logs x db (add_to_list x m type records db).1
  unfolding add_to_list add_to_list_tx db_update SameLog
  add_to_list-Logs m type records db = commit-Logs x db (add_to_list_tx x m type records db) λ d h.
      let (db1, p, q) =
        >>=-eq-ok (inc_idx x m db) (λ e. ok (record e { list = set_records type records e.list }))
          h in
      Logs-then x db db1 d (inc_idx-Logs x m db p)
        (subst (SameLog db1) (ok_injective q) (refl, refl, refl))

  pub update_gossiper-Logs :
      (id : PeerId) (idx : ℕ) (db : Db) → Logs x db (update_gossiper id idx db)
  unfolding update_gossiper Logs SameLog
  update_gossiper-Logs id idx db = elim (Bool-cases (ltb idx (or_zero (lookup id db.peer)))) [
    | inl low ↦ rw low (inl (refl, refl, refl))
    | inr high ↦ rw high (inl (refl, refl, refl))
  ]

  pub delete_gossiper-Logs : (id : PeerId) (db : Db) → Logs x db (delete_gossiper id db).1
  unfolding delete_gossiper Logs SameLog
  delete_gossiper-Logs id db = inl (ground arith, ground arith, ground arith)

  pub Change-Logs : (a b : Db) → Change a b → Logs x a b
  Change-Logs a b (by_put m entry_type key src value status db) =
      put-Logs m entry_type key src value status db
  Change-Logs a b (by_del m key db) = del-Logs m key db
  Change-Logs a b (by_mod m key newkey db) = modify-Logs m key newkey db
  Change-Logs a b (by_put_link m base link tag db) = put_link-Logs m base link tag db
  Change-Logs a b (by_del_link m base link tag db) = del_link-Logs m base link tag db
  Change-Logs a b (by_list m type records db) = add_to_list-Logs m type records db
  Change-Logs a b (by_gossip id idx db) = update_gossiper-Logs id idx db
  Change-Logs a b (by_drop id db) = delete_gossiper-Logs id db
