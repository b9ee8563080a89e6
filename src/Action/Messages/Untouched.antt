-- ===== src/Action/Messages/Untouched.antt =====
-- action.go: links and lists of peers leave the entries of the store as they are.
use holochain.Base.{
  Bytes, ℕ, List, [], ◌∷◌, some, ◌≡◌, refl, ◌∙◌, inl, inr, Bool-cases, bytes_equal, if◌then◌else◌,
}
use holochain.Base.Result.{Result, ok, err, panic, each_result}
use holochain.Dht.Store.{Db, Message}
use holochain.Dht.Fates.{fate, put_link-same, del_link-same, add_to_list-same, drop-same}
use holochain.Dht.Gossip.Exchange.{PeerRecord, add_to_list}
use holochain.Action.{Link, Services, Holder, Reply}
use holochain.Action.Receive.{change_link, change_links, del_action_name}
use holochain.Action.Messages.{
  blocked_list, block_peers, check_list_add, add_list, receive_list_add,
}

module _ (s : Services) (m : Message) (j : Bytes) where
  change_link-same :
      (base : Bytes) (l : Link) (db : Db) → fate j (change_link s m base l db).1 ≡ fate j db
  unfolding change_link
  change_link-same base l db = elim (Bool-cases (bytes_equal l.link_action del_action_name)) [
    | inl t ↦ rw t (del_link-same s.codec j m base l.link l.tag db)
    | inr f ↦ rw f (put_link-same s.codec j m base l.link l.tag db)
  ]

  next_link-same :
      (base : Bytes) (l : Link) (ls : List Link) (r : Result (Unit {0})) (db : Db)
      → ((p : Result (Unit {0}) × Db) → fate j (change_links s m base ls p).1 ≡ fate j p.1)
      → fate j
          (if bytes_equal base l.base
            then change_links s m base ls (change_link s m base l db)
            else change_links s m base ls (r, db)).1
        ≡ fate j db
  next_link-same base l ls r db rest = elim (Bool-cases (bytes_equal base l.base)) [
    | inl t ↦ rw t (rest (change_link s m base l db) ∙ change_link-same base l db)
    | inr f ↦ rw f (rest (r, db))
  ]

  pub change_links-same :
      (base : Bytes) (ls : List Link) (p : Result (Unit {0}) × Db)
      → fate j (change_links s m base ls p).1 ≡ fate j p.1
  unfolding change_links
  change_links-same base ls (panic, db) = refl
  change_links-same base [] (ok done, db) = refl
  change_links-same base [] (err e, db) = refl
  change_links-same base (l ∷ ls) (ok done, db) =
      next_link-same base l ls (ok done) db (change_links-same base ls)
  change_links-same base (l ∷ ls) (err e, db) =
      next_link-same base l ls (err e) db (change_links-same base ls)

  block_peers-same :
      (rs : List PeerRecord) (n : Holder) → fate j (block_peers rs n).db ≡ fate j n.db
  unfolding block_peers
  block_peers-same [] n = refl
  block_peers-same (r ∷ rs) n = block_peers-same rs _ ∙ drop-same s.codec j r.id n.db

  add_list-same :
      (t : Bytes) (records : List PeerRecord) (n : Holder)
      → fate j (add_list s m t records n).1.db ≡ fate j n.db
  unfolding add_list
  add_list-same t records n =
      let added = add_to_list s.codec (some m) t records n.db in
      let first = add_to_list-same s.codec j (some m) t records n.db in
      each_result (λ (o : Reply × Holder). fate j o.1.db ≡ fate j n.db) added.0 _ _ _
        (λ done. elim (Bool-cases (bytes_equal t blocked_list)) [
          | inl e ↦ rw e (block_peers-same records (record n { db = added.1 }) ∙ first)
          | inr e ↦ rw e first
        ])
        (λ e. first) first

  pub receive_list_add-same :
      (t : Bytes) (peers : List Bytes) (w : ℕ) (warrant : Bytes) (n : Holder)
      → fate j (receive_list_add s m t peers w warrant n).1.db ≡ fate j n.db
  unfolding receive_list_add
  receive_list_add-same t peers w warrant n =
      each_result (λ (o : Reply × Holder). fate j o.1.db ≡ fate j n.db)
        (check_list_add s peers w warrant n) _ _ _ (λ records. add_list-same t records n)
        (λ e. refl) refl
