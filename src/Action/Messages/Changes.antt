-- ===== src/Action/Messages/Changes.antt =====
-- action.go: the changes of the store that a message makes.
use holochain.Base.{
  Bytes, ℕ, zero, suc, List, [], ◌∷◌, some, inl, inr, Bool-cases, Option-cases, bytes_equal,
  if◌then◌else◌,
}
use holochain.Base.Result.{Result, ok, err, panic, each_result}
use holochain.Hash.{Hash, hash_string}
use holochain.Kad.Bucket.{PeerId}
use holochain.Dht.Store.{
  Db, Message, Body, put_req, del_req, mod_req, link_req, get_req, link_query, list_add_req,
  app_msg, other, exists, status_default,
}
use holochain.Dht.Gossip.{have_fingerprint, delete_gossiper}
use holochain.Dht.Gossip.Changes.{
  Change, by_put, by_del, by_mod, by_put_link, by_del_link, by_list, by_drop,
}
use holochain.Dht.Gossip.History.{Reaches, here, more, Reaches-trans}
use holochain.Dht.Gossip.Exchange.{Put, gossip_put, handle_gossip_puts, PeerRecord, add_to_list}
use holochain.Action.{Link, ValidateResponse, Services, Holder, Reply}
use holochain.Action.Receive.{
  run_validation_phase, store_put, store_mod, store_del, store_links, change_link, change_links,
  queue_if_unknown, retry_if_hash_not_found, when_known, receive_put, receive_mod, receive_del,
  receive_link, del_action_name,
}
use holochain.Action.Receive.Handlers.{queue_if_unknown-same}
use holochain.Action.Messages.{
  max_retries, blocked_list, make_action_from_message, block_peers, check_list_add, add_list,
  receive_list_add, receive, action_receiver, retry_queue,
}

module _ (s : Services) where
  abbrev pub Grows : Db → Db → Type 0
  Grows = Reaches s.codec

  one-Change : (a b : Db) → Change s.codec a b → Grows a b
  one-Change a b c = more a a b (here a) c

  -- The store after a change of it, in the state that the change returns.
  abbrev Changed : Db → Result (Unit {0}) × Db → Type 0
  Changed db r = Grows db r.1

  failed :
      {A : Type 0} (db : Db) (r : Result A) (f : A → Result (Unit {0}) × Db)
      → ((a : A) → Changed db (f a))
      → Changed db (elim r [ ok a ↦ f a | err e ↦ (err e, db) | panic ↦ (panic, db) ])
  failed db r f h =
      each_result (Changed db) r f (λ e. (err e, db)) (panic, db) h (λ e. here db) (here db)

  run_validation_phase-Changed :
      (source : PeerId) (t : ℕ) (query : Hash) (handler : ValidateResponse → Result (Unit {0}) × Db)
      (db : Db)
      → ((resp : ValidateResponse) → Changed db (handler resp))
      → Changed db (run_validation_phase s source t query handler db)
  unfolding run_validation_phase
  run_validation_phase-Changed source t query handler db h =
      failed db (s.ask source t query) handler h

  receive_put-Grows : (m : Message) (h : Hash) (n : Holder) → Grows n.db (receive_put s m h n).1.db
  unfolding receive_put store_put
  receive_put-Grows m h n =
      run_validation_phase-Changed m.from 10 h (store_put s m h n) n.db λ resp.
        failed n.db _ _
          λ (status, b). one-Change n.db _ (by_put (some m) resp.type h m.from b status n.db)

  store_mod-Changed :
      (m : Message) (h new : Hash) (n : Holder) (resp : ValidateResponse)
      → Changed n.db (store_mod s m h new n resp)
  unfolding store_mod
  store_mod-Changed m h new n resp = failed n.db _ _ λ def. one-Change n.db _ (by_mod m h new n.db)

  store_del-Changed :
      (m : Message) (n : Holder) (resp : ValidateResponse) → Changed n.db (store_del s m n resp)
  unfolding store_del
  store_del-Changed m n resp = failed n.db _ _ λ hash. one-Change n.db _ (by_del (some m) hash n.db)

  change_link-Changed :
      (m : Message) (base : Bytes) (l : Link) (db : Db) → Changed db (change_link s m base l db)
  unfolding change_link
  change_link-Changed m base l db = elim (Bool-cases (bytes_equal l.link_action del_action_name)) [
    | inl t ↦ rw t (one-Change db _ (by_del_link m base l.link l.tag db))
    | inr f ↦ rw f (one-Change db _ (by_put_link m base l.link l.tag db))
  ]

  next_link-Grows :
      (m : Message) (base : Bytes) (l : Link) (ls : List Link) (r : Result (Unit {0})) (db : Db)
      → ((p : Result (Unit {0}) × Db) → Grows p.1 (change_links s m base ls p).1)
      → Grows db
          (if bytes_equal base l.base
            then change_links s m base ls (change_link s m base l db)
            else change_links s m base ls (r, db)).1
  next_link-Grows m base l ls r db rest = elim (Bool-cases (bytes_equal base l.base)) [
    | inl t ↦ rw t (
        Reaches-trans s.codec db (change_link s m base l db).1 _ (change_link-Changed m base l db)
          (rest (change_link s m base l db)))
    | inr f ↦ rw f (rest (r, db))
  ]

  change_links-Grows :
      (m : Message) (base : Bytes) (ls : List Link) (p : Result (Unit {0}) × Db)
      → Grows p.1 (change_links s m base ls p).1
  unfolding change_links
  change_links-Grows m base ls (panic, db) = here db
  change_links-Grows m base [] (ok done, db) = here db
  change_links-Grows m base [] (err e, db) = here db
  change_links-Grows m base (l ∷ ls) (ok done, db) =
      next_link-Grows m base l ls (ok done) db (change_links-Grows m base ls)
  change_links-Grows m base (l ∷ ls) (err e, db) =
      next_link-Grows m base l ls (err e) db (change_links-Grows m base ls)

  store_links-Changed :
      (m : Message) (base : Hash) (n : Holder) (resp : ValidateResponse)
      → Changed n.db (store_links s m base n resp)
  unfolding store_links
  store_links-Changed m base n resp =
      failed n.db _ _
        λ links. change_links-Grows m (hash_string s.codec.b58 base) links (ok tt, n.db)

  when_known-Grows :
      (h : Hash) (m : Message) (k : ℕ) (n : Holder) (change : Result (Unit {0}) × Db)
      → Changed n.db change
      → Grows n.db (when_known s h m k n change).1.db
  unfolding when_known retry_if_hash_not_found
  when_known-Grows h m k n change c =
      elim (Option-cases (queue_if_unknown s m k n (exists s.codec h status_default n.db)).0) [
        | inl e ↦ rw (e, when_known) c
        | inr (r, e) ↦
            rw (e, when_known, queue_if_unknown-same s m k n (exists s.codec h status_default n.db))
              (here n.db)
      ]

  block_peers-Grows : (rs : List PeerRecord) (n : Holder) → Grows n.db (block_peers rs n).db
  unfolding block_peers
  block_peers-Grows [] n = here n.db
  block_peers-Grows (r ∷ rs) n =
      Reaches-trans s.codec n.db (delete_gossiper r.id n.db).1 _
        (one-Change n.db _ (by_drop r.id n.db)) (block_peers-Grows rs _)

  add_list-Grows :
      (m : Message) (t : Bytes) (records : List PeerRecord) (n : Holder)
      → Grows n.db (add_list s m t records n).1.db
  unfolding add_list
  add_list-Grows m t records n =
      let added = add_to_list s.codec (some m) t records n.db in
      let first = one-Change n.db _ (by_list (some m) t records n.db) in
      each_result (λ (o : Reply × Holder). Grows n.db o.1.db) added.0 _ _ _
        (λ done. elim (Bool-cases (bytes_equal t blocked_list)) [
          | inl e ↦ rw e (
              Reaches-trans s.codec n.db added.1 _ first
                (block_peers-Grows records (record n { db = added.1 })))
          | inr e ↦ rw e first
        ])
        (λ e. first) first

  receive_list_add-Grows :
      (m : Message) (t : Bytes) (peers : List Bytes) (w : ℕ) (warrant : Bytes) (n : Holder)
      → Grows n.db (receive_list_add s m t peers w warrant n).1.db
  unfolding receive_list_add
  receive_list_add-Grows m t peers w warrant n =
      each_result (λ (o : Reply × Holder). Grows n.db o.1.db) (check_list_add s peers w warrant n) _
        _ _ (λ records. add_list-Grows m t records n) (λ e. here n.db) (here n.db)

  receive-Grows :
      (m : Message) (k : ℕ) (body : Body) (n : Holder) → Grows n.db (receive s m k body n).1.db
  unfolding receive receive_mod receive_del receive_link
  receive-Grows m k (put_req h) n = receive_put-Grows m h n
  receive-Grows m k (del_req h by) n =
      when_known-Grows h m k n _
        (run_validation_phase-Changed m.from 12 by (store_del s m n) n.db (store_del-Changed m n))
  receive-Grows m k (mod_req h new) n = when_known-Grows h m k n _ (
      run_validation_phase-Changed m.from 13 new (store_mod s m h new n) n.db
        (store_mod-Changed m h new n))
  receive-Grows m k (link_req base links) n = when_known-Grows base m k n _ (
      run_validation_phase-Changed m.from 11 links (store_links s m base n) n.db
        (store_links-Changed m base n))
  receive-Grows m k (get_req h status_mask get_mask) n = here n.db
  receive-Grows m k (link_query base t status_mask) n = here n.db
  receive-Grows m k (list_add_req t peers w warrant) n =
      receive_list_add-Grows m t peers w warrant n
  receive-Grows m k (app_msg zome_type body) n = here n.db
  receive-Grows m k (other i) n = here n.db

  pub action_receiver-Grows :
      (m : Message) (k : ℕ) (n : Holder) → Grows n.db (action_receiver s m k n).1.db
  unfolding action_receiver
  action_receiver-Grows m k n =
      each_result (λ (o : Reply × Holder). Grows n.db o.1.db) (make_action_from_message m) _ _ _
        (λ body. receive-Grows m k body n) (λ e. here n.db) (here n.db)

  pub retry_queue-Grows :
      (rs : List (Message × ℕ)) (n : Holder) → Grows n.db (retry_queue s rs n).db
  unfolding retry_queue
  retry_queue-Grows [] n = here n.db
  retry_queue-Grows ((m, zero) ∷ rs) n = here n.db
  retry_queue-Grows ((m, suc k) ∷ rs) n = action_receiver-Grows m k (record n { retries = rs })

  abbrev pub gossiped : Message → Holder → Holder
  gossiped m n = (action_receiver s m max_retries n).1

  abbrev pub handle_gossiped : List Put → Holder → Holder
  handle_gossiped = handle_gossip_puts s.codec (λ n. n.db) gossiped

  gossip_put-Grows :
      (p : Put) (n : Holder) → Grows n.db (gossip_put s.codec (λ n. n.db) gossiped p n).db
  unfolding gossip_put
  gossip_put-Grows (i, m) n = elim (Option-cases (s.codec.fingerprint m)) [
    | inl e ↦ rw (e, gossip_put) (here n.db)
    | inr (f, e) ↦ elim (Bool-cases (have_fingerprint s.codec f n.db)) [
      | inl known ↦ rw (e, gossip_put, known) (here n.db)
      | inr unknown ↦ rw (e, gossip_put, unknown) (action_receiver-Grows m max_retries n)
    ]
  ]

  pub handle_gossiped-Grows : (ps : List Put) (n : Holder) → Grows n.db (handle_gossiped ps n).db
  unfolding handle_gossip_puts
  handle_gossiped-Grows [] n = here n.db
  handle_gossiped-Grows (p ∷ ps) n =
      Reaches-trans s.codec n.db _ _ (gossip_put-Grows p n) (handle_gossiped-Grows ps _)
