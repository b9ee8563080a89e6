-- ===== src/Action/Receive.antt =====
-- action.go, nucleus.go and dht.go: what a node does with the messages of the action protocol, and
-- the messages that wait until a hash is known. `retryQueue` is a list without a bound here.
pub mod Handlers
use Prim.Native.Nat.{bit_and, bit_or}
use holochain.Base.{
  Bytes, ℕ, zero, suc, ◌+◌, ◌-◌, List, [], ◌∷◌, ◌++◌, Bool, true, false, Option, none, some, ◌==◌,
  ltb, if◌then◌else◌, bytes_equal, codes,
}
use holochain.Base.Map.{Map, insert}
use holochain.Base.Result.{
  Error, Result, ok, err, panic, foreign, hash_not_found, hash_modified, gets_the_dna, ◌>>=◌,
  or_foreign,
}
use holochain.Hash.{Hash, hash_string}
use holochain.Entry.{dna_entry_type, key_entry_type}
use holochain.Platform.{Content, raw}
use holochain.Kad.Bucket.{PeerId}
use holochain.Kad.Table.{Table, nearest_peers}
use holochain.Dht.Store.{
  Db, Message, Got, put, del, modify, get, exists, status_default, status_live, status_rejected,
  get_mask_default, get_mask_entry, get_mask_entry_type, effective_mask,
}
use holochain.Dht.Links.{put_link, del_link, get_links}
use holochain.Action.{
  Link, put_action, mod_action, del_action, link_action_of, ValidateResponse, Services, Holder,
  GetResp, Response, change_ok, queued_for_retry, closer_peers, got_entry, got_links, Reply, reply,
  refused, panics,
}
use holochain.Action.System.{content_text, validate_action}

abbrev pub closer_peer_count : ℕ
closer_peer_count = 10

abbrev pub del_action_name : Bytes
del_action_name = codes "d"

abbrev pub validate_put_request : ℕ
validate_put_request = 10

abbrev pub validate_link_request : ℕ
validate_link_request = 11

abbrev pub validate_del_request : ℕ
validate_del_request = 12

abbrev pub validate_mod_request : ℕ
validate_mod_request = 13

-- `betterPeersForHash`, from the peers that are nearest: none if the node itself is among them.
unfoldable pub better_peers : PeerId → PeerId → List PeerId → List PeerId → List PeerId
better_peers self from filtered [] = filtered
better_peers self from filtered (p ∷ closer) =
    let rest = better_peers self from filtered closer in
    let more = better_peers self from (filtered ++ p ∷ []) closer in
    if bytes_equal p self then [] else if bytes_equal p from then rest else more

unfoldable pub better_peers_for_hash : Hash → PeerId → Holder → Result (List PeerId)
unfolding better_peers
better_peers_for_hash hash from n = do
  closer ← nearest_peers hash closer_peer_count n.table
  ok (better_peers n.self from [] closer)

-- `peers2PeerInfos`: the peers with an address.
unfoldable pub peer_infos : (PeerId → Bool) → List PeerId → List PeerId
peer_infos has_address [] = []
peer_infos has_address (p ∷ ps) =
    let rest = peer_infos has_address ps in if has_address p then p ∷ rest else rest

abbrev pub with_db : Holder → Result (Unit {0}) × Db → Result (Unit {0}) × Holder
with_db n (r, db) = (r, record n { db = db })

-- `response = DHTChangeOK`, beside the error of the validation phase.
abbrev pub answer : Result (Unit {0}) → Reply
answer (ok done) = reply change_ok
answer (err e) = refused (some change_ok) e
answer panic = panics

-- A node that knows closer peers answers with them in place of an error.
abbrev pub answer_closer : (PeerId → Bool) → Result (Unit {0}) → Result (List PeerId) → Reply
answer_closer has_address panic closest = panics
answer_closer has_address r (ok []) = answer r
answer_closer has_address r (ok (p ∷ ps)) = reply (closer_peers (peer_infos has_address (p ∷ ps)))
answer_closer has_address r _ = panics

module _ (s : Services) where
  -- `RunValidationPhase`: the source of an entry is asked for it.
  unfoldable pub run_validation_phase :
      PeerId → ℕ → Hash → (ValidateResponse → Result (Unit {0}) × Db) → Db → Result (Unit {0}) × Db
  run_validation_phase source msg_type query handler db = elim (s.ask source msg_type query) [
    | ok resp ↦ handler resp
    | err e ↦ (err e, db)
    | panic ↦ (panic, db)
  ]

  -- The entry is stored as live, or as rejected if it is not valid.
  abbrev pub put_status : Result (Unit {0}) → Result ℕ
  put_status (ok done) = ok status_live
  put_status (err e) = ok status_rejected
  put_status panic = panic

  unfoldable pub store_put : Message → Hash → Holder → ValidateResponse → Result (Unit {0}) × Db
  unfolding put
  store_put m h n resp =
      let checked =
        validate_action s n.chain (put_action (some resp.entry) (some resp.header)) resp.type
          (m.from ∷ []) in
      let planned : Result (ℕ × Bytes) = put_status (checked >>= λ def. ok tt) >>= λ status.
      or_foreign (s.platform.encode resp.entry) >>= λ b. ok (status, b) in
      elim planned [
        | ok (status, b) ↦ put s.codec (some m) resp.type h m.from b status n.db
        | err e ↦ (err e, n.db)
        | panic ↦ (panic, n.db)
      ]

  unfoldable pub receive_put : Message → Hash → Holder → Reply × Holder
  unfolding run_validation_phase store_put better_peers_for_hash
  receive_put m h n =
      let (r, db) = run_validation_phase m.from validate_put_request h (store_put m h n) n.db in
      (answer_closer s.has_address r (better_peers_for_hash h m.from n), record n { db = db })

  -- `retryIfHashNotFound`: a message about a hash that is not known waits for another try, and any
  -- other status but live is an error.
  unfoldable pub queue_if_unknown :
      Message → ℕ → Holder → Result (Option Error) → Option Reply × Holder
  queue_if_unknown m retries n (ok none) = (none, n)
  queue_if_unknown m retries n (ok (some hash_not_found)) =
      (some (reply queued_for_retry), record n { retries = n.retries ++ (m, retries) ∷ [] })
  queue_if_unknown m retries n (ok (some e)) = (some (refused none e), n)
  queue_if_unknown m retries n (err e) = (some (refused none e), n)
  queue_if_unknown m retries n panic = (some panics, n)

  unfoldable pub retry_if_hash_not_found : Hash → Message → ℕ → Holder → Option Reply × Holder
  unfolding queue_if_unknown
  retry_if_hash_not_found hash m retries n =
      queue_if_unknown m retries n (exists s.codec hash status_default n.db)

  -- What `Receive` of mod, del and link do about the hash that they change.
  unfoldable pub when_known : Hash → Message → ℕ → Holder → Result (Unit {0}) × Db → Reply × Holder
  unfolding retry_if_hash_not_found
  when_known hash m retries n change = elim (retry_if_hash_not_found hash m retries n).0 [
    | some r ↦ (r, (retry_if_hash_not_found hash m retries n).1)
    | none ↦ (answer change.0, record n { db = change.1 })
  ]

  unfoldable pub store_mod :
      Message → Hash → Hash → Holder → ValidateResponse → Result (Unit {0}) × Db
  store_mod m h new n resp =
      elim (validate_action s n.chain (mod_action (some resp.entry) (some resp.header) h) resp.type
        (m.from ∷ [])) [
          | ok def ↦ modify s.codec m h new n.db
          | err e ↦ (err e, n.db)
          | panic ↦ (panic, n.db)
        ]

  unfoldable pub receive_mod : Message → Hash → Hash → ℕ → Holder → Reply × Holder
  unfolding when_known run_validation_phase store_mod
  receive_mod m h new retries n =
      when_known h m retries n
        (run_validation_phase m.from validate_mod_request new (store_mod m h new n) n.db)

  unfoldable pub store_del : Message → Holder → ValidateResponse → Result (Unit {0}) × Db
  store_del m n resp =
      let planned : Result Hash = (do
        bytes ← content_text (some resp.entry)
        entry ← or_foreign (s.del_entry bytes)
        _ ← validate_action s n.chain (del_action resp.type entry) resp.type (m.from ∷ [])
        ok entry.hash) in
      elim planned [
        | ok hash ↦ del s.codec (some m) hash n.db
        | err e ↦ (err e, n.db)
        | panic ↦ (panic, n.db)
      ]

  unfoldable pub receive_del : Message → Hash → Hash → ℕ → Holder → Reply × Holder
  unfolding when_known run_validation_phase store_del
  receive_del m h by retries n =
      when_known h m retries n
        (run_validation_phase m.from validate_del_request by (store_del m n) n.db)

  -- The links of the entry that start at the base. The error of a link is that of the next one's
  -- change, so only the last one's is returned.
  unfoldable pub change_link : Message → Bytes → Link → Db → Result (Unit {0}) × Db
  unfolding put_link del_link
  change_link m base l =
      if bytes_equal l.link_action del_action_name
      then del_link s.codec m base l.link l.tag
      else put_link s.codec m base l.link l.tag

  unfoldable pub change_links :
      Message → Bytes → List Link → Result (Unit {0}) × Db → Result (Unit {0}) × Db
  unfolding change_link
  change_links m base ls (panic, db) = (panic, db)
  change_links m base [] (r, db) = (r, db)
  change_links m base (l ∷ ls) (r, db) =
      let rest = change_links m base ls in
      if bytes_equal base l.base then rest (change_link m base l db) else rest (r, db)

  unfoldable pub store_links : Message → Hash → Holder → ValidateResponse → Result (Unit {0}) × Db
  unfolding change_links
  store_links m base n resp =
      let planned : Result (List Link) = (do
        json ← content_text (some resp.entry)
        links ← or_foreign (s.links_entry json)
        _ ← validate_action s n.chain (link_action_of links base) resp.type (m.from ∷ [])
        ok links) in
      elim planned [
        | ok links ↦ change_links m (hash_string s.codec.b58 base) links (ok tt, n.db)
        | err e ↦ (err e, n.db)
        | panic ↦ (panic, n.db)
      ]

  unfoldable pub receive_link : Message → Hash → Hash → ℕ → Holder → Reply × Holder
  unfolding when_known run_validation_phase store_links
  receive_link m base links retries n =
      when_known base m retries n
        (run_validation_phase m.from validate_link_request links (store_links m base n) n.db)
