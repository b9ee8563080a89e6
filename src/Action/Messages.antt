-- ===== src/Action/Messages.antt =====
-- action.go, nucleus.go and dht.go: `MakeActionFromMessage`, `actionReceiver`, `ListAdd` and the
-- task that tries the waiting messages again.
pub mod Changes
pub mod Early
pub mod Lives
pub mod Untouched
pub mod Runs
pub mod Retries
use holochain.Base.{
  Bytes, ℕ, zero, suc, ◌-◌, List, [], ◌∷◌, Bool, true, false, Option, none, some, ◌==◌, ltb,
  if◌then◌else◌, bytes_equal, codes,
}
use holochain.Node.{block}
use holochain.Base.Result.{
  Error, Result, ok, err, panic, unexpected_body, not_in_protocol, list_add_rejected, ◌>>=◌,
  or_foreign,
}
use holochain.Kad.Bucket.{PeerId}
use holochain.Zome.{Zome, get_zome}
use holochain.Warrant.{decode_warrant, verify_warrant}
use holochain.Dht.Store.{
  Db, Message, Body, put_req, del_req, mod_req, link_req, get_req, link_query, list_add_req,
  app_msg, other,
}
use holochain.Dht.Gossip.{delete_gossiper}
use holochain.Dht.Gossip.Exchange.{PeerRecord, add_to_list}
use holochain.Action.{
  Services, Holder, Response, change_ok, app_reply, Reply, reply, refused, panics,
}
use holochain.Action.Receive.{receive_put, receive_mod, receive_del, receive_link}
use holochain.Action.Get.{receive_get, receive_get_links}

abbrev pub put_request : ℕ
put_request = 2

abbrev pub del_request : ℕ
del_request = 3

abbrev pub mod_request : ℕ
mod_request = 4

abbrev pub get_request : ℕ
get_request = 5

abbrev pub link_request : ℕ
link_request = 6

abbrev pub getlink_request : ℕ
getlink_request = 7

abbrev pub app_message : ℕ
app_message = 14

abbrev pub listadd_request : ℕ
listadd_request = 15

abbrev pub blocked_list : Bytes
blocked_list = codes "blockedlist"

abbrev pub max_retries : ℕ
max_retries = 10

-- The message type whose request a body is; 0 is the type of no request.
abbrev pub request_of : Body → ℕ
request_of (put_req h) = put_request
request_of (del_req h by) = del_request
request_of (mod_req h new) = mod_request
request_of (link_req base links) = link_request
request_of (get_req h status_mask get_mask) = get_request
request_of (link_query base t status_mask) = getlink_request
request_of (list_add_req list_type peers warrant_type warrant) = listadd_request
request_of (app_msg zome_type body) = app_message
request_of (other n) = 0

abbrev pub is_request : ℕ → Bool
is_request t =
    if ltb 1 t
    then (if ltb t 8 then true else if t == app_message then true else t == listadd_request)
    else false

-- `MakeActionFromMessage`: the type of a message decides its action and the type of its body.
unfoldable pub make_action_from_message : Message → Result Body
make_action_from_message m =
    if is_request m.type
    then if request_of m.body == m.type then ok m.body else err unexpected_body
    else err (not_in_protocol m.type)

unfoldable pub decode_peers : (Bytes → Option PeerId) → List Bytes → Result (List PeerRecord)
decode_peers decode [] = ok []
decode_peers decode (p ∷ ps) = do
  id ← or_foreign (decode p)
  records ← decode_peers decode ps
  ok (record { id = id; warrant = [] } ∷ records)

-- `Block` and `DeleteGossiper` for each peer.
unfoldable pub block_peers : List PeerRecord → Holder → Holder
unfolding block
block_peers [] n = n
block_peers (r ∷ rs) n =
    block_peers rs (record n { db = (delete_gossiper r.id n.db).1; blocked = block r.id n.blocked })

abbrev pub or_rejected : {A : Type 0} → Result A → Result A
or_rejected (ok a) = ok a
or_rejected (err e) = err list_add_rejected
or_rejected panic = panic

module _ (s : Services) where
  unfoldable pub check_list_add : List Bytes → ℕ → Bytes → Holder → Result (List PeerRecord)
  unfolding decode_peers verify_warrant
  check_list_add peers warrant_type warrant n = do
    records ← decode_peers s.decode_peer peers
    w ← or_rejected (decode_warrant s.revocation warrant_type warrant)
    _ ← or_rejected (verify_warrant s.keys s.codec n.db w)
    ok records

  unfoldable pub add_list : Message → Bytes → List PeerRecord → Holder → Reply × Holder
  unfolding add_to_list block_peers
  add_list m list_type records n =
      let added = add_to_list s.codec (some m) list_type records n.db in
      let n' : Holder = record n { db = added.1 } in
      elim added.0 [
        | ok done ↦ (
          reply change_ok,
          if bytes_equal list_type blocked_list then block_peers records n' else n',
        )
        | err e ↦ (refused none e, n')
        | panic ↦ (panics, n')
      ]

  unfoldable pub receive_list_add :
      Message → Bytes → List Bytes → ℕ → Bytes → Holder → Reply × Holder
  unfolding check_list_add add_list
  receive_list_add m list_type peers warrant_type warrant n =
      elim (check_list_add peers warrant_type warrant n) [
        | ok records ↦ add_list m list_type records n
        | err e ↦ (refused none e, n)
        | panic ↦ (panics, n)
      ]

  abbrev pub answer_app : Bytes → Result Bytes → Reply
  answer_app zome_type (ok body) = reply (app_reply zome_type body)
  answer_app zome_type (err e) = refused none e
  answer_app zome_type panic = panics

  unfoldable pub receive_app : Message → Bytes → Bytes → Reply
  receive_app m zome_type body =
      answer_app zome_type (get_zome zome_type s.zomes >>= λ z. s.app_receive z m.from body)

  unfoldable pub receive : Message → ℕ → Body → Holder → Reply × Holder
  unfolding receive_put receive_mod receive_del receive_link receive_get receive_get_links
      receive_list_add receive_app
  receive m retries (put_req h) n = receive_put s m h n
  receive m retries (del_req h by) n = receive_del s m h by retries n
  receive m retries (mod_req h new) n = receive_mod s m h new retries n
  receive m retries (link_req base links) n = receive_link s m base links retries n
  receive m retries (get_req h status_mask get_mask) n =
      (receive_get s m h status_mask get_mask n, n)
  receive m retries (link_query base t status_mask) n =
      (receive_get_links s base t status_mask n, n)
  receive m retries (list_add_req list_type peers warrant_type warrant) n =
      receive_list_add m list_type peers warrant_type warrant n
  receive m retries (app_msg zome_type body) n = (receive_app m zome_type body, n)
  receive m retries (other k) n = (refused none unexpected_body, n)

  -- `actionReceiver`; `ActionReceiver` gives it the maximal number of retries.
  unfoldable pub action_receiver : Message → ℕ → Holder → Reply × Holder
  unfolding make_action_from_message receive
  action_receiver m retries n = elim (make_action_from_message m) [
    | ok body ↦ receive m retries body n
    | err e ↦ (refused none e, n)
    | panic ↦ (panics, n)
  ]

  -- `RetryTask`: the message that waits longest.
  unfoldable pub retry_queue : List (Message × ℕ) → Holder → Holder
  unfolding action_receiver
  retry_queue [] n = n
  retry_queue ((m, zero) ∷ rs) n = record n { retries = rs }
  retry_queue ((m, suc k) ∷ rs) n = (action_receiver m k (record n { retries = rs })).1

  unfoldable pub retry_task : Holder → Holder
  unfolding retry_queue
  retry_task n = retry_queue n.retries n
