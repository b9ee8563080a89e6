-- ===== src/Action/Messages/Early.antt =====
-- action.go and dht.go: a message that arrives before the hash that it is about.
use holochain.Base.{ℕ, suc, [], Option, none, some, ◌≡◌, refl, subst, sym}
use holochain.Base.Result.{ok, hash_not_found}
use holochain.Hash.{Hash}
use holochain.Dht.Store.{
  Message, Body, put_req, del_req, mod_req, link_req, get_req, link_query, list_add_req, app_msg,
  other, exists, status_default,
}
use holochain.Action.{Services, Holder}
use holochain.Action.Receive.{receive_put, store_put, run_validation_phase}
use holochain.Action.Receive.Handlers.{waiting, receive-unknown}
use holochain.Action.Messages.{
  make_action_from_message, receive, action_receiver, retry_queue, retry_task,
}

-- The hash that has to be known before a request is handled.
abbrev pub changed_hash : Body → Option Hash
changed_hash (mod_req h new) = some h
changed_hash (del_req h by) = some h
changed_hash (link_req base links) = some base
changed_hash _ = none

module _ (s : Services) where
  of_hash :
      (i h : Hash)
      → some i ≡ some h
      → (n : Holder) → exists s.codec h status_default n.db ≡ ok (some hash_not_found)
      → exists s.codec i status_default n.db ≡ ok (some hash_not_found)
  of_hash i h same n unknown =
      let e : i ≡ h = cc in
      subst (λ h. exists s.codec h status_default n.db ≡ ok (some hash_not_found)) (sym e) unknown

  receive-waiting :
      (m : Message) (body : Body) (h : Hash) (k : ℕ) (n : Holder)
      → changed_hash body ≡ some h
      → exists s.codec h status_default n.db ≡ ok (some hash_not_found)
      → receive s m k body n ≡ waiting s m k n
  unfolding receive
  receive-waiting m (mod_req i new) h k n about unknown =
      (receive-unknown s m i new k n (of_hash i h about n unknown)).0
  receive-waiting m (del_req i by) h k n about unknown =
      (receive-unknown s m i by k n (of_hash i h about n unknown)).1
  receive-waiting m (link_req i links) h k n about unknown =
      (receive-unknown s m i links k n (of_hash i h about n unknown)).2
  receive-waiting m (put_req i) h k n about unknown = cc
  receive-waiting m (get_req i status_mask get_mask) h k n about unknown = cc
  receive-waiting m (link_query i t status_mask) h k n about unknown = cc
  receive-waiting m (list_add_req t peers w warrant) h k n about unknown = cc
  receive-waiting m (app_msg zome_type b) h k n about unknown = cc
  receive-waiting m (other i) h k n about unknown = cc

  action_receiver-waiting :
      (m : Message) (body : Body) (h : Hash) (k : ℕ) (n : Holder)
      → make_action_from_message m ≡ ok body
      → changed_hash body ≡ some h
      → exists s.codec h status_default n.db ≡ ok (some hash_not_found)
      → action_receiver s m k n ≡ waiting s m k n
  unfolding action_receiver
  action_receiver-waiting m body h k n made about unknown =
      rw (made, action_receiver) (receive-waiting m body h k n about unknown)

  action_receiver-put :
      (p : Message) (h : Hash) (j : ℕ) (n : Holder)
      → make_action_from_message p ≡ ok (put_req h)
      → action_receiver s p j n ≡ receive_put s p h n
  unfolding action_receiver receive
  action_receiver-put p h j n made = rw (made, action_receiver) refl

  -- On a node where nothing waits, a mod, a del or a link that arrives before the hash that it is
  -- about, followed by the put of a hash and one run of the retry task, leaves the node as it is
  -- where the put comes first and the message has one try less.
  pub action_receiver-early :
      (m p : Message) (body : Body) (h put_hash : Hash) (k j : ℕ) (n : Holder)
      → make_action_from_message m ≡ ok body
      → changed_hash body ≡ some h
      → exists s.codec h status_default n.db ≡ ok (some hash_not_found)
      → make_action_from_message p ≡ ok (put_req put_hash)
      → n.retries ≡ []
      → retry_task s (action_receiver s p j (action_receiver s m (suc k) n).1).1
        ≡ (action_receiver s m k (action_receiver s p j n).1).1
  unfolding retry_task retry_queue receive_put store_put run_validation_phase
  action_receiver-early m p body h put_hash k j n made about unknown putting empty =
      rw (action_receiver-waiting m body h (suc k) n made about unknown) (
        rw
          (
            action_receiver-put p put_hash j (waiting s m (suc k) n).1 putting,
            action_receiver-put p put_hash j n putting,
            empty,
          )
          refl)
