-- ===== src/Action/Messages/Retries.antt =====
-- dht.go: the tries of the messages that wait for a hash.
use holochain.Base.{
  Bytes, ℕ, zero, suc, ◌+◌, ◌-◌, ◌≤◌, List, [], ◌∷◌, ◌++◌, Option, none, some, ◌≡◌, refl, ◌⊎◌, inl,
  inr, Bool-cases, Option-cases, arith, ap, bytes_equal,
}
use holochain.Base.Result.{Error, Result, ok, err, panic, hash_not_found, each_result}
use holochain.Hash.{Hash}
use holochain.Dht.Store.{
  Db, Message, Body, put_req, del_req, mod_req, link_req, get_req, link_query, list_add_req,
  app_msg, other, exists, status_default,
}
use holochain.Dht.Gossip.Exchange.{PeerRecord, add_to_list}
use holochain.Action.{Services, Holder, Reply}
use holochain.Action.Receive.{
  queue_if_unknown, retry_if_hash_not_found, when_known, receive_put, receive_mod, receive_del,
  receive_link,
}
use holochain.Action.Messages.{
  blocked_list, make_action_from_message, block_peers, check_list_add, add_list, receive_list_add,
  receive, action_receiver, retry_queue, retry_task,
}

-- The tries that are left, and one more for each message to be dropped.
unfoldable pub tries : List (Message × ℕ) → ℕ
tries [] = 0
tries ((m, k) ∷ rs) = k + 1 + tries rs

tries-snoc :
    (rs : List (Message × ℕ)) (m : Message) (k : ℕ) → tries (rs ++ (m, k) ∷ []) ≡ tries rs + k + 1
unfolding tries
tries-snoc [] m k = omega arith
tries-snoc ((o, j) ∷ rs) m k = omega (arith, tries-snoc rs m k)

-- A message that is handled is queued again at most once, with the tries it has left.
unfoldable pub Requeues : Message → ℕ → Holder → Holder → Type 0
Requeues m k a b = (b.retries ≡ a.retries) ⊎ (b.retries ≡ a.retries ++ (m, k) ∷ [])

module _ (s : Services) (m : Message) (k : ℕ) where
  abbrev Kept : Holder → Reply × Holder → Type 0
  Kept n o = Requeues m k n o.1

  queue_if_unknown-Kept :
      (n : Holder) (r : Result (Option Error)) → Requeues m k n (queue_if_unknown s m k n r).1
  unfolding queue_if_unknown Requeues
  queue_if_unknown-Kept n (ok none) = inl refl
  queue_if_unknown-Kept n (ok (some hash_not_found)) = inr refl
  queue_if_unknown-Kept n (ok (some e)) = inl refl
  queue_if_unknown-Kept n (err e) = inl refl
  queue_if_unknown-Kept n panic = inl refl

  when_known-Kept :
      (h : Hash) (n : Holder) (change : Result (Unit {0}) × Db)
      → Kept n (when_known s h m k n change)
  unfolding when_known retry_if_hash_not_found Requeues
  when_known-Kept h n change =
      let r = exists s.codec h status_default n.db in
      elim (Option-cases (queue_if_unknown s m k n r).0) [
        | inl e ↦ rw (e, when_known) (inl refl)
        | inr (o, e) ↦ rw (e, when_known) (queue_if_unknown-Kept n r)
      ]

  block_peers-same : (rs : List PeerRecord) (n : Holder) → (block_peers rs n).retries ≡ n.retries
  unfolding block_peers
  block_peers-same [] n = refl
  block_peers-same (r ∷ rs) n = block_peers-same rs _

  add_list-Kept :
      (t : Bytes) (records : List PeerRecord) (n : Holder) → Kept n (add_list s m t records n)
  unfolding add_list Requeues
  add_list-Kept t records n =
      let added = add_to_list s.codec (some m) t records n.db in
      each_result (Kept n) added.0 _ _ _
        (λ done. elim (Bool-cases (bytes_equal t blocked_list)) [
          | inl e ↦ rw e (inl (block_peers-same records (record n { db = added.1 })))
          | inr e ↦ rw e (inl refl)
        ])
        (λ e. inl refl) (inl refl)

  receive-Kept : (body : Body) (n : Holder) → Kept n (receive s m k body n)
  unfolding receive receive_put receive_mod receive_del receive_link receive_list_add Requeues
  receive-Kept (put_req h) n = inl refl
  receive-Kept (del_req h by) n = when_known-Kept h n _
  receive-Kept (mod_req h new) n = when_known-Kept h n _
  receive-Kept (link_req base links) n = when_known-Kept base n _
  receive-Kept (get_req h status_mask get_mask) n = inl refl
  receive-Kept (link_query base t status_mask) n = inl refl
  receive-Kept (list_add_req t peers w warrant) n =
      each_result (Kept n) (check_list_add s peers w warrant n) _ _ _
        (λ records. add_list-Kept t records n) (λ e. inl refl) (inl refl)
  receive-Kept (app_msg zome_type body) n = inl refl
  receive-Kept (other i) n = inl refl

  action_receiver-Kept : (n : Holder) → Kept n (action_receiver s m k n)
  unfolding action_receiver Requeues
  action_receiver-Kept n =
      each_result (Kept n) (make_action_from_message m) _ _ _ (λ body. receive-Kept body n)
        (λ e. inl refl) (inl refl)

  action_receiver-tries :
      (n : Holder) → tries (action_receiver s m k n).1.retries ≤ tries n.retries + k + 1
  unfolding Requeues
  action_receiver-tries n = elim (action_receiver-Kept n) [
    | inl e ↦ omega (arith, ap tries e)
    | inr e ↦ omega (arith, ap tries e, tries-snoc n.retries m k)
  ]

module _ (s : Services) where
  retry_queue-tries :
      (rs : List (Message × ℕ)) (n : Holder)
      → n.retries ≡ rs
      → tries (retry_queue s rs n).retries ≤ tries rs - 1
  unfolding retry_queue tries
  retry_queue-tries [] n e = omega (arith, ap tries e)
  retry_queue-tries ((m, zero) ∷ rs) n e = omega arith
  retry_queue-tries ((m, suc k) ∷ rs) n e =
      omega (arith, action_receiver-tries s m k (record n { retries = rs }))

  -- The task, run a number of times.
  unfoldable pub retry_tasks : ℕ → Holder → Holder
  retry_tasks zero n = n
  retry_tasks (suc j) n = retry_tasks j (retry_task s n)

  tries-zero : (rs : List (Message × ℕ)) → tries rs ≤ 0 → rs ≡ []
  unfolding tries
  tries-zero [] h = refl
  tries-zero ((m, k) ∷ rs) h = absurd (omega arith)

  -- However often messages are queued again, after as many runs of the retry task as the messages
  -- that wait have tries left, one more for each message counted, none waits.
  pub retry_tasks-drain :
      (j : ℕ) (n : Holder) → tries n.retries ≤ j → (retry_tasks j n).retries ≡ []
  unfolding retry_tasks retry_task
  retry_tasks-drain zero n h = tries-zero n.retries h
  retry_tasks-drain (suc j) n h =
      retry_tasks-drain j (retry_task s n) (omega (arith, retry_queue-tries n.retries n refl))
