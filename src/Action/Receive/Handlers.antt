-- ===== src/Action/Receive/Handlers.antt =====
-- action.go: what the handlers of put, mod, del and link do to the store.
use holochain.Base.{
  Bytes, ℕ, List, [], ◌∷◌, ◌++◌, Option, none, some, ◌≡◌, ◌≢◌, refl, inl, inr, subst, sym, ap, ◌∙◌,
  Option-cases, bytes_equal, if◌then◌else◌,
}
use holochain.Base.Map.{lookup}
use holochain.Base.Result.{
  Error, Result, ok, err, panic, hash_not_found, ◌>>=◌, ◌>>◌, entry_type_mismatch, >>=-eq-ok,
  or_panic, or_foreign, guard, ok_injective, each_outcome,
}
use holochain.Hash.{Hash, hash_string}
use holochain.Entry.{EntryDef, is_sys_entry}
use holochain.Header.{Header}
use holochain.Platform.{text}
use holochain.Chain.{Chain, get_entry_header}
use holochain.Kad.Bucket.{PeerId}
use holochain.Zome.{get_entry_def}
use holochain.Dht.Store.{Db, Message, exists, status_default}
use holochain.Action.{
  DelEntry, del_action, ValidateResponse, Services, Holder, Reply, reply, queued_for_retry,
}
use holochain.Action.System.{
  content_text, check_deletable, check_own, validate_defined, validate_del, sys_validation,
  validate_action,
}
use holochain.Action.Receive.{
  queue_if_unknown, retry_if_hash_not_found, when_known, receive_mod, receive_del, receive_link,
  store_del, validate_del_request, run_validation_phase,
}

module _ (s : Services) where
  -- A message that is queued leaves the store.
  pub queue_if_unknown-same :
      (m : Message) (k : ℕ) (n : Holder) (r : Result (Option Error))
      → (queue_if_unknown s m k n r).1.db ≡ n.db
  unfolding queue_if_unknown
  queue_if_unknown-same m k n (ok none) = refl
  queue_if_unknown-same m k n (ok (some hash_not_found)) = refl
  queue_if_unknown-same m k n (ok (some e)) = refl
  queue_if_unknown-same m k n (err e) = refl
  queue_if_unknown-same m k n panic = refl

  -- A deletion is accepted only of an entry in the chain of the node that validates it.
  validate_action-own :
      (chain : Chain) (t u : Bytes) (e : DelEntry) (from : List PeerId) {def : EntryDef}
      → validate_action s chain (del_action t e) u from ≡ ok def
      → (hd : Header) × (get_entry_header s.platform e.hash chain ≡ ok hd)
  unfolding validate_action validate_defined sys_validation validate_del check_own
  validate_action-own chain t u e from v =
      let (def, a, v1) =
        >>=-eq-ok (get_entry_def u s.zomes >>= or_panic)
          (validate_defined s chain (del_action t e) from) v in
      let (done, b, v2) =
        >>=-eq-ok
          (validate_del s chain def t e
            >> (if is_sys_entry def then ok tt else s.app_validate (del_action t e) def from))
          (λ done. ok def) v1 in
      let (done1, c, v3) =
        >>=-eq-ok (validate_del s chain def t e)
          (λ done. if is_sys_entry def then ok tt else s.app_validate (del_action t e) def from)
          b in
      let (done2, d, v4) = >>=-eq-ok (check_deletable s def) (λ done. check_own s chain t e) c in
      let (hd, found, same) =
        >>=-eq-ok (get_entry_header s.platform e.hash chain)
          (λ hd. guard (bytes_equal hd.type t) entry_type_mismatch) v4 in
      (hd, found)

  abbrev delete_checked : Message → Holder → ValidateResponse → DelEntry → Result Hash
  delete_checked m n resp d =
      validate_action s n.chain (del_action resp.type d) resp.type (m.from ∷ []) >>= λ def.
      ok d.hash

  abbrev delete_decoded : Message → Holder → ValidateResponse → Bytes → Result Hash
  delete_decoded m n resp b = or_foreign (s.del_entry b) >>= delete_checked m n resp

  elsewhere :
      (chain : Chain) (e : DelEntry)
      → lookup (hash_string s.platform.b58 e.hash) chain.emap ≡ none
      → (hd : Header) → get_entry_header s.platform e.hash chain ≢ ok hd
  unfolding get_entry_header
  elsewhere chain e absent hd = rw absent (λ own. cc)

  store_del-elsewhere :
      (m : Message) (n : Holder) (resp : ValidateResponse) (t : Bytes) (e : DelEntry)
      → resp.entry ≡ text t
      → s.del_entry t ≡ some e
      → lookup (hash_string s.platform.b58 e.hash) n.chain.emap ≡ none
      → (store_del s m n resp).1 ≡ n.db
  unfolding store_del get_entry_header
  store_del-elsewhere m n resp t e content decoded absent =
      each_outcome (λ (o : Result (Unit {0}) × Db). o.1 ≡ n.db) _ _ _ _
        (λ hash planned.
          let (b, p, v1) =
            >>=-eq-ok (content_text (some resp.entry)) (delete_decoded m n resp) planned in
          let (d, q, v2) = >>=-eq-ok (or_foreign (s.del_entry b)) (delete_checked m n resp) v1 in
          let (def, valid, v3) =
            >>=-eq-ok (validate_action s n.chain (del_action resp.type d) resp.type (m.from ∷ []))
              (λ def. ok d.hash) v2 in
          let (hd, own) = validate_action-own n.chain resp.type resp.type d (m.from ∷ []) valid in
          let same : t ≡ b = ok_injective (sym (ap (λ c. content_text (some c)) content) ∙ p) in
          let known : e ≡ d =
            ok_injective
              (sym (ap or_foreign decoded) ∙ ap (λ c. or_foreign (s.del_entry c)) same ∙ q) in
          absurd (
            elsewhere n.chain e absent hd
              (subst (λ d. get_entry_header s.platform d.hash n.chain ≡ ok hd) (sym known) own)))
        (λ why. refl) refl

  when_known-same :
      (h : Hash) (m : Message) (k : ℕ) (n : Holder) (change : Result (Unit {0}) × Db)
      → change.1 ≡ n.db
      → (when_known s h m k n change).1.db ≡ n.db
  unfolding when_known retry_if_hash_not_found
  when_known-same h m k n change same =
      let r = exists s.codec h status_default n.db in
      elim (Option-cases (queue_if_unknown s m k n r).0) [
        | inl e ↦ rw (e, when_known) same
        | inr (o, e) ↦ rw (e, when_known) (queue_if_unknown-same m k n r)
      ]

  -- A deletion that its source sends leaves the store as it is on every node whose own chain does
  -- not index the deleted entry.
  pub receive_del-elsewhere :
      (m : Message) (h by : Hash) (k : ℕ) (n : Holder) (resp : ValidateResponse) (t : Bytes)
      (e : DelEntry)
      → s.ask m.from validate_del_request by ≡ ok resp
      → resp.entry ≡ text t
      → s.del_entry t ≡ some e
      → lookup (hash_string s.platform.b58 e.hash) n.chain.emap ≡ none
      → (receive_del s m h by k n).1.db ≡ n.db
  unfolding receive_del run_validation_phase
  receive_del-elsewhere m h by k n resp t e asked content decoded absent =
      when_known-same h m k n
        (run_validation_phase s m.from validate_del_request by (store_del s m n) n.db)
        (rw (asked, run_validation_phase) (store_del-elsewhere m n resp t e content decoded absent))

  abbrev pub waiting : Message → ℕ → Holder → Reply × Holder
  waiting m k n = (reply queued_for_retry, record n { retries = n.retries ++ (m, k) ∷ [] })

  when_known-waiting :
      (h : Hash) (m : Message) (k : ℕ) (n : Holder) (change : Result (Unit {0}) × Db)
      → exists s.codec h status_default n.db ≡ ok (some hash_not_found)
      → when_known s h m k n change ≡ waiting m k n
  unfolding when_known retry_if_hash_not_found queue_if_unknown
  when_known-waiting h m k n change e =
      let queued : retry_if_hash_not_found s h m k n
          ≡ (some (reply queued_for_retry), record n { retries = n.retries ++ (m, k) ∷ [] }) =
        ap (queue_if_unknown s m k n) e in
      rw (queued, when_known)
        (ap (λ (p : Option Reply × Holder). (reply queued_for_retry, p.1)) queued)

  -- While the hash that it is about is not found, a mod, a del or a link changes nothing but that
  -- it waits for another try, and is answered so.
  pub receive-unknown :
      (m : Message) (h other : Hash) (k : ℕ) (n : Holder)
      → exists s.codec h status_default n.db ≡ ok (some hash_not_found)
      → (receive_mod s m h other k n ≡ waiting m k n)
        × (receive_del s m h other k n ≡ waiting m k n)
        × (receive_link s m h other k n ≡ waiting m k n)
  unfolding receive_mod receive_del receive_link
  receive-unknown m h other k n e = (
    when_known-waiting h m k n _ e,
    when_known-waiting h m k n _ e,
    when_known-waiting h m k n _ e,
  )
