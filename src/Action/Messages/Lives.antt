-- ===== src/Action/Messages/Lives.antt =====
-- action.go: what one message of the action protocol does to an entry of the store.
use holochain.Base.{
  Bytes, ℕ, List, [], ◌∷◌, some, ◌≡◌, refl, ◌∙◌, ◌⊎◌, inl, inr, Bool-cases, Option-cases, ap, sym,
  subst, ◌==◌,
}
use holochain.Base.Result.{
  Result, ok, err, panic, ◌>>=◌, >>=-eq-ok, ok_injective, or_foreign, or_foreign-eq-ok,
  each_outcome, each_result,
}
use holochain.Hash.{Hash, hash_string}
use holochain.Kad.Bucket.{PeerId}
use holochain.Dht.Store.{
  Db, Message, Body, put_req, del_req, mod_req, link_req, get_req, link_query, list_add_req,
  app_msg, other, put, del, exists, status_default, status_live, status_rejected, status_deleted,
  status_modified,
}
use holochain.Dht.Fates.{Fate, fate, put-IsPut, del-IsMark, modify-IsMark}
use holochain.Action.{DelEntry, put_action, del_action, ValidateResponse, Services, Holder, Reply}
use holochain.Action.System.{content_text, validate_action}
use holochain.Action.Receive.{
  validate_put_request, validate_del_request, run_validation_phase, put_status, store_put,
  store_mod, store_del, store_links, queue_if_unknown, retry_if_hash_not_found, when_known,
  receive_put, receive_mod, receive_del, receive_link,
}
use holochain.Action.Receive.Handlers.{queue_if_unknown-same}
use holochain.Action.Messages.{
  request_of, is_request, make_action_from_message, receive, action_receiver,
}
use holochain.Action.Messages.Untouched.{change_links-same, receive_list_add-same}

module _ (s : Services) where
  -- What a body may do to what the store has of the hash `j`: a put stores the entry that its
  -- source sends, as live or as rejected; a mod marks the hash that it names as modified, and a del
  -- the hash that the entry of its source names as deleted, if it is stored, and keeps its value.
  pub data Turns (m : Message) (body : Body) (j : Bytes) (f g : Fate) : Type 0 where
    stays : g ≡ f → Turns m body j f g
    is_stored :
        (h : Hash) (resp : ValidateResponse) (value : Bytes) (status : ℕ)
        → body ≡ put_req h
        → hash_string s.codec.b58 h ≡ j
        → s.ask m.from validate_put_request h ≡ ok resp
        → s.platform.encode resp.entry ≡ some value
        → (status ≡ status_live) ⊎ (status ≡ status_rejected)
        → g ≡ (some value, some status)
        → Turns m body j f g
    is_modified :
        (h new : Hash) (value : Bytes)
        → body ≡ mod_req h new
        → hash_string s.codec.b58 h ≡ j
        → f.0 ≡ some value
        → g ≡ (some value, some status_modified)
        → Turns m body j f g
    is_deleted :
        (h by : Hash) (resp : ValidateResponse) (b : Bytes) (e : DelEntry) (value : Bytes)
        → body ≡ del_req h by
        → s.ask m.from validate_del_request by ≡ ok resp
        → content_text (some resp.entry) ≡ ok b
        → s.del_entry b ≡ some e
        → hash_string s.codec.b58 e.hash ≡ j
        → f.0 ≡ some value
        → g ≡ (some value, some status_deleted)
        → Turns m body j f g

  put_status-cases :
      (r : Result (Unit {0})) {status : ℕ}
      → put_status s r ≡ ok status
      → (status ≡ status_live) ⊎ (status ≡ status_rejected)
  put_status-cases (ok done) h = inl (sym (ok_injective h))
  put_status-cases (err e) h = inr (sym (ok_injective h))
  put_status-cases panic h = cc

  module _ (m : Message) (j : Bytes) where
    -- The store after a change of it, in the state that the change returns.
    abbrev Turned : Body → Db → Result (Unit {0}) × Db → Type 0
    Turned body db r = Turns m body j (fate j db) (fate j r.1)

    run_validation_phase-Turned :
        (body : Body) (source : PeerId) (t : ℕ) (query : Hash)
        (handler : ValidateResponse → Result (Unit {0}) × Db) (db : Db)
        → ((resp : ValidateResponse)
            → s.ask source t query ≡ ok resp
            → Turned body db (handler resp))
        → Turned body db (run_validation_phase s source t query handler db)
    unfolding run_validation_phase
    run_validation_phase-Turned body source t query handler db h =
        each_outcome (Turned body db) (s.ask source t query) handler (λ e. (err e, db)) (panic, db)
          h (λ e. stays refl) (stays refl)

    store_put-Turned :
        (h : Hash) (n : Holder) (resp : ValidateResponse)
        → s.ask m.from validate_put_request h ≡ ok resp
        → Turned (put_req h) n.db (store_put s m h n resp)
    unfolding store_put
    store_put-Turned h n resp asked =
        each_outcome (Turned (put_req h) n.db) _ _ (λ e. (err e, n.db)) (panic, n.db)
          (λ (status, b) planned.
            let (st, p, q) =
              >>=-eq-ok
                (put_status s (
                  validate_action s n.chain (put_action (some resp.entry) (some resp.header))
                    resp.type (m.from ∷ [])
                  >>= λ def. ok tt))
                (λ status. or_foreign (s.platform.encode resp.entry) >>= λ b. ok (status, b))
                planned in
            let (b', r, same) =
              >>=-eq-ok (or_foreign (s.platform.encode resp.entry)) (λ b. ok (st, b)) q in
            stored status b (put_status-cases _ (p ∙ ap ok (ap (λ z. z.0) (ok_injective same)))) (
              or_foreign-eq-ok (s.platform.encode resp.entry) r
              ∙ ap some (ap (λ z. z.1) (ok_injective same))))
          (λ e. stays refl) (stays refl)
      where
        stored :
            (status : ℕ) (b : Bytes)
            → (status ≡ status_live) ⊎ (status ≡ status_rejected)
            → s.platform.encode resp.entry ≡ some b
            → Turned (put_req h) n.db (put s.codec (some m) resp.type h m.from b status n.db)
        stored status b one_of encoded =
            elim (put-IsPut s.codec j (some m) resp.type h m.from b status n.db) [
              | inl same ↦ stays same
              | inr (k, e) ↦ is_stored h resp b status refl k asked encoded one_of e
            ]

    store_mod-Turned :
        (h new : Hash) (n : Holder) (resp : ValidateResponse)
        → Turned (mod_req h new) n.db (store_mod s m h new n resp)
    unfolding store_mod
    store_mod-Turned h new n resp =
        each_result (Turned (mod_req h new) n.db) _ _ (λ e. (err e, n.db)) (panic, n.db)
          (λ def. elim (modify-IsMark s.codec j m h new n.db) [
            | inl same ↦ stays same
            | inr (k, v, has, e) ↦ is_modified h new v refl k has e
          ])
          (λ e. stays refl) (stays refl)

    store_del-Turned :
        (h by : Hash) (n : Holder) (resp : ValidateResponse)
        → s.ask m.from validate_del_request by ≡ ok resp
        → Turned (del_req h by) n.db (store_del s m n resp)
    unfolding store_del
    store_del-Turned h by n resp asked =
        each_outcome (Turned (del_req h by) n.db) _ _ (λ e. (err e, n.db)) (panic, n.db)
          (λ hash planned.
            let (b, p, v1) =
              >>=-eq-ok (content_text (some resp.entry))
                (λ b. or_foreign (s.del_entry b) >>= checked) planned in
            let (d, q, v2) = >>=-eq-ok (or_foreign (s.del_entry b)) checked v1 in
            let (def, valid, v3) =
              >>=-eq-ok (validate_action s n.chain (del_action resp.type d) resp.type (m.from ∷ []))
                (λ def. ok d.hash) v2 in
            subst (λ h'. Turned (del_req h by) n.db (del s.codec (some m) h' n.db))
              (ok_injective v3) (marked b d p (or_foreign-eq-ok (s.del_entry b) q)))
          (λ e. stays refl) (stays refl)
      where
        checked : DelEntry → Result Hash
        checked d =
            validate_action s n.chain (del_action resp.type d) resp.type (m.from ∷ []) >>= λ def.
            ok d.hash

        marked :
            (b : Bytes) (d : DelEntry)
            → content_text (some resp.entry) ≡ ok b
            → s.del_entry b ≡ some d
            → Turned (del_req h by) n.db (del s.codec (some m) d.hash n.db)
        marked b d text decoded = elim (del-IsMark s.codec j (some m) d.hash n.db) [
          | inl same ↦ stays same
          | inr (k, v, has, e) ↦ is_deleted h by resp b d v refl asked text decoded k has e
        ]

    store_links-Turned :
        (base links : Hash) (n : Holder) (resp : ValidateResponse)
        → Turned (link_req base links) n.db (store_links s m base n resp)
    unfolding store_links
    store_links-Turned base links n resp =
        each_result (Turned (link_req base links) n.db) _ _ (λ e. (err e, n.db)) (panic, n.db)
          (λ ls. stays (change_links-same s m j (hash_string s.codec.b58 base) ls (ok tt, n.db)))
          (λ e. stays refl) (stays refl)

    when_known-Turned :
        (body : Body) (h : Hash) (k : ℕ) (n : Holder) (change : Result (Unit {0}) × Db)
        → Turned body n.db change
        → Turns m body j (fate j n.db) (fate j (when_known s h m k n change).1.db)
    unfolding when_known retry_if_hash_not_found
    when_known-Turned body h k n change c =
        let r = exists s.codec h status_default n.db in
        elim (Option-cases (queue_if_unknown s m k n r).0) [
          | inl e ↦ rw (e, when_known) c
          | inr (o, e) ↦ rw (e, when_known, queue_if_unknown-same s m k n r) (stays refl)
        ]

    receive-Turns :
        (k : ℕ) (body : Body) (n : Holder)
        → Turns m body j (fate j n.db) (fate j (receive s m k body n).1.db)
    unfolding receive receive_put receive_mod receive_del receive_link
    receive-Turns k (put_req h) n =
        run_validation_phase-Turned (put_req h) m.from validate_put_request h (store_put s m h n)
          n.db (store_put-Turned h n)
    receive-Turns k (del_req h by) n = when_known-Turned (del_req h by) h k n _ (
        run_validation_phase-Turned (del_req h by) m.from validate_del_request by (store_del s m n)
          n.db (store_del-Turned h by n))
    receive-Turns k (mod_req h new) n = when_known-Turned (mod_req h new) h k n _ (
        run_validation_phase-Turned (mod_req h new) m.from 13 new (store_mod s m h new n) n.db
          λ resp asked. store_mod-Turned h new n resp)
    receive-Turns k (link_req base links) n = when_known-Turned (link_req base links) base k n _ (
        run_validation_phase-Turned (link_req base links) m.from 11 links (store_links s m base n)
          n.db λ resp asked. store_links-Turned base links n resp)
    receive-Turns k (get_req h status_mask get_mask) n = stays refl
    receive-Turns k (link_query base t status_mask) n = stays refl
    receive-Turns k (list_add_req t peers w warrant) n =
        stays (receive_list_add-same s m j t peers w warrant n)
    receive-Turns k (app_msg zome_type body) n = stays refl
    receive-Turns k (other i) n = stays refl

    request_body : {body : Body} → make_action_from_message m ≡ ok body → body ≡ m.body
    unfolding make_action_from_message
    request_body h = elim (Bool-cases (is_request m.type)) [
      | inl t ↦ elim (Bool-cases (request_of m.body == m.type)) [
        | inl u ↦ sym (ok_injective (rw (t, u) at h))
        | inr u ↦ let h' = rw (t, u) at h in cc
      ]
      | inr t ↦ let h' = rw t at h in cc
    ]

    pub action_receiver-Turns :
        (k : ℕ) (n : Holder)
        → Turns m m.body j (fate j n.db) (fate j (action_receiver s m k n).1.db)
    unfolding action_receiver
    action_receiver-Turns k n =
        each_outcome (λ (o : Reply × Holder). Turns m m.body j (fate j n.db) (fate j o.1.db))
          (make_action_from_message m) _ _ _
          (λ body made.
            subst (λ b. Turns m b j (fate j n.db) (fate j (receive s m k body n).1.db))
              (request_body made) (receive-Turns k body n))
          (λ e. stays refl) (stays refl)

  -- The life of an entry under the messages, of which the last one comes first.
  pub data Lives (j : Bytes) : List Message → Fate → Fate → Type 0 where
    starts : (f : Fate) → Lives j [] f f
    goes_on :
        (m : Message) (ms : List Message) (f g h : Fate)
        → Lives j ms f g
        → Turns m m.body j g h
        → Lives j (m ∷ ms) f h
