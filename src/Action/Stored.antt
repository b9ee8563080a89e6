-- ===== src/Action/Stored.antt =====
-- action.go: what a node answers to a get after a put.
use holochain.Base.{
  Bytes, ℕ, [], ◌∷◌, true, false, none, some, ◌≡◌, refl, subst, sym, ap, ◌∙◌, bytes_equal,
}
use holochain.Base.Result.{Error, Result, ok, err, hash_rejected, ◌>>=◌}
use holochain.Base.Map.{lookup-insert_same}
use holochain.Hash.{Hash, hash_string}
use holochain.Entry.{EntryDef, dna_entry_type, key_entry_type}
use holochain.Platform.{IsLawful}
use holochain.Kad.Bucket.{PeerId}
use holochain.Dht.Store.{
  Db, Codec, Message, Got, put, put_tx, inc_idx, db_update, get, get_at, get_value, default_get,
  no_more, status_default, status_live, status_rejected,
}
use holochain.Dht.Store.Effects.{put-stored}
use holochain.Dht.Store.Laws.{get-put}
use holochain.Action.{put_action, ValidateResponse, Services, Holder, reply, refused, got_entry}
use holochain.Action.System.{validate_action}
use holochain.Action.Receive.{
  put_status, store_put, run_validation_phase, receive_put, validate_put_request,
}
use holochain.Action.Get.{entry_of, get_resp, answer_entry, answer_unfound, receive_get}

module _ (x : Codec) (m : Message) (t : Bytes) (h : Hash) (src : PeerId) (b : Bytes) where
  -- A message that can be encoded and has a fingerprint can be put.
  put-ok :
      (status : ℕ) (db : Db) {f : Hash}
      → x.encodes m ≡ true
      → x.fingerprint m ≡ some f
      → (db' : Db) × (put x (some m) t h src b status db ≡ (ok tt, db'))
  unfolding put put_tx inc_idx db_update
  put-ok status db e f = rw (e, f) (_, refl)

  get-put_rejected :
      (get_mask : ℕ) (db : Db) {db' : Db}
      → put x (some m) t h src b status_rejected db ≡ (ok tt, db')
      → get x h status_default get_mask db' ≡ ok (no_more b, some hash_rejected)
  unfolding get get_at get_value default_get
  get-put_rejected get_mask db p =
      let k = hash_string x.b58 h in
      let (db1, q, e) = put-stored x (some m) t h src b status_rejected db p in
      subst (λ d. get x h status_default get_mask d ≡ ok (no_more b, some hash_rejected)) (sym e)
        (rw
          (
            get_value,
            lookup-insert_same k b db1.entry,
            lookup-insert_same k status_rejected db1.status,
          )
          refl)

module _ (s : Services) (m q : Message) (h : Hash) (n : Holder) (resp : ValidateResponse)
    (b : Bytes) where
  abbrev pub validated : Result EntryDef
  validated =
      validate_action s n.chain (put_action (some resp.entry) (some resp.header)) resp.type
        (m.from ∷ [])

  stored_by : ℕ → Db
  stored_by status = (put s.codec (some m) resp.type h m.from b status n.db).1

  asked :
      (handler : ValidateResponse → Result (Unit {0}) × Db)
      → s.ask m.from validate_put_request h ≡ ok resp
      → run_validation_phase s m.from validate_put_request h handler n.db ≡ handler resp
  unfolding run_validation_phase
  asked handler e = rw (e, run_validation_phase) refl

  receive_put-stored :
      (status : ℕ)
      → s.ask m.from validate_put_request h ≡ ok resp
      → s.platform.encode resp.entry ≡ some b
      → put_status s (validated >>= λ def. ok tt) ≡ ok status
      → (receive_put s m h n).1.db ≡ stored_by status
  unfolding receive_put store_put stored_by
  receive_put-stored status a e v =
      let kept : store_put s m h n resp ≡ put s.codec (some m) resp.type h m.from b status n.db =
        rw (v, e, store_put) refl in
      ap (λ p. p.1) (asked (store_put s m h n) a ∙ kept)

  receive_get-found :
      (got : Got) (d : Holder)
      → get s.codec h status_default 7 d.db ≡ ok (got, none)
      → receive_get s q h status_default 7 d ≡ answer_entry s 7 got (entry_of s 7 got)
  unfolding receive_get
  receive_get-found got d g = rw (g, receive_get) refl

  receive_get-refused :
      (got : Got) (d : Holder)
      → get s.codec h status_default 7 d.db ≡ ok (got, some hash_rejected)
      → receive_get s q h status_default 7 d
        ≡ refused (some (got_entry (get_resp s 7 got [] none))) hash_rejected
  unfolding receive_get answer_unfound
  receive_get-refused got d g = rw (g, receive_get) refl

  -- On a lawful platform, after a put of an entry that its source sends, that is valid and of a
  -- type other than the DNA's and the keys', in a message that can be encoded and has a
  -- fingerprint, a get with mask 7 from anyone is answered with the entry, its type and its
  -- source.
  pub receive_get-live :
      {def : EntryDef} {f : Hash}
      → IsLawful s.platform
      → s.ask m.from validate_put_request h ≡ ok resp
      → s.platform.encode resp.entry ≡ some b
      → s.codec.encodes m ≡ true
      → s.codec.fingerprint m ≡ some f
      → bytes_equal resp.type dna_entry_type ≡ false
      → bytes_equal resp.type key_entry_type ≡ false
      → validated ≡ ok def
      → receive_get s q h status_default 7 (receive_put s m h n).1
        ≡ reply (
            got_entry (record {
              entry = some resp.entry;
              entry_type = resp.type;
              sources = m.from ∷ [];
              follow_hash = [];
            }))
  unfolding entry_of answer_entry stored_by
  receive_get-live lawful a e c f dna key valid =
      let (db', p) = put-ok s.codec m resp.type h m.from b status_live n.db c f in
      let kept = receive_put-stored status_live a e (rw valid refl) ∙ ap (λ r. r.1) p in
      let got = get-put s.codec (some m) resp.type h m.from b n.db p in
      receive_get-found _ (receive_put s m h n).1 (ap (get s.codec h status_default 7) kept ∙ got)
      ∙ rw (dna, key, lawful.decode-encode resp.entry b e) refl

  -- After a put of an entry that its source sends and validation rejects, in a message that can be
  -- encoded and has a fingerprint, a get with mask 7 fails with the rejected error and no entry.
  pub receive_get-rejected :
      {why : Error} {f : Hash}
      → s.ask m.from validate_put_request h ≡ ok resp
      → s.platform.encode resp.entry ≡ some b
      → s.codec.encodes m ≡ true
      → s.codec.fingerprint m ≡ some f
      → validated ≡ err why
      → receive_get s q h status_default 7 (receive_put s m h n).1
        ≡ refused (some (got_entry (get_resp s 7 (no_more b) [] none))) hash_rejected
  unfolding stored_by
  receive_get-rejected a e c f invalid =
      let (db', p) = put-ok s.codec m resp.type h m.from b status_rejected n.db c f in
      let kept = receive_put-stored status_rejected a e (rw invalid refl) ∙ ap (λ r. r.1) p in
      receive_get-refused (no_more b) (receive_put s m h n).1 (
        ap (get s.codec h status_default 7) kept
        ∙ get-put_rejected s.codec m resp.type h m.from b 7 n.db p)
