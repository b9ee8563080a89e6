-- ===== src/Package/EndToEnd.antt =====
-- chain.go, validate.go, action.go and dht.go: from an author's commit to what others get.
use holochain.Base.{Bytes, [], ◌∷◌, true, false, Option, some, ◌≡◌, refl, ap, ◌∙◌, bytes_equal}
use holochain.Base.Result.{Result, ok, ◌>>=◌}
use holochain.Hash.{Hash}
use holochain.Header.{Header}
use holochain.Platform.{Content, IsLawful}
use holochain.Entry.{EntryDef, dna_entry_type, agent_entry_type, key_entry_type}
use holochain.Chain.{Chain, add_entry}
use holochain.Chain.Linked.{IsAligned}
use holochain.Chain.Lookup.{Found, add_entry-Found}
use holochain.Zome.{get_entry_def}
use holochain.Dht.Store.{Message, status_default}
use holochain.Action.{put_action, ValidateResponse, Services, Holder, reply, got_entry}
use holochain.Action.System.{validate_action}
use holochain.Action.Receive.{receive_put, validate_put_request}
use holochain.Action.Get.{receive_get}
use holochain.Action.Stored.{receive_get-live}
use holochain.Package.{
  Source, PackagingReq, req_or_empty, make_package, check_validation_request, package_for,
  chain_response, entry_response, get_validation_response,
}

abbrev pub response : Bytes → Header → Content → ValidateResponse
response t hd e = record { type = t; header = hd; entry = e }

module _ (s : Services) (o : Source) (t : Bytes) (def : EntryDef) where
  -- The source can answer about an entry of the type in its chain.
  pub record IsAnswered (c : Chain) : Type 0 where
    pub not_dna : bytes_equal t dna_entry_type ≡ false
    pub not_key : bytes_equal t key_entry_type ≡ false
    pub not_agent : bytes_equal t agent_entry_type ≡ false
    pub defined : get_entry_def t s.zomes ≡ ok (some def)
    pub req : Option PackagingReq
    pub requested : o.packaging_request validate_put_request def ≡ ok req
    pub pkg : Option Bytes
    pub packed : make_package s o c (req_or_empty req) ≡ ok pkg

  entry_response-Found :
      (c : Chain) (e : Content) (h : Hash) (hd : Header)
      → Found s.platform c t e h hd
      → entry_response s o c hd.entry_link ≡ ok (response t hd e)
  unfolding entry_response chain_response
  entry_response-Found c e h hd f = rw (f.by_entry, entry_response, f.entry_header) refl

  package_for-IsAnswered :
      (c : Chain) (a : IsAnswered c) → package_for s o c validate_put_request t ≡ ok a.pkg
  unfolding package_for check_validation_request
  package_for-IsAnswered c a =
      rw (a.not_dna, a.not_key, a.not_agent, a.defined, a.requested) a.packed

  get_validation_response-Found :
      (c : Chain) (e : Content) (h : Hash) (hd : Header)
      → Found s.platform c t e h hd
      → (a : IsAnswered c)
      → get_validation_response s o c validate_put_request hd.entry_link
        ≡ ok (response t hd e, a.pkg)
  unfolding get_validation_response
  get_validation_response-Found c e h hd f a =
      rw (entry_response-Found c e h hd f, get_validation_response, package_for-IsAnswered c a) refl

  -- On a lawful platform, once an author with an aligned chain has added an entry of an
  -- application's type, for which the application's packaging request is answered, a node that
  -- gets a put of the entry's hash, is told by the author what `GetValidationResponse` returns,
  -- finds the entry valid with any header, and can encode and fingerprint the message, answers a
  -- get of that hash with mask 7 with the entry, its type and the author as its source.
  pub receive_get-add_entry :
      (now : Bytes) (e : Content) (c : Chain) (h : Hash) (m q : Message) (n : Holder) (b : Bytes)
      (f : Hash)
      → IsLawful s.platform
      → IsAligned c
      → (add_entry s.platform now t e c).0 ≡ ok h
      → IsAnswered (add_entry s.platform now t e c).1
      → ((hash : Hash)
          → s.ask m.from validate_put_request hash ≡ (
              get_validation_response s o
                (add_entry s.platform now t e c).1
                validate_put_request
                hash
              >>= λ r. ok r.0))
      → ((hd : Header)
          → validate_action s n.chain (put_action (some e) (some hd)) t (m.from ∷ []) ≡ ok def)
      → s.platform.encode e ≡ some b
      → s.codec.encodes m ≡ true
      → s.codec.fingerprint m ≡ some f
      → (hd : Header) × Found s.platform (add_entry s.platform now t e c).1 t e h hd
        × (receive_get s q hd.entry_link status_default 7 (receive_put s m hd.entry_link n).1
            ≡ reply (
                got_entry (record {
                  entry = some e;
                  entry_type = t;
                  sources = m.from ∷ [];
                  follow_hash = [];
                })))
  receive_get-add_entry now e c h m q n b f lawful aligned added a delivered valid encoded writes
        prints =
      let c1 = (add_entry s.platform now t e c).1 in
      let (hd, found) = add_entry-Found s.platform now t e c h aligned added in
      (
        hd,
        found,
        receive_get-live s m q hd.entry_link n (response t hd e) b lawful
            (delivered hd.entry_link
              ∙ ap (λ (r : Result (ValidateResponse × Option Bytes)). r >>= λ r. ok r.0)
                  (get_validation_response-Found c1 e h hd found a))
            encoded writes prints a.not_dna a.not_key (valid hd),
      )
