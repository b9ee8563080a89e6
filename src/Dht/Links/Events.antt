-- ===== src/Dht/Links/Events.antt =====
-- dht.go: what `getLinks` finds of a link after `putLink` and `delLink`.
use mathlib.Core.List.{append-nil, append_assoc}
use Prim.Native.Nat.{bit_and}
use holochain.Base.{
  ltb, arith, Bytes, ℕ, List, [], ◌∷◌, ◌++◌, false, some, ◌==◌, if◌then◌else◌, ◌≡◌, refl, inl, inr,
  Option-cases, bytes_equal_refl, sym, ◌∙◌, ap,
}
use holochain.Base.Map.{lookup, insert, lookup-insert_same}
use holochain.Base.Result.{ok}
use holochain.Hash.{Hash}
use holochain.Kad.Bucket.{PeerId}
use holochain.Dht.Store.{
  Db, Codec, Message, LinkEvent, db_update, add_link, link_key, event, status_live, status_deleted,
}
use holochain.Dht.Store.Reads.{SameTables, commit-eq-ok}
use holochain.Dht.Store.Effects.{inc_idx-SameTables}
use holochain.Dht.Links.Added.{link_tx-added}
use holochain.Dht.Links.{link_tx, put_link, del_link, split_colon, last_event, tagged, visit}

unfoldable pub HasNoColon : Bytes → Type 0
HasNoColon [] = Unit
HasNoColon (c ∷ s) = ((c == b':') ≡ false) × HasNoColon s

split_colon-end : (part s : Bytes) → HasNoColon s → split_colon part s ≡ (part ++ s) ∷ []
unfolding split_colon HasNoColon
split_colon-end part [] h = ap (λ p. p ∷ []) (sym (append-nil part))
split_colon-end part (c ∷ s) (h, hs) =
    rw (h, split_colon)
      (split_colon-end (part ++ c ∷ []) s hs ∙ ap (λ p. p ∷ []) (append_assoc part (c ∷ []) s))

split_colon-part :
    (part s rest : Bytes)
    → HasNoColon s
    → split_colon part (s ++ b':' ∷ rest) ≡ (part ++ s) ∷ split_colon [] rest
unfolding split_colon HasNoColon
split_colon-part part [] rest h = ap (λ p. p ∷ split_colon [] rest) (sym (append-nil part))
split_colon-part part (c ∷ s) rest (h, hs) =
    rw (h, split_colon)
      (split_colon-part (part ++ c ∷ []) s rest hs
        ∙ ap (λ p. p ∷ split_colon [] rest) (append_assoc part (c ∷ []) s))

-- A key of three parts without colons is taken apart again.
split_colon-link_key :
    (base link tag : Bytes)
    → HasNoColon base
    → HasNoColon link
    → HasNoColon tag
    → split_colon [] (link_key base link tag) ≡ base ∷ link ∷ tag ∷ []
split_colon-link_key base link tag p q r =
    split_colon-part [] base (link ++ b':' ∷ tag) p
    ∙ ap (◌∷◌ base) (split_colon-part [] link tag q ∙ ap (◌∷◌ link) (split_colon-end [] tag r))

last_event-snoc : (es : List LinkEvent) (e : LinkEvent) → last_event (es ++ e ∷ []) ≡ some e
last_event-snoc [] e = refl
last_event-snoc (x ∷ []) e = refl
last_event-snoc (x ∷ y ∷ es) e = last_event-snoc (y ∷ es) e

-- `getLinks` at the key of a link: the last event decides.
visit-link_key :
    (base link tag : Bytes) (records : List LinkEvent) (e : LinkEvent)
    → HasNoColon base
    → HasNoColon link
    → HasNoColon tag
    → last_event records ≡ some e
    → visit base [] status_live (link_key base link tag) records
      ≡ ok (
          if ltb 0 (bit_and e.status status_live)
          then record { h = link; t = tag; source = e.source } ∷ []
          else [])
unfolding visit tagged
visit-link_key base link tag records e p q r last =
    rw (split_colon-link_key base link tag p q r)
      (rw (bytes_equal_refl base) (rw (last, tagged) refl))

module _ (x : Codec) where
  add_link-last :
      (base link tag : Bytes) (src : PeerId) (status : ℕ) (leh : Hash) (db : Db) {d : Db}
      → add_link x base link tag src status leh db ≡ ok d
      → (records : List LinkEvent) × (lookup (link_key base link tag) d.link ≡ some records)
        × (last_event records ≡ some (event x src status leh))
  unfolding add_link
  add_link-last base link tag src status leh db {d} h =
      elim (Option-cases (lookup (link_key base link tag) db.link)) [
        | inl absent ↦
            let grown : d.link
                ≡ insert (link_key base link tag) (event x src status leh ∷ []) db.link =
              ground arith in
            (
              event x src status leh ∷ [],
              ap (lookup (link_key base link tag)) grown
                  ∙ lookup-insert_same (link_key base link tag) (event x src status leh ∷ [])
                      db.link,
              refl,
            )
        | inr (records, present) ↦
            let grown : d.link
                ≡ insert (link_key base link tag) (records ++ event x src status leh ∷ []) db.link =
              ground arith in
            (
              records ++ event x src status leh ∷ [],
              ap (lookup (link_key base link tag)) grown
                  ∙ lookup-insert_same (link_key base link tag)
                      (records ++ event x src status leh ∷ []) db.link,
              last_event-snoc records (event x src status leh),
            )
      ]

  link_tx-last :
      (m : Message) (base link tag : Bytes) (status : ℕ) (db : Db) {d : Db}
      → link_tx x m base link tag status db ≡ ok d
      → (records : List LinkEvent) × (leh : Hash) × (lookup (link_key base link tag) d.link
          ≡ some records)
        × (last_event records ≡ some (event x m.from status leh))
  unfolding SameTables
  link_tx-last m base link tag status db {d} h =
      let (db1, leh, e, s) = link_tx-added x m base link tag status db h in
      let (records, has, last) = add_link-last base link tag m.from status leh db e in
      let (a, b, c, p, q, same) = inc_idx-SameTables x (some m) db1 s in
      (records, leh, ap (lookup (link_key base link tag)) same ∙ has, last)

  -- After a successful `putLink` on parts without colons, the visit of `getLinks` at the link's
  -- key finds the link with its tag and the sender as source.
  pub visit-put_link :
      (m : Message) (base link tag : Bytes) (db : Db) {d : Db}
      → HasNoColon base
      → HasNoColon link
      → HasNoColon tag
      → put_link x m base link tag db ≡ (ok tt, d)
      → (records : List LinkEvent) × (lookup (link_key base link tag) d.link ≡ some records)
        × (visit base [] status_live (link_key base link tag) records
            ≡ ok (record { h = link; t = tag; source = m.from } ∷ []))
  unfolding put_link db_update
  visit-put_link m base link tag db p q r h =
      let (records, leh, has, last) =
        link_tx-last m base link tag status_live db
          (commit-eq-ok db (link_tx x m base link tag status_live db) h) in
      (
        records,
        has,
        visit-link_key base link tag records (event x m.from status_live leh) p q r last,
      )

  -- After a successful `delLink` on parts without colons, the visit of `getLinks` at the link's
  -- key finds nothing.
  pub visit-del_link :
      (m : Message) (base link tag : Bytes) (db : Db) {d : Db}
      → HasNoColon base
      → HasNoColon link
      → HasNoColon tag
      → del_link x m base link tag db ≡ (ok tt, d)
      → (records : List LinkEvent) × (lookup (link_key base link tag) d.link ≡ some records)
        × (visit base [] status_live (link_key base link tag) records ≡ ok [])
  unfolding del_link db_update
  visit-del_link m base link tag db p q r h =
      let (records, leh, has, last) =
        link_tx-last m base link tag status_deleted db
          (commit-eq-ok db (link_tx x m base link tag status_deleted db) h) in
      (
        records,
        has,
        visit-link_key base link tag records (event x m.from status_deleted leh) p q r last,
      )
