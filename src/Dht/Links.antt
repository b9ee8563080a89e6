-- ===== src/Dht/Links.antt =====
-- dht.go: `link`, `putLink`, `delLink` and `getLinks`.
pub mod Added
pub mod Events
use Prim.Native.Nat.{bit_and}
use holochain.Base.{
  Bytes, ℕ, zero, suc, ◌+◌, ◌<◌, List, [], ◌∷◌, ◌++◌, Bool, true, false, ◌&&◌, ◌||◌, Option, none,
  some, ◌==◌, ltb, if◌then◌else◌, bytes_equal, get_elem?,
}
use holochain.Base.Map.{Map, lookup, insert}
use holochain.Base.Result.{Error, Result, ok, err, panic, no_links, ◌>>=◌, or_panic}
use holochain.Hash.{Hash, hash_string}
use holochain.Kad.Bucket.{PeerId}
use holochain.Dht.Store.{
  Db, Tx, Codec, Message, Body, link_req, LinkEvent, get_value, add_link, inc_idx, db_update,
  status_live, status_modified, status_deleted, status_default,
}

abbrev pub links_of : Body → Result Hash
links_of (link_req base links) = ok links
links_of _ = panic

-- An error of `_get` ends the transaction.
abbrev pub none_or_err : Option Error → Result (Unit {0})
none_or_err none = ok tt
none_or_err (some e) = err e

module _ (x : Codec) where
  unfoldable pub link_tx : Message → Bytes → Bytes → Bytes → ℕ → Tx
  link_tx m base link tag status db = do
    (val, e) ← get_value base status_live db
    _ ← none_or_err e
    leh ← links_of m.body
    db' ← add_link x base link tag m.from status leh db
    inc_idx x (some m) db'

  unfoldable pub put_link : Message → Bytes → Bytes → Bytes → Db → Result (Unit {0}) × Db
  unfolding link_tx db_update
  put_link m base link tag = db_update (link_tx m base link tag status_live)

  unfoldable pub del_link : Message → Bytes → Bytes → Bytes → Db → Result (Unit {0}) × Db
  unfolding link_tx db_update
  del_link m base link tag = db_update (link_tx m base link tag status_deleted)

-- `strings.Split(key, ":")`, with the part that was read so far.
unfoldable pub split_colon : Bytes → Bytes → List Bytes
split_colon part [] = part ∷ []
split_colon part (c ∷ s) = elim (c == b':') [
  | true ↦ part ∷ split_colon [] s
  | false ↦ split_colon (part ++ c ∷ []) s
]

pub record TaggedHash : Type 0 where
  pub h : Bytes
  pub t : Bytes
  pub source : PeerId

abbrev pub last_event : List LinkEvent → Option LinkEvent
last_event [] = none
last_event (e ∷ []) = some e
last_event (e ∷ f ∷ es) = last_event (f ∷ es)

abbrev pub is_blank : Bytes → Bool
is_blank [] = true
is_blank (c ∷ s) = false

-- One link of the index: the last event on it decides, "for now" says the source.
unfoldable pub tagged : Bytes → Bytes → List LinkEvent → ℕ → List TaggedHash
tagged tag_asked link records mask = elim (last_event records) [
  | none ↦ []
  | some entry ↦
      if ltb 0 (bit_and entry.status mask)
      then record { h = link; t = tag_asked; source = entry.source } ∷ []
      else []
]

unfoldable pub visit : Bytes → Bytes → ℕ → Bytes → List LinkEvent → Result (List TaggedHash)
unfolding split_colon tagged
visit b tag mask key records =
    let parts = split_colon [] key in
    or_panic (get_elem? parts 2) >>= λ t. or_panic (get_elem? parts 0) >>= λ base.
    or_panic (get_elem? parts 1) >>= λ link.
    if bytes_equal base b && (is_blank tag || bytes_equal tag t)
    then ok (tagged (if is_blank tag then t else []) link records mask)
    else ok []

unfoldable pub ascend_links : Bytes → Bytes → ℕ → Map (List LinkEvent) → Result (List TaggedHash)
unfolding visit
ascend_links b tag mask [] = ok []
ascend_links b tag mask ((key, records) ∷ links) = do
  here ← visit b tag mask key records
  rest ← ascend_links b tag mask links
  ok (here ++ rest)

abbrev pub some_links : List TaggedHash → Result (List TaggedHash)
some_links [] = err no_links
some_links (r ∷ rs) = ok (r ∷ rs)

-- `getLinks`, in the order of the store: the index sorts by the stored value.
unfoldable pub get_links : Codec → Hash → Bytes → ℕ → Db → Result (List TaggedHash)
unfolding ascend_links
get_links x base tag status_mask db = do
  let b = hash_string x.b58 base
  (val, e) ← get_value b (status_live + status_modified) db
  _ ← none_or_err e
  results ←
      ascend_links b tag (if status_mask == status_default then status_live else status_mask)
        db.link
  some_links results
