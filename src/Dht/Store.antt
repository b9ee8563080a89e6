-- ===== src/Dht/Store.antt =====
-- dht.go: `put`, `del`, `mod`, `get`, `link`, and `incIdx` of gossip.go, as transactions.
pub mod Reads
pub mod Effects
pub mod Laws
use Prim.Native.Nat.{bit_and, bit_or}
use holochain.Base.{
  Bytes, ℕ, zero, suc, ◌+◌, List, [], ◌∷◌, ◌++◌, Bool, true, false, Option, none, some, ◌==◌,
  if◌then◌else◌, codes,
}
use holochain.Base.Map.{Map, lookup, insert}
use holochain.Base.Result.{
  Error, Result, ok, err, panic, hash_not_found, hash_deleted, hash_modified, hash_rejected,
  link_not_found, no_such_idx, foreign, ◌>>=◌, ◌>>◌, guard, or_foreign, or_err, or_panic,
}
use holochain.Hash.{Hash, hash_string}
use holochain.Kad.Bucket.{PeerId}

abbrev pub status_default : ℕ
status_default = 0

abbrev pub status_live : ℕ
status_live = 1

abbrev pub status_rejected : ℕ
status_rejected = 2

abbrev pub status_deleted : ℕ
status_deleted = 4

abbrev pub status_modified : ℕ
status_modified = 8

abbrev pub status_any : ℕ
status_any = 255

abbrev pub get_mask_default : ℕ
get_mask_default = 0

abbrev pub get_mask_entry : ℕ
get_mask_entry = 1

abbrev pub get_mask_entry_type : ℕ
get_mask_entry_type = 2

abbrev pub get_mask_sources : ℕ
get_mask_sources = 4

abbrev pub sys_tag_replaced_by : Bytes
sys_tag_replaced_by = codes "__replacedBy"

-- The bodies of the requests between nodes; `other` stands for the rest.
pub data Body : Type 0 where
  put_req : Hash → Body
  del_req mod_req link_req : Hash → Hash → Body
  get_req : (h : Hash) (status_mask get_mask : ℕ) → Body
  link_query : (base : Hash) (t : Bytes) (status_mask : ℕ) → Body
  list_add_req :
      (list_type : Bytes) (peers : List Bytes) (warrant_type : ℕ) (warrant : Bytes) → Body
  app_msg : (zome_type body : Bytes) → Body
  other : ℕ → Body

pub record Message : Type 0 where
  pub type : ℕ
  pub time : Bytes
  pub from : PeerId
  pub body : Body

pub record LinkEvent : Type 0 where
  pub status : ℕ
  pub source : PeerId
  pub links_entry : Bytes

-- `idx` is the value of "_idx", 0 where there is none; the newest message stands first.
pub record Db : Type 0 where
  pub entry : Map Bytes
  pub type : Map Bytes
  pub src : Map PeerId
  pub status : Map ℕ
  pub replaced_by : Map Bytes
  pub link : Map (List LinkEvent)
  pub idx : ℕ
  pub messages : List (ℕ × Message)
  pub fingerprints : Map ℕ
  pub peer : Map ℕ
  pub list : Map Bytes

abbrev pub empty_db : Db
empty_db = record {
  entry = [];
  type = [];
  src = [];
  status = [];
  replaced_by = [];
  link = [];
  idx = 0;
  messages = [];
  fingerprints = [];
  peer = [];
  list = [];
}

-- What other packages do: the text of a hash, `ByteEncoder` (which may refuse a message) and
-- `Message.Fingerprint`.
pub record Codec : Type 0 where
  pub b58 : Bytes → Bytes
  pub encodes : Message → Bool
  pub fingerprint : Message → Option Hash

-- `db.Update`: a transaction whose function returns an error is rolled back.
abbrev pub Tx : Type 0
Tx = Db → Result Db

abbrev pub commit : Db → Result Db → Result (Unit {0}) × Db
commit db (ok db') = (ok tt, db')
commit db (err e) = (err e, db)
commit db panic = (panic, db)

unfoldable pub db_update : Tx → Db → Result (Unit {0}) × Db
db_update tx db = commit db (tx db)

-- The key of a link, behind its prefix.
abbrev pub link_key : Bytes → Bytes → Bytes → Bytes
link_key base link tag = base ++ b':' ∷ (link ++ b':' ∷ tag)

module _ (x : Codec) where
  -- `incIdx`; without a message there is nothing to gossip.
  unfoldable pub inc_idx : Option Message → Tx
  inc_idx none db = ok db
  inc_idx (some m) db = do
    guard (x.encodes m) foreign
    f ← or_foreign (x.fingerprint m)
    let index = db.idx + 1
    ok (record db {
      idx = index;
      messages = (index, m) ∷ db.messages;
      fingerprints = insert (hash_string x.b58 f) index db.fingerprints;
    })

  unfoldable pub put_tx : Option Message → Bytes → Bytes → PeerId → Bytes → ℕ → Tx
  unfolding inc_idx
  put_tx m entry_type k src value status db = do
    db' ← inc_idx m db
    ok (record db' {
      entry = insert k value db'.entry;
      type = insert k entry_type db'.type;
      src = insert k src db'.src;
      status = insert k status db'.status;
    })

  unfoldable pub put :
      Option Message → Bytes → Hash → PeerId → Bytes → ℕ → Db → Result (Unit {0}) × Db
  unfolding put_tx db_update
  put m entry_type key src value status =
      db_update (put_tx m entry_type (hash_string x.b58 key) src value status)

  -- `_setStatus`.
  unfoldable pub set_status : Option Message → Bytes → ℕ → Tx
  unfolding inc_idx
  set_status m key status db = do
    _ ← or_err (lookup key db.entry) hash_not_found
    db' ← inc_idx m db
    ok (record db' { status = insert key status db'.status })

  unfoldable pub del : Option Message → Hash → Db → Result (Unit {0}) × Db
  unfolding set_status db_update
  del m key = db_update (set_status m (hash_string x.b58 key) status_deleted)

  abbrev pub event : PeerId → ℕ → Hash → LinkEvent
  event src status leh = record {
    status = status;
    source = src;
    links_entry = hash_string x.b58 leh;
  }

  -- `_link`: a link's record of events grows; only an existing link can be deleted.
  unfoldable pub add_link : Bytes → Bytes → Bytes → PeerId → ℕ → Hash → Tx
  add_link base link tag src status leh db = elim (lookup (link_key base link tag) db.link) [
    | none ↦
        if status == status_deleted
        then err link_not_found
        else ok (record db {
          link = insert (link_key base link tag) (event src status leh ∷ []) db.link;
        })
    | some records ↦ ok (record db {
      link = insert (link_key base link tag) (records ++ event src status leh ∷ []) db.link;
    })
  ]

  unfoldable pub mod_tx : Message → Bytes → Hash → Tx
  unfolding set_status add_link
  mod_tx m k newkey db = do
    db1 ← set_status (some m) k status_modified db
    let link = hash_string x.b58 newkey
    db2 ← add_link k link sys_tag_replaced_by m.from status_live newkey db1
    ok (record db2 { replaced_by = insert k link db2.replaced_by })

  -- `mod`, which is called with a message.
  unfoldable pub modify : Message → Hash → Hash → Db → Result (Unit {0}) × Db
  unfolding mod_tx db_update
  modify m key newkey = db_update (mod_tx m (hash_string x.b58 key) newkey)

-- `_get`: the value and the error that come back together. A modified entry gives the hash that
-- replaces it as its value.
unfoldable pub masked_get : Bytes → ℕ → ℕ → Bytes × Option Error
masked_get val status mask =
    if bit_and status mask == 0 then (val, some hash_not_found) else (val, none)

unfoldable pub default_get : Bytes → Bytes → ℕ → Db → Result (Bytes × Option Error)
default_get k val status db =
    if status == status_deleted
    then ok (val, some hash_deleted)
    else if status == status_modified
    then (do link ← or_panic (lookup k db.replaced_by); ok (link, some hash_modified))
    else if status == status_rejected
    then ok (val, some hash_rejected)
    else if status == status_live
    then ok (val, none)
    else panic

unfoldable pub get_value : Bytes → ℕ → Db → Result (Bytes × Option Error)
unfolding masked_get default_get
get_value k mask db = elim (lookup k db.entry) [
  | none ↦ ok ([], some hash_not_found)
  | some val ↦ elim (lookup k db.status) [
    | none ↦ ok (val, some foreign)
    | some status ↦
        if mask == status_default
        then default_get k val status db
        else ok (masked_get val status mask)
  ]
]

-- What `get` returns beside its error.
pub record Got : Type 0 where
  pub data_bytes : Bytes
  pub entry_type : Bytes
  pub sources : List PeerId
  pub status : ℕ

abbrev pub no_more : Bytes → Got
no_more val = record { data_bytes = val; entry_type = []; sources = []; status = 0 }

-- The parts that the mask asks for, and the status.
unfoldable pub get_parts : Bytes → Bytes → ℕ → Db → Result Got
get_parts k val mask db = do
  entry_type ←
      (if bit_and mask get_mask_entry_type == 0 then ok [] else or_err (lookup k db.type) foreign)
  sources ←
      (if bit_and mask get_mask_sources == 0
        then ok []
        else (do s ← or_err (lookup k db.src) hash_not_found; ok (s ∷ [])))
  status ← or_err (lookup k db.status) foreign
  ok (record { data_bytes = val; entry_type = entry_type; sources = sources; status = status })

-- What follows `_get` in `get`: its error comes back with its value, the parts are read otherwise.
unfoldable pub finish : Bytes → ℕ → Db → Bytes × Option Error → Result (Got × Option Error)
unfolding get_parts
finish k mask db (val, some why) = ok (no_more val, some why)
finish k mask db (val, none) = do got ← get_parts k val mask db; ok (got, none)

unfoldable pub get_at : Bytes → ℕ → ℕ → Db → Result (Got × Option Error)
unfolding get_value finish
get_at k status_mask get_mask db = get_value k status_mask db >>= finish k get_mask db

abbrev pub effective_mask : ℕ → ℕ
effective_mask mask = if mask == get_mask_default then get_mask_entry else mask

module _ (x : Codec) where
  unfoldable pub get : Hash → ℕ → ℕ → Db → Result (Got × Option Error)
  unfolding get_at
  get key status_mask get_mask =
      get_at (hash_string x.b58 key) status_mask (effective_mask get_mask)

  unfoldable pub exists : Hash → ℕ → Db → Result (Option Error)
  unfolding get_value
  exists key status_mask db = do (val, e) ← get_value (hash_string x.b58 key) status_mask db; ok e

  unfoldable pub source : Hash → Db → Result PeerId
  source key db = or_err (lookup (hash_string x.b58 key) db.src) hash_not_found
