-- ===== src/Dht/Store/Reads.antt =====
-- dht.go: `_get` and `get` in terms of what the tables hold at the key.
use holochain.Base.{Bytes, ℕ, [], ◌∷◌, Option, none, some, ◌≡◌, refl, arith, ◌∙◌, ap}
use holochain.Base.Map.{lookup}
use holochain.Base.Result.{
  Error, Result, ok, err, panic, hash_deleted, hash_modified, ◌>>=◌, >>=_cong,
}
use holochain.Kad.Bucket.{PeerId}
use holochain.Dht.Store.{
  Db, no_more, commit, get_value, default_get, get_parts, finish, get_at, status_default,
  status_live, status_deleted, status_modified,
}

pub commit-eq-ok : (db : Db) (r : Result Db) {db' : Db} → commit db r ≡ (ok tt, db') → r ≡ ok db'
commit-eq-ok db (ok d) h = ap ok (ap (λ p. p.1) h)
commit-eq-ok db (err e) h = cc
commit-eq-ok db panic h = cc

-- The tables that `get` reads, unchanged.
unfoldable pub SameTables : Db → Db → Type 0
SameTables a b =
    (b.entry ≡ a.entry)
    × (b.type ≡ a.type)
    × (b.src ≡ a.src)
    × (b.status ≡ a.status)
    × (b.replaced_by ≡ a.replaced_by)
    × (b.link ≡ a.link)

-- `_get` and the parts of `get`, from what the tables hold.
module _ (k : Bytes) (db : Db) {value : Bytes} (has : lookup k db.entry ≡ some value) where
  pub get_value-of_default :
      {status : ℕ}
      → lookup k db.status ≡ some status
      → get_value k status_default db ≡ default_get k value status db
  unfolding get_value
  get_value-of_default p = ground arith

  pub get_value-of_deleted :
      lookup k db.status ≡ some status_deleted
      → get_value k status_default db ≡ ok (value, some hash_deleted)
  unfolding default_get
  get_value-of_deleted p = get_value-of_default p

  pub get_value-of_modified :
      {link : Bytes}
      → lookup k db.status ≡ some status_modified
      → lookup k db.replaced_by ≡ some link
      → get_value k status_default db ≡ ok (link, some hash_modified)
  unfolding default_get
  get_value-of_modified p q = ground (arith, get_value-of_default p)

  pub get_parts-all :
      {entry_type : Bytes} {src : PeerId} {status : ℕ} (v : Bytes)
      → lookup k db.type ≡ some entry_type
      → lookup k db.src ≡ some src
      → lookup k db.status ≡ some status
      → get_parts k v 7 db
        ≡ ok (record {
          data_bytes = v;
          entry_type = entry_type;
          sources = src ∷ [];
          status = status;
        })
  unfolding get_parts
  get_parts-all v p q r = ground arith

  pub get_at-live :
      {entry_type : Bytes} {src : PeerId}
      → lookup k db.type ≡ some entry_type
      → lookup k db.src ≡ some src
      → lookup k db.status ≡ some status_live
      → get_at k status_default 7 db
        ≡ ok (
          (record {
            data_bytes = value;
            entry_type = entry_type;
            sources = src ∷ [];
            status = status_live;
          }),
          none,
        )
  unfolding get_at default_get finish
  get_at-live p q r = ground (arith, get_value-of_default r, get_parts-all value p q r)

-- The tables that `get` reads, at one key.
unfoldable pub Agrees : Bytes → Db → Db → Type 0
Agrees k a b =
    (lookup k b.entry ≡ lookup k a.entry)
    × (lookup k b.type ≡ lookup k a.type)
    × (lookup k b.src ≡ lookup k a.src)
    × (lookup k b.status ≡ lookup k a.status)
    × (lookup k b.replaced_by ≡ lookup k a.replaced_by)

-- A `_get` that reports an error ends `get`.
pub get_at-of_error :
    (k : Bytes) (status_mask get_mask : ℕ) (db : Db) {val : Bytes} {why : Error}
    → get_value k status_mask db ≡ ok (val, some why)
    → get_at k status_mask get_mask db ≡ ok (no_more val, some why)
unfolding get_at finish
get_at-of_error k status_mask get_mask db p = rw p refl

module _ (k : Bytes) (a b : Db) (agree : Agrees k a b) where
  pub get_value-Agrees : (mask : ℕ) → get_value k mask b ≡ get_value k mask a
  unfolding Agrees get_value default_get
  get_value-Agrees mask = ground arith

  pub get_parts-Agrees : (v : Bytes) (mask : ℕ) → get_parts k v mask b ≡ get_parts k v mask a
  unfolding Agrees get_parts
  get_parts-Agrees v mask = ground arith

  pub finish-Agrees :
      (mask : ℕ) (got : Bytes × Option Error) → finish k mask b got ≡ finish k mask a got
  unfolding finish
  finish-Agrees mask (val, some why) = refl
  finish-Agrees mask (val, none) = rw (get_parts-Agrees val mask) refl

  pub get_at-Agrees :
      (status_mask get_mask : ℕ) → get_at k status_mask get_mask b ≡ get_at k status_mask get_mask a
  unfolding get_at
  get_at-Agrees status_mask get_mask =
      >>=_cong (get_value k status_mask b) (finish k get_mask b) (finish k get_mask a)
        (finish-Agrees get_mask)
      ∙ ap (λ got. got >>= finish k get_mask a) (get_value-Agrees status_mask)
