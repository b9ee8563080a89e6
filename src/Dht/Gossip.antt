-- ===== src/Dht/Gossip.antt =====
-- gossip.go: the index of changes that nodes exchange, and the record of how far each peer is known.
pub mod Index
pub mod Changes
pub mod History
pub mod Peers
pub mod Exchange
pub mod Lists
use holochain.Base.{
  Bytes, ℕ, zero, suc, ◌+◌, ◌<◌, List, [], ◌∷◌, ◌++◌, Bool, true, false, Option, none, some, ◌==◌,
  ltb, leb, if◌then◌else◌, bytes_equal,
}
use holochain.Base.Map.{Map, lookup, insert, delete}
use holochain.Base.Result.{Error, Result, ok, err, panic, no_such_idx, foreign, ◌>>=◌, or_err}
use holochain.Hash.{Hash, hash_string}
use holochain.Kad.Bucket.{PeerId}
use holochain.Dht.Store.{Db, Tx, Codec, Message, db_update, inc_idx}

-- `getIntVal`: 0 where the key is missing.
abbrev pub or_zero : Option ℕ → ℕ
or_zero none = 0
or_zero (some n) = n

unfoldable pub get_idx : Db → ℕ
get_idx db = db.idx

unfoldable pub find_message : ℕ → List (ℕ × Message) → Option Message
find_message i [] = none
find_message i ((j, m) ∷ ms) = if j == i then some m else find_message i ms

unfoldable pub get_idx_message : ℕ → Db → Result Message
unfolding find_message
get_idx_message i db = or_err (find_message i db.messages) no_such_idx

-- `GetFingerprint`: none stands for -1.
unfoldable pub get_fingerprint : Codec → Hash → Db → Option ℕ
get_fingerprint x f db = lookup (hash_string x.b58 f) db.fingerprints

abbrev pub is_some {ℓ} : {A : Type ℓ} → Option A → Bool
is_some none = false
is_some (some a) = true

unfoldable pub have_fingerprint : Codec → Hash → Db → Bool
unfolding get_fingerprint
have_fingerprint x f db = is_some (get_fingerprint x f db)

unfoldable pub get_gossiper : PeerId → Db → ℕ
get_gossiper id db = or_zero (lookup id db.peer)

-- `updateGossiper`: an index never goes back.
unfoldable pub update_gossiper : PeerId → ℕ → Db → Db
update_gossiper id new_idx db =
    if ltb new_idx (or_zero (lookup id db.peer))
    then db
    else record db { peer = insert id new_idx db.peer }

unfoldable pub add_gossiper : PeerId → PeerId → Db → Db
unfolding update_gossiper
add_gossiper self id db = if bytes_equal id self then db else update_gossiper id 0 db

-- `DeleteGossiper`: deleting a missing key is an error of the store.
unfoldable pub delete_gossiper : PeerId → Db → Result (Unit {0}) × Db
delete_gossiper id db = elim (lookup id db.peer) [
  | none ↦ (err foreign, db)
  | some n ↦ (ok tt, record db { peer = delete id db.peer })
]

-- `UpdateGossiper`, told whether the peer is on the block list.
unfoldable pub update_known_gossiper : Bool → PeerId → ℕ → Db → Db
unfolding delete_gossiper update_gossiper
update_known_gossiper blocked id new_idx db =
    if blocked then (delete_gossiper id db).1 else update_gossiper id new_idx db
