-- ===== src/Warrant.antt =====
-- revocation.go and warrant.go: an agent's revocation of its key, and the warrant that it makes.
pub mod RoundTrip
use holochain.Base.{
  Bytes, ℕ, ◌+◌, ◌*◌, ◌-◌, ◌%◌, List, [], ◌∷◌, ◌++◌, Bool, true, false, Option, none, some, ltb,
  ◌==◌, if◌then◌else◌, length, take, drop, get_elem?, bytes_equal,
}
use holochain.Base.Result.{
  Error, Result, ok, err, panic, hash_modified, self_revocation_unverified, old_key_unmodified,
  wrong_new_key, unknown_warrant, foreign, ◌>>=◌, guard, or_panic, or_foreign,
}
use holochain.Hash.{Hash, hash_string}
use holochain.Dht.Store.{Db, Codec, Got, get, status_default, get_mask_default}

-- go-libp2p-crypto: marshalling of public keys, signing, and the hash that is the id of the peer with
-- a key. A key is named by bytes.
pub record Keys : Type 0 where
  pub marshal_public_key : Bytes → Option Bytes
  pub unmarshal_public_key : Bytes → Option Bytes
  pub verify : (key text sig : Bytes) → Option Bool
  pub sign : (key text : Bytes) → Option Bytes
  pub id_from_public_key : Bytes → Option Hash

pub record SelfRevocation : Type 0 where
  pub data_bytes : Bytes
  pub old_sig : Bytes
  pub new_sig : Bytes

-- `b[from:to]`.
unfoldable pub slice : ℕ → ℕ → Bytes → Result Bytes
slice from to b = if ltb (length b) to then panic else ok (take (to - from) (drop from b))

-- The nil that comes with an error.
abbrev pub or_nil : Option Bytes → Bytes
or_nil none = []
or_nil (some b) = b

module _ (c : Keys) where
  -- The errors of marshalling the new key and of signing with the old one are lost. A revocation also
  -- comes with the error of signing with the new key.
  unfoldable pub new_self_revocation : (old new payload : Bytes) → Result SelfRevocation
  new_self_revocation old new payload = do
    old_bytes ← or_foreign (c.marshal_public_key old)
    let new_bytes = or_nil (c.marshal_public_key new)
    let data_bytes = length old_bytes % 256 ∷ (old_bytes ++ (new_bytes ++ payload))
    let old_sig = or_nil (c.sign old data_bytes)
    new_sig ← or_foreign (c.sign new data_bytes)
    ok (record { data_bytes = data_bytes; old_sig = old_sig; new_sig = new_sig })

  unfoldable pub get_old_key : SelfRevocation → Result Bytes
  unfolding slice
  get_old_key r = do
    l ← or_panic (get_elem? r.data_bytes 0)
    b ← slice 1 (l + 1) r.data_bytes
    or_foreign (c.unmarshal_public_key b)

  unfoldable pub get_new_key : SelfRevocation → Result Bytes
  unfolding slice
  get_new_key r = do
    l ← or_panic (get_elem? r.data_bytes 0)
    b ← slice (l + 1) (l * 2 + 1) r.data_bytes
    or_foreign (c.unmarshal_public_key b)

  unfoldable pub verify_revocation : SelfRevocation → Result (Unit {0})
  unfolding get_old_key get_new_key
  verify_revocation r = do
    old_key ← get_old_key r
    matches ← or_foreign (c.verify old_key r.data_bytes r.old_sig)
    _ ← guard matches self_revocation_unverified
    new_key ← get_new_key r
    matches' ← or_foreign (c.verify new_key r.data_bytes r.new_sig)
    guard matches' self_revocation_unverified

  unfoldable pub parties : SelfRevocation → Result (Hash × Hash)
  unfolding get_old_key get_new_key
  parties r = do
    old_key ← get_old_key r
    new_key ← get_new_key r
    old_h ← or_foreign (c.id_from_public_key old_key)
    new_h ← or_foreign (c.id_from_public_key new_key)
    ok (old_h, new_h)

-- The old key leads to the new one on the DHT.
unfoldable pub check_replaced : Bytes → Got × Option Error → Result (Unit {0})
check_replaced new_h (got, some hash_modified) =
    guard (bytes_equal got.data_bytes new_h) wrong_new_key
check_replaced new_h (got, e) = err old_key_unmodified

-- A read that fails otherwise is not of a modified key either.
abbrev pub or_unmodified : {A : Type 0} → Result A → Result A
or_unmodified (ok a) = ok a
or_unmodified (err e) = err old_key_unmodified
or_unmodified panic = panic

unfoldable pub verify_warrant : Keys → Codec → Db → SelfRevocation → Result (Unit {0})
unfolding verify_revocation parties check_replaced get
verify_warrant c x db r = do
  _ ← verify_revocation c r
  (old_h, new_h) ← parties c r
  found ← or_unmodified (get x old_h status_default get_mask_default db)
  check_replaced (hash_string x.b58 new_h) found

-- The one type of warrants.
abbrev pub self_revocation_type : ℕ
self_revocation_type = 0

-- `DecodeWarrant`, with `json.Unmarshal` into a `SelfRevocation`.
unfoldable pub decode_warrant : (Bytes → Option SelfRevocation) → ℕ → Bytes → Result SelfRevocation
decode_warrant decode type data_bytes =
    if type == self_revocation_type then or_foreign (decode data_bytes) else err unknown_warrant
