-- ===== src/Action/Follow.antt =====
-- action.go: `ActionGet.Do`, from the node's own chain or from the DHT, where it follows the hashes
-- that replace modified entries. Its recursion takes fuel, since it need not end.
use holochain.Base.{
  Bytes, ℕ, zero, suc, ◌≤◌, ◌≡◌, refl, [], Bool, true, false, Option, none, some, ◌==◌, arith, ap,
  ◌∙◌, if◌then◌else◌, bytes_equal,
}
use Prim.Native.Nat.{bit_and}
use holochain.Base.Result.{
  Error, Result, ok, err, panic, hash_modified, follow_loop, unexpected_body, out_of_fuel, ◌>>=◌,
  or_foreign,
}
use holochain.Hash.{Hash, hash_string}
use holochain.Chain.{Chain, get_entry}
use holochain.Dht.Store.{status_default, get_mask_entry_type}
use holochain.Action.{Services, GetResp}

-- `GetReq`, and what `Query` of it returns: a response, some other value, or an error, to which the
-- answering node may have attached a response.
pub record GetReq : Type 0 where
  pub h : Hash
  pub status_mask : ℕ
  pub get_mask : ℕ

pub data Queried : Type 0 where
  found : GetResp → Queried
  unexpected : Queried
  failed : Option GetResp → Error → Queried

abbrev pub resp_of : ℕ → Bytes → GetResp → GetResp
resp_of mask entry_type resp = record resp {
  entry_type = if bit_and mask get_mask_entry_type == 0 then [] else entry_type;
}

module _ (s : Services) where
  -- A get of the own chain: the entry comes back whatever the mask is.
  unfoldable pub get_local : Hash → ℕ → Chain → Result GetResp
  get_local h mask chain = do
    (entry, entry_type) ← get_entry s.platform h chain
    ok (
        resp_of mask entry_type
          (record { entry = some entry; entry_type = []; sources = []; follow_hash = [] }))

  -- An error of the followed get is lost, with its response: there is neither.
  abbrev pub followed : Result (Option GetResp) → Result (Option GetResp)
  followed (ok resp) = ok resp
  followed (err out_of_fuel) = err out_of_fuel
  followed (err e) = ok none
  followed panic = panic

  -- The hash to follow, unless it is the one that was asked for.
  abbrev pub next_hash : Hash → GetResp → Result Hash
  next_hash h resp = do
    hash ← or_foreign (s.platform.from_b58 resp.follow_hash)
    (if bytes_equal (hash_string s.codec.b58 hash) (hash_string s.codec.b58 h)
        then err follow_loop
        else ok hash)

  -- The error that was modified, where the default status was asked for.
  abbrev pub follows : ℕ → Error → Bool
  follows mask hash_modified = mask == status_default
  follows mask e = false

  module _ (query : GetReq → Queried) (options_mask : ℕ) where
    unfoldable pub do_get : ℕ → GetReq → Result (Option GetResp)
    do_get zero req = err out_of_fuel
    do_get (suc fuel) req = elim (query req) [
      | found resp ↦ ok (some resp)
      | unexpected ↦ err unexpected_body
      | failed resp e ↦ elim (follows req.status_mask e) [
        | false ↦ err e
        | true ↦ elim resp [
          | none ↦ panic
          | some r ↦ elim (next_hash req.h r) [
            | ok hash ↦ followed (
                do_get fuel
                  (record { h = hash; status_mask = status_default; get_mask = options_mask }))
            | err e' ↦ err e'
            | panic ↦ panic
          ]
        ]
      ]
    ]

    abbrev pub asks : Hash → GetReq
    asks h = record { h = h; status_mask = status_default; get_mask = options_mask }

    -- The first hash is modified into the next one.
    pub record IsReplaced (h next : Hash) : Type 0 where
      pub resp : GetResp
      pub modified : query (asks h) ≡ failed (some resp) hash_modified
      pub decoded : s.platform.from_b58 resp.follow_hash ≡ some next
      pub apart : bytes_equal (hash_string s.codec.b58 next) (hash_string s.codec.b58 h) ≡ false

    pub data Chained : ℕ → Hash → GetResp → Type 0 where
      ends : (h : Hash) (resp : GetResp) → query (asks h) ≡ found resp → Chained zero h resp
      replaced :
          (n : ℕ) (h next : Hash) (resp : GetResp)
          → IsReplaced h next
          → Chained n next resp
          → Chained (suc n) h resp

    do_get-replaced :
        (fuel : ℕ) (h next : Hash)
        → IsReplaced h next
        → do_get (suc fuel) (asks h) ≡ followed (do_get fuel (asks next))
    unfolding do_get
    do_get-replaced fuel h next r = rw (r.modified, do_get, r.decoded, r.apart) refl

    -- A get from the DHT of a hash that was modified n times, each time into a hash of another
    -- text, returns the entry at the end, with n recursive calls or more.
    pub do_get-Chained :
        (n : ℕ) (h : Hash) (resp : GetResp) (fuel : ℕ)
        → Chained n h resp
        → n ≤ fuel
        → do_get (suc fuel) (asks h) ≡ ok (some resp)
    unfolding do_get
    do_get-Chained n h resp fuel (ends g r e) b = rw (e, do_get) refl
    do_get-Chained n h resp zero (replaced k g next r p c) b = absurd (omega arith)
    do_get-Chained n h resp (suc fuel) (replaced k g next r p c) b =
        do_get-replaced (suc fuel) g next p
        ∙ ap followed (do_get-Chained k next r fuel c (omega arith))

    -- Where two hashes are modified into each other, no number of recursive calls is enough for a
    -- get of one of them.
    pub do_get-cycle :
        (fuel : ℕ) (h next : Hash)
        → IsReplaced h next
        → IsReplaced next h
        → do_get fuel (asks h) ≡ err out_of_fuel
    unfolding do_get
    do_get-cycle zero h next p q = refl
    do_get-cycle (suc fuel) h next p q =
        do_get-replaced fuel h next p ∙ ap followed (do_get-cycle fuel next h q p)
