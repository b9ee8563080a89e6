-- ===== src/Capability/Lifecycle.antt =====
-- capabilities.go: what a token is worth from when it is made until it is revoked.
use holochain.Base.{Bytes, ◌≡◌, refl, false, arith, bytes_equal, bytes_equal_refl}
use holochain.Base.Map.{Map, insert, lookup-insert, lookup-insert_same, lookup-delete}
use holochain.Base.Result.{ok, err, capability_invalid}
use holochain.Capability.{new_capability, validate_capability, revoke}

-- A new token stands for its capability, can be revoked once made and is invalid from then on, and
-- other tokens are as before.
pub validate_capability-lifecycle :
    (token capability other : Bytes) (db : Map Bytes)
    → (validate_capability token (new_capability token capability db) ≡ ok capability)
      × ((revoke token (new_capability token capability db)).0 ≡ ok tt)
      × (validate_capability token (revoke token (new_capability token capability db)).1
          ≡ err capability_invalid)
      × (bytes_equal token other ≡ false
          → validate_capability other (revoke token (new_capability token capability db)).1
            ≡ validate_capability other db)
unfolding validate_capability new_capability revoke
validate_capability-lifecycle token capability other db =
    let here = lookup-insert_same token capability db in
    (
      rw here refl,
      rw (here, revoke) refl,
      rw (here, revoke)
          (ground (
            arith,
            lookup-delete token token (insert token capability db),
            bytes_equal_refl token,
          )),
      λ apart.
          rw (here, revoke)
            (ground (
              arith,
              lookup-delete token other (insert token capability db),
              lookup-insert token other capability db,
            )),
    )
