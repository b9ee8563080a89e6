-- ===== src/Capability.antt =====
-- capabilities.go: tokens that stand for a capability, and `BridgeCall` of bridge.go, which one
-- application makes on another with such a token.
pub mod Lifecycle
use holochain.Base.{
  Bytes, List, [], ◌∷◌, true, Option, none, some, bytes_equal, if◌then◌else◌, codes,
}
use holochain.Base.Map.{Map, lookup, insert, delete}
use holochain.Base.Result.{
  Error, Result, ok, err, panic, capability_invalid, no_bridge, unbridged, bridging, foreign, ◌>>=◌,
  guard, or_err, or_foreign,
}
use holochain.Zome.{Zome, FunctionDef, BridgeSpec, check_bridge_spec, call, zome_exposure}

-- `NewCapability`, with the random token that `makeToken` drew.
unfoldable pub new_capability : Bytes → Bytes → Map Bytes → Map Bytes
new_capability token capability db = insert token capability db

unfoldable pub validate_capability : Bytes → Map Bytes → Result Bytes
validate_capability token db = or_err (lookup token db) capability_invalid

unfoldable pub revoke : Bytes → Map Bytes → Result (Unit {0}) × Map Bytes
revoke token db = elim (lookup token db) [
  | none ↦ (err capability_invalid, db)
  | some capability ↦ (ok tt, delete token db)
]

-- Errors of a bridge call are reported as bridging errors, but for a function that is not bridged.
abbrev pub as_bridging : Result Bytes → Result Bytes
as_bridging (ok result) = ok result
as_bridging (err e) = err bridging
as_bridging panic = panic

-- A JSON text that does not parse is an error of the call.
unfoldable pub call_bridged :
    (Bytes → Option BridgeSpec) → Bytes → Bytes → Result Bytes → Bytes → Result Bytes
unfolding check_bridge_spec
call_bridged parse zome_type function result spec =
    if bytes_equal spec (codes "*") then as_bridging result else elim (parse spec) [
      | none ↦ err bridging
      | some bridged ↦
          if check_bridge_spec bridged zome_type function then as_bridging result else err unbridged
    ]

unfoldable pub bridge_call :
    (Bytes → Option BridgeSpec)
    → (Zome → Result (FunctionDef → Result Bytes))
    → Bytes
    → Bytes
    → Bytes
    → Option (Map Bytes)
    → List Zome
    → Result Bytes
unfolding validate_capability call_bridged call
bridge_call parse make_ribosome zome_type function token none zomes = err no_bridge
bridge_call parse make_ribosome zome_type function token (some db) zomes =
    elim (validate_capability token db) [
      | ok spec ↦
          call_bridged parse zome_type function
            (call make_ribosome zome_type function zome_exposure zomes) spec
      | err e ↦ err bridging
      | panic ↦ panic
    ]
