-- ===== src/Hash/RoundTrip.antt =====
-- `UnmarshalHash` after `MarshalHash`.
use holochain.Base.{
  Bytes, ℕ, ◌≡◌, ◌≢◌, refl, [], ◌∷◌, ◌++◌, arith, if◌then◌else◌, length, replicate,
}
use holochain.Base.Result.{ok}
use holochain.Wire.RoundTrip.{read_bytes-append}
use holochain.Hash.{Hash, null_hash, is_null_hash, marshal_hash, unmarshal_hash}

-- The hashes that have a place on the wire: the null hash, and multihashes of 34 bytes.
abbrev pub IsWireHash : Hash → Type 0
IsWireHash [] = ⊥
IsWireHash (b ∷ []) = b ≡ 0
IsWireHash (b ∷ c ∷ h) = (length h ≡ 32) × (b ≢ 0)

-- The 34 bytes of a hash.
pub wire_form : Hash → Bytes
wire_form h = if is_null_hash h then replicate 34 0 else h

module _ (x y : ℕ) (h rest : Bytes) (long : length h ≡ 32) (first : x ≢ 0) where
  read_multihash : unmarshal_hash (x ∷ y ∷ h ++ rest) ≡ ok (x ∷ y ∷ h, rest)
  unfolding unmarshal_hash
  read_multihash =
      let w : Bytes = x ∷ y ∷ h in rw (read_bytes-append 34 w rest (omega arith)) (ground arith)

pub length-wire_form : (h : Hash) → IsWireHash h → length (wire_form h) ≡ 34
unfolding wire_form is_null_hash
length-wire_form [] w = absurd w
length-wire_form (x ∷ []) w = ground arith
length-wire_form (x ∷ y ∷ h) w = omega arith

pub marshal_hash-wire_form : (h : Hash) → IsWireHash h → marshal_hash h ≡ ok (wire_form h)
unfolding marshal_hash wire_form
marshal_hash-wire_form [] w = absurd w
marshal_hash-wire_form (x ∷ []) w = ground arith
marshal_hash-wire_form (x ∷ y ∷ h) w = refl

read_null : (rest : Bytes) → unmarshal_hash (replicate 34 0 ++ rest) ≡ ok (null_hash, rest)
unfolding unmarshal_hash
read_null rest = rw (read_bytes-append 34 (replicate 34 0) rest refl)

-- The 34-byte wire form of a hash, null or not, followed by anything, is unmarshalled to the hash
-- and what follows.
pub unmarshal_hash-wire_form :
    (h : Hash) (rest : Bytes) → IsWireHash h → unmarshal_hash (wire_form h ++ rest) ≡ ok (h, rest)
unfolding wire_form is_null_hash
unmarshal_hash-wire_form [] rest w = absurd w
unmarshal_hash-wire_form (x ∷ []) rest w = rw w (read_null rest)
unmarshal_hash-wire_form (x ∷ y ∷ h) rest w = read_multihash x y h rest w.0 w.1
