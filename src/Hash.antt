-- ===== src/Hash.antt =====
-- hash/hash.go: hashes as multihash byte strings, their text form, their wire form and the xor
-- metric. A Go slice is its list of bytes, so a nil slice and an empty one are the same `[]`, and
-- the capacity that `IsNullHash` and `String` read is the length.
pub mod RoundTrip
pub mod Distance
pub mod Prefix
use Prim.Native.Nat.{bit_xor}
use holochain.Base.{
  Bytes, ℕ, zero, suc, ◌+◌, ◌-◌, ◌*◌, ◌/◌, ◌%◌, ◌^◌, [], ◌∷◌, Bool, true, false, ◌&&◌, Option, none,
  some, ◌==◌, ltb, if◌then◌else◌, replicate, bytes_equal,
}
use holochain.Base.Result.{Result, ok, err, panic, nil_hash, ◌>>=◌}
use holochain.Wire.{Reader, read_bytes}

abbrev pub Hash : Type 0
Hash = Bytes

abbrev pub null_hash : Hash
null_hash = 0 ∷ []

unfoldable pub is_null_hash : Hash → Bool
is_null_hash [] = false
is_null_hash (b ∷ []) = b == 0
is_null_hash (b ∷ c ∷ h) = false

-- `Hash.Equal`.
unfoldable pub equal : Hash → Hash → Bool
unfolding is_null_hash bytes_equal
equal h h2 = if is_null_hash h && is_null_hash h2 then true else bytes_equal h h2

-- `Hash.String`, over the library's base 58 encoder.
unfoldable pub hash_string : (Bytes → Bytes) → Hash → Bytes
hash_string b58 [] = []
hash_string b58 (b ∷ h) = b58 (b ∷ h)

-- `binary.Write` of a nil hash is refused; the null hash is written as 34 zeros.
unfoldable pub marshal_hash : Hash → Result Bytes
unfolding is_null_hash
marshal_hash [] = err nil_hash
marshal_hash (b ∷ h) = if is_null_hash (b ∷ h) then ok (replicate 34 0) else ok (b ∷ h)

unfoldable pub decode_hash : Bytes → Hash
decode_hash [] = []
decode_hash (b ∷ h) = if b == 0 then null_hash else b ∷ h

unfoldable pub unmarshal_hash : Reader Hash
unfolding decode_hash
unmarshal_hash r = do (b, rest) ← read_bytes 34 r; ok (decode_hash b, rest)

-- `XOR`: indexing the second slice panics where it is shorter.
unfoldable pub xor : Bytes → Bytes → Result Bytes
xor [] b = ok []
xor (x ∷ a) [] = panic
xor (x ∷ a) (y ∷ b) = do rest ← xor a b; ok (bit_xor x y ∷ rest)

-- `big.Int.SetBytes`: the big-endian number.
unfoldable pub set_bytes : ℕ → Bytes → ℕ
set_bytes acc [] = acc
set_bytes acc (b ∷ bs) = set_bytes (acc * 256 + b) bs

unfoldable pub hash_xor_distance : Hash → Hash → Result ℕ
unfolding xor set_bytes
hash_xor_distance h1 h2 = do k3 ← xor h1 h2; ok (set_bytes 0 k3)

unfoldable pub hash_less : Hash → Hash → Result Bool
hash_less [] b = ok true
hash_less (x ∷ a) [] = panic
hash_less (x ∷ a) (y ∷ b) = let rest = hash_less a b in if x == y then rest else ok (ltb x y)

-- The inner loop of `ZeroPrefixLen`: `rounds` bits are left, the next one is bit `j` from the top.
unfoldable pub first_set_bit : ℕ → ℕ → ℕ → Option ℕ
first_set_bit zero j b = none
first_set_bit (suc rounds) j b =
    let rest = first_set_bit rounds (j + 1) b in if (b / 2 ^ (7 - j)) % 2 == 0 then rest else some j

-- The outer loop, at byte `i`.
unfoldable pub zero_prefix_from : ℕ → Bytes → ℕ
zero_prefix_from i [] = i * 8
zero_prefix_from i (b ∷ id) = elim (first_set_bit 8 0 b) [
  | none ↦ zero_prefix_from (i + 1) id
  | some j ↦ i * 8 + j
]

unfoldable pub zero_prefix_len : Bytes → ℕ
unfolding zero_prefix_from
zero_prefix_len id = zero_prefix_from 0 id
