-- ===== src/Tests/Hashes.antt =====
-- The theorems on hashes and strings on the wire, and on distances, at short inputs.
use holochain.Base.{◌<◌, ◌≡◌, refl, [], ◌∷◌, arith, IsBytes}
use holochain.Base.Result.{ok}
use holochain.Hash.{Hash, xor, hash_xor_distance, zero_prefix_len, first_set_bit}

abbrev target : Hash
target = 1 ∷ 1 ∷ []

abbrev near : Hash
near = 1 ∷ 9 ∷ []

abbrev far : Hash
far = 5 ∷ 2 ∷ []

target-IsBytes : IsBytes target
target-IsBytes = (omega arith, (omega arith, tt))

near-IsBytes : IsBytes near
near-IsBytes = (omega arith, (omega arith, tt))

far-IsBytes : IsBytes far
far-IsBytes = (omega arith, (omega arith, tt))

xor_of_far : xor far target ≡ ok (4 ∷ 3 ∷ [])
unfolding xor
xor_of_far = refl

xor_of_near : xor near target ≡ ok (0 ∷ 8 ∷ [])
unfolding xor
xor_of_near = refl

distance_far : hash_xor_distance far target ≡ ok 1027
unfolding hash_xor_distance
distance_far = refl

distance_near : hash_xor_distance near target ≡ ok 8
unfolding hash_xor_distance
distance_near = refl

longer : zero_prefix_len (4 ∷ 3 ∷ []) < zero_prefix_len (0 ∷ 8 ∷ [])
unfolding zero_prefix_len first_set_bit
longer = omega arith
