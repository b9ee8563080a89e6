-- ===== src/Kad/Bucket.antt =====
-- kad_bucket.go: a bucket is a `container/list` of peers, here the list of their ids, front first.
-- Each method holds the bucket's lock from start to end, so it is one step.
pub mod Front
pub mod Members
use holochain.Base.{
  Bytes, ℕ, zero, suc, ◌+◌, ◌*◌, List, [], ◌∷◌, ◌++◌, Bool, true, false, ◌||◌, Option, none, some,
  ltb, if◌then◌else◌, length, bytes_equal,
}
use holochain.Base.Result.{Result, ok, err, panic, out_of_fuel, ◌>>=◌}
use holochain.Hash.{xor, zero_prefix_len}

abbrev pub PeerId : Type 0
PeerId = Bytes

abbrev pub Bucket : Type 0
Bucket = List PeerId

unfoldable pub has : PeerId → Bucket → Bool
has id [] = false
has id (e ∷ b) = if bytes_equal e id then true else has id b

-- A removed element has no `Next`, so the loop ends with the first hit.
unfoldable pub remove : PeerId → Bucket → Bucket
remove id [] = []
remove id (e ∷ b) = if bytes_equal e id then b else e ∷ remove id b

-- The loop of `MoveToFront` at the elements `rest`, behind `before`. An element that was moved has
-- the old front as its `Next`, so the loop starts over behind it.
unfoldable pub front_loop : ℕ → PeerId → Bucket → Bucket → Result Bucket
front_loop zero id before rest = err out_of_fuel
front_loop (suc fuel) id before [] = ok before
front_loop (suc fuel) id before (e ∷ rest) = elim (bytes_equal e id) [
  | true ↦ front_loop fuel id (e ∷ []) (before ++ rest)
  | false ↦ front_loop fuel id (before ++ e ∷ []) rest
]

unfoldable pub move_to_front : PeerId → Bucket → Result Bucket
unfolding front_loop
move_to_front id b = front_loop (2 * length b + 1) id [] b

unfoldable pub push_front : PeerId → Bucket → Bucket
push_front p b = p ∷ b

-- `PopBack` panics on an empty list; else the last element and the others.
unfoldable pub pop_back : Bucket → Result (PeerId × Bucket)
pop_back [] = panic
pop_back (p ∷ []) = ok (p, [])
pop_back (p ∷ q ∷ b) = do (last, rest) ← pop_back (q ∷ b); ok (last, p ∷ rest)

unfoldable pub common_prefix_len : PeerId → PeerId → Result ℕ
common_prefix_len a b = do x ← xor a b; ok (zero_prefix_len x)

-- `Split`: the peers that stay, and those with a longer prefix, which make the new bucket.
unfoldable pub split : ℕ → PeerId → Bucket → Result (Bucket × Bucket)
split cpl target [] = ok ([], [])
split cpl target (p ∷ b) = do
  peer_cpl ← common_prefix_len p target
  (kept, moved) ← split cpl target b
  ok (if ltb cpl peer_cpl then (kept, p ∷ moved) else (p ∷ kept, moved))
