-- ===== src/Tests/Queues.antt =====
-- The theorems on queues of peers, with peers of two bytes.
use mathlib.Core.List.{forall_mem-cons, not-mem-nil}
use native.Mathlib.Nat.{ℕ_set}
use holochain.Base.{Bytes, ◌≡◌, ◌≢◌, refl, List, [], ◌∷◌, ◌++◌, Perm, Mem, length, bytes_equal}
use holochain.Base.Result.{Result, ok}
use holochain.Hash.{Hash, hash_xor_distance}
use holochain.PeerQueue.{new_xor_distance_pq}
use holochain.PeerQueue.Sorted.{in_order, IsByDistance, in_order-IsByDistance}
use holochain.PeerQueue.Channel.{
  returned, ChanQueue, new_chan_queue, ChanEvent, received, delivered, proceeds, run,
}
use holochain.PeerQueue.Channel.Keeps.{held, IsOrderly}
use holochain.PeerQueue.Channel.Runs.{all_taken, all_brought, run-balance}

abbrev here : Hash
here = 0 ∷ 0 ∷ []

abbrev far : Bytes
far = 9 ∷ 1 ∷ []

abbrev near : Bytes
near = 0 ∷ 7 ∷ []

abbrev between : Bytes
between = 3 ∷ 3 ∷ []

sizes : (p : Bytes) → Mem p (far ∷ near ∷ between ∷ []) → length p ≡ length here
sizes = (forall_mem-cons λ p. ℕ_set _ _).1 (
  refl,
  (forall_mem-cons λ p. ℕ_set _ _).1
      (refl, (forall_mem-cons λ p. ℕ_set _ _).1 (refl, λ p mem. absurd (not-mem-nil mem))),
)

in_order-IsByDistance_example :
    (out : List Bytes) × (in_order (far ∷ near ∷ between ∷ []) here ≡ ok out)
    × Perm out (far ∷ near ∷ between ∷ [])
    × IsByDistance here out
in_order-IsByDistance_example = in_order-IsByDistance here (far ∷ near ∷ between ∷ []) sizes

three_in_order : in_order (far ∷ near ∷ between ∷ []) here ≡ ok (near ∷ between ∷ far ∷ [])
unfolding in_order hash_xor_distance
three_in_order = refl

-- Two peers came in, and the nearer one went out.
abbrev events : List ChanEvent
events = delivered near ∷ proceeds ∷ received near ∷ received far ∷ []

abbrev end_of : Result ChanQueue → ChanQueue
end_of (ok cq) = cq
end_of _ = new_chan_queue (new_xor_distance_pq here)

abbrev events-end : ChanQueue
events-end = end_of (run events (new_chan_queue (new_xor_distance_pq here)))

events-run : run events (new_chan_queue (new_xor_distance_pq here)) ≡ ok events-end
unfolding run new_chan_queue new_xor_distance_pq hash_xor_distance bytes_equal
events-run = refl

run-balance_example :
    IsOrderly here events-end
    × (events-end.phase ≢ returned
        → Perm (all_taken events ++ held events-end) (all_brought events))
run-balance_example = run-balance here events events-end (tt, (tt, (refl, (refl, tt)))) events-run
