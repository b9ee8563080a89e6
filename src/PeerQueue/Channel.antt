-- ===== src/PeerQueue/Channel.antt =====
-- peerqueue/sync.go: the goroutine of `process`, which moves peers from one channel to another by
-- way of a queue. What it waits for is an event, given to it from outside.
pub mod Keeps
pub mod Steps
pub mod Runs
use holochain.Base.{
  Bytes, ℕ, List, [], ◌∷◌, Bool, true, false, ◌&&◌, ◌==◌, if◌then◌else◌, bytes_equal,
}
use holochain.Base.Result.{Result, ok, err, ◌>>=◌, not_enabled}
use holochain.Hash.{Hash}
use holochain.PeerQueue.{DistancePq, new_xor_distance_pq, queue_length, enqueue, dequeue}

-- `looping` is the head of the loop, `offering` the second `select` with its `next`.
pub data Phase : Type 0 where
  looping returned : Phase
  offering : Bytes → Phase

-- `is_open` says that `enqChan` was not set to nil.
pub record ChanQueue : Type 0 where
  pub queue : DistancePq
  pub phase : Phase
  pub is_open : Bool

-- A peer that came in, the end of `enqChan`, a peer that went out on `deqChan`, the end of the
-- context; `proceeds` is the round that waits for nothing.
pub data ChanEvent : Type 0 where
  received delivered : Bytes → ChanEvent
  closed cancelled proceeds : ChanEvent

unfoldable pub new_chan_queue : DistancePq → ChanQueue
new_chan_queue pq = record { queue = pq; phase = looping; is_open = true }

-- The first `if` of the loop.
unfoldable pub at_head : ChanEvent → ChanQueue → Result ChanQueue
unfolding queue_length dequeue
at_head (received p) cq =
    if queue_length cq.queue == 0 && cq.is_open
    then ok (record cq { phase = offering p })
    else err not_enabled
at_head closed cq =
    if queue_length cq.queue == 0 && cq.is_open
    then ok (record cq { phase = returned })
    else err not_enabled
at_head cancelled cq =
    if queue_length cq.queue == 0 then ok (record cq { phase = returned }) else err not_enabled
at_head proceeds cq =
    let go : Result ChanQueue = (do
      (next, pq) ← dequeue cq.queue
      ok (record cq { queue = pq; phase = offering next })) in
    if queue_length cq.queue == 0 then err not_enabled else go
at_head (delivered p) cq = err not_enabled

-- `Enqueue(item)` and `Enqueue(next)`, and back to the head.
unfoldable pub put_back : Bytes → Bytes → ChanQueue → Result ChanQueue
unfolding enqueue
put_back item next cq = do
  pq ← enqueue item cq.queue
  pq' ← enqueue next pq
  ok (record cq { queue = pq'; phase = looping })

-- The second `select`; a closed channel gives the empty peer.
unfoldable pub at_offer : Bytes → ChanEvent → ChanQueue → Result ChanQueue
unfolding queue_length put_back
at_offer next (received item) cq = if cq.is_open then put_back item next cq else err not_enabled
at_offer next closed cq =
    let last =
      if queue_length cq.queue == 0
      then put_back [] next (record cq { is_open = false })
      else ok (record cq { phase = returned }) in
    if cq.is_open then last else err not_enabled
at_offer next (delivered p) cq =
    if bytes_equal p next then ok (record cq { phase = looping }) else err not_enabled
at_offer next cancelled cq = ok (record cq { phase = returned })
at_offer next proceeds cq = err not_enabled

unfoldable pub step : ChanEvent → ChanQueue → Result ChanQueue
unfolding at_head at_offer
step e cq = elim (cq.phase) [
  | looping ↦ at_head e cq
  | returned ↦ err not_enabled
  | offering next ↦ at_offer next e cq
]

-- What happens, the last event first.
unfoldable pub run : List ChanEvent → ChanQueue → Result ChanQueue
unfolding step
run [] cq = ok cq
run (e ∷ es) cq = do cq' ← run es cq; step e cq'
