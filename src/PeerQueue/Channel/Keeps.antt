-- ===== src/PeerQueue/Channel/Keeps.antt =====
-- peerqueue/sync.go: no peer gets lost or doubled between the channels, and the peer that is offered
-- is the nearest of those that wait.
use mathlib.Core.List.Perm
use mathlib.Core.List.{forall_mem-cons, mem-cons_of_mem, mem-cons_self}
use native.Mathlib.Nat.{ℕ_set}
use holochain.Base.{
  Bytes, ◌<◌, ◌≡◌, ◌≢◌, refl, sym, subst, List, [], ◌∷◌, Perm, Mem, arith, length, map, ℕ_discrete,
}
use holochain.Base.Result.{ok}
use holochain.Hash.{Hash, hash_xor_distance, set_bytes}
use holochain.Hash.Distance.{hash_xor_distance-value}
use holochain.PeerQueue.{PeerMetric, DistancePq, enqueue, dequeue}
use holochain.PeerQueue.Slots.{IsHeapTo}
use holochain.PeerQueue.Order.{IsNearest, enqueue-Arranged, dequeue-Popped}
use holochain.PeerQueue.Sorted.{distance}
use holochain.PeerQueue.Channel.{
  looping, returned, offering, ChanQueue, ChanEvent, received, delivered, closed,
}

-- A peer whose distance can be taken: of the length of the hash, or empty.
abbrev pub Fits : Hash → Bytes → Type 0
Fits origin p = length p ≢ length origin → length p ≡ 0

Fits-prop : (origin : Hash) (p : Bytes) → IsProp (Fits origin p)
Fits-prop origin p = hlevel

pub empty-distance :
    (origin : Hash) (p : Bytes) → length p ≡ 0 → hash_xor_distance p origin ≡ ok (distance origin p)
unfolding hash_xor_distance set_bytes
empty-distance origin [] e = refl
empty-distance origin (b ∷ p) e = absurd (omega arith)

distance-Fits :
    (origin : Hash) (p : Bytes)
    → Fits origin p
    → hash_xor_distance p origin ≡ ok (distance origin p)
distance-Fits origin p fit = elim (ℕ_discrete (length p) (length origin)) [
  | yes same ↦ hash_xor_distance-value p origin same
  | no apart ↦ empty-distance origin p (fit apart)
]

abbrev pub peers : DistancePq → List Bytes
peers pq = map (λ x. x.peer) pq.heap

-- A queue that is in order.
pub record IsOrdered (origin : Hash) (pq : DistancePq) : Type 0 where
  pub same : pq.origin ≡ origin
  pub order : IsHeapTo (length pq.heap) pq.heap
  pub measured : (x : PeerMetric) → Mem x pq.heap → x.metric ≡ distance origin x.peer
  pub fits : (x : PeerMetric) → Mem x pq.heap → Fits origin x.peer

module _ (origin : Hash) where
  pub enqueue-IsOrdered :
      (p : Bytes) (pq : DistancePq)
      → IsOrdered origin pq
      → Fits origin p
      → (pq' : DistancePq) × (enqueue p pq ≡ ok pq')
        × IsOrdered origin pq'
        × Perm (peers pq') (p ∷ peers pq)
  enqueue-IsOrdered p pq v fit =
      let measured =
        subst (λ o. hash_xor_distance p o ≡ ok (distance origin p)) (sym v.same)
          (distance-Fits origin p fit) in
      let (h, added, order, perm) = enqueue-Arranged p pq (distance origin p) measured v.order in
      (
        record pq { heap = h },
        added,
        record {
          same = v.same;
          order = order;
          measured = λ x mem.
              (forall_mem-cons λ y. ℕ_set _ _).1 (refl, v.measured) x ((Perm.mem_iff perm).0 mem);
          fits = λ x mem.
              (forall_mem-cons λ y. Fits-prop origin y.peer).1 (fit, v.fits) x
                ((Perm.mem_iff perm).0 mem);
        },
        Perm.map (λ x. x.peer) perm,
      )

  pub dequeue-IsOrdered :
      (pq : DistancePq)
      → IsOrdered origin pq
      → 0 < length pq.heap
      → (p : Bytes) × (pq' : DistancePq) × (dequeue pq ≡ ok (p, pq'))
        × IsOrdered origin pq'
        × Perm (p ∷ peers pq') (peers pq)
        × Fits origin p
        × IsNearest (distance origin p) pq'.heap
  dequeue-IsOrdered pq v pos =
      let (x, h, taken, popped) = dequeue-Popped pq pos v.order in
      let was = λ (y : PeerMetric) (mem : Mem y (x ∷ h)). (Perm.mem_iff popped.perm).0 mem in
      (
        x.peer,
        record pq { heap = h },
        taken,
        record {
          same = v.same;
          order = popped.order;
          measured = λ y mem. v.measured y (was y (mem-cons_of_mem x mem));
          fits = λ y mem. v.fits y (was y (mem-cons_of_mem x mem));
        },
        Perm.map (λ x. x.peer) popped.perm,
        v.fits x (was x mem-cons_self),
        λ y mem. omega (arith, v.measured x (was x mem-cons_self), popped.nearest y mem),
      )

-- What waits: the peer on offer, and those of the queue.
abbrev pub held : ChanQueue → List Bytes
held cq = elim (cq.phase) [
  | looping ↦ peers cq.queue
  | returned ↦ peers cq.queue
  | offering next ↦ next ∷ peers cq.queue
]

-- What an event brings, the empty peer at the end of the channel included, and what it takes away.
abbrev pub brought : ChanEvent → List Bytes
brought (received p) = p ∷ []
brought closed = [] ∷ []
brought _ = []

abbrev pub taken : ChanEvent → List Bytes
taken (delivered p) = p ∷ []
taken _ = []

abbrev pub Suits : Hash → ChanEvent → Type 0
Suits origin (received p) = length p ≡ length origin
Suits origin _ = Unit {0}

-- The peer on offer is the nearest of those that wait.
abbrev pub OfferIsNearest : Hash → ChanQueue → Type 0
OfferIsNearest origin cq = elim (cq.phase) [
  | looping ↦ Unit {0}
  | returned ↦ Unit {0}
  | offering next ↦ Fits origin next × IsNearest (distance origin next) cq.queue.heap
]

pub record IsOrderly (origin : Hash) (cq : ChanQueue) : Type 0 where
  pub queue : IsOrdered origin cq.queue
  pub offer : OfferIsNearest origin cq
