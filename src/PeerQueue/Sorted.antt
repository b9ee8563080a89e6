-- ===== src/PeerQueue/Sorted.antt =====
-- peerqueue/distance.go: a queue that is filled and then emptied sorts its peers.
use mathlib.Core.List.Perm
use mathlib.Core.List.{mem-cons_self, mem-cons_of_mem, exists_of_mem-map, append-nil, perm_middle}
use mathlib.Core.Logic.{∥∥₁_elim}
use native.Mathlib.Nat.{ℕ_set}
use native.Mathlib.Bridge.{le_prop}
use holochain.Base.{
  Bytes, ℕ, zero, suc, ◌≤◌, ◌≡◌, refl, ap, subst, List, [], ◌∷◌, ◌++◌, Perm, Mem, arith, length,
  map,
}
use holochain.Base.Result.{Result, ok, ◌>>=◌}
use holochain.Hash.{Hash}
use holochain.Hash.Distance.{value, xor_bytes, hash_xor_distance-value}
use holochain.PeerQueue.{
  PeerMetric, DistancePq, new_xor_distance_pq, enqueue, dequeue, queue_length,
}
use holochain.PeerQueue.Slots.{IsHeapTo}
use holochain.PeerQueue.Order.{IsNearest, enqueue-Arranged, dequeue-Popped}

-- `Enqueue` of one peer after the other.
unfoldable pub enqueue_all : List Bytes → DistancePq → Result DistancePq
unfolding enqueue
enqueue_all [] pq = ok pq
enqueue_all (p ∷ ps) pq = do pq' ← enqueue p pq; enqueue_all ps pq'

-- `Dequeue`, `k` times.
unfoldable pub dequeue_all : ℕ → DistancePq → Result (List Bytes)
unfolding dequeue
dequeue_all zero pq = ok []
dequeue_all (suc k) pq = do (p, pq') ← dequeue pq; ps ← dequeue_all k pq'; ok (p ∷ ps)

-- The distance as a number.
abbrev pub distance : Hash → Bytes → ℕ
distance origin p = value (xor_bytes p origin)

abbrev pub measure : Hash → Bytes → PeerMetric
measure origin p = record { peer = p; metric = distance origin p }

-- No peer is nearer than one before it.
abbrev pub IsByDistance : Hash → List Bytes → Type 0
IsByDistance origin [] = Unit {0}
IsByDistance origin (p ∷ ps) =
    ((q : Bytes) → Mem q ps → distance origin p ≤ distance origin q) × IsByDistance origin ps

-- A queue for the distance from a hash, filled and then emptied.
unfoldable pub in_order : List Bytes → Hash → Result (List Bytes)
unfolding enqueue_all dequeue_all new_xor_distance_pq queue_length
in_order ps origin = do
  pq ← enqueue_all ps (new_xor_distance_pq origin)
  dequeue_all (queue_length pq) pq

-- No entry is nearer than one before it.
abbrev IsAscending : List PeerMetric → Type 0
IsAscending [] = Unit {0}
IsAscending (x ∷ out) = IsNearest x.metric out × IsAscending out

module _ (origin : Hash) where
  enqueue_all-Perm :
      (ps : List Bytes) (h : List PeerMetric)
      → ((p : Bytes) → Mem p ps → length p ≡ length origin)
      → IsHeapTo (length h) h
      → (b : List PeerMetric) × (enqueue_all ps (record { origin = origin; heap = h })
          ≡ ok (record { origin = origin; heap = b }))
        × IsHeapTo (length b) b
        × Perm b (map (measure origin) ps ++ h)
  unfolding enqueue_all
  enqueue_all-Perm [] h sizes order = (h, refl, order, Perm.refl h)
  enqueue_all-Perm (p ∷ ps) h sizes order =
      let measured = hash_xor_distance-value p origin (sizes p mem-cons_self) in
      let (b, added, ordered, perm) =
        enqueue-Arranged p (record { origin = origin; heap = h }) (distance origin p) measured
          order in
      let (c, rest, heap, all) =
        enqueue_all-Perm ps b (λ q mem. sizes q (mem-cons_of_mem p mem)) ordered in
      let ms = map (measure origin) ps in
      (
        c,
        rw added rest,
        heap,
        Perm.trans all (Perm.trans (Perm.append_left ms perm) (perm_middle ms h)),
      )

  dequeue_all-Perm :
      (k : ℕ) (h : List PeerMetric)
      → length h ≡ k
      → IsHeapTo (length h) h
      → (out : List PeerMetric) × (dequeue_all k (record { origin = origin; heap = h })
          ≡ ok (map (λ x. x.peer) out))
        × Perm out h
        × IsAscending out
  unfolding dequeue_all
  dequeue_all-Perm zero [] size order = ([], refl, Perm.refl [], tt)
  dequeue_all-Perm zero (x ∷ h) size order = absurd (omega arith)
  dequeue_all-Perm (suc k) h size order =
      let (x, b, taken, popped) =
        dequeue-Popped (record { origin = origin; heap = h }) (omega arith) order in
      let (out, rest, perm, ascending) =
        dequeue_all-Perm k b (omega (arith, popped.size)) popped.order in
      (
        x ∷ out,
        rw (taken, rest) refl,
        Perm.trans (Perm.cons x perm) popped.perm,
        (λ y mem. popped.nearest y ((Perm.mem_iff perm).0 mem), ascending),
      )

  -- In a list of measured peers the metrics are the distances.
  IsByDistance-peers :
      (out : List PeerMetric)
      → ((x : PeerMetric) → Mem x out → x.metric ≡ distance origin x.peer)
      → IsAscending out
      → IsByDistance origin (map (λ x. x.peer) out)
  IsByDistance-peers [] measured ascending = tt
  IsByDistance-peers (x ∷ out) measured (low, ascending) = (
    λ q mem. ∥∥₁_elim (exists_of_mem-map mem) le_prop λ t.
        let at : distance origin t.0.peer ≡ distance origin q = ap (distance origin) t.2 in
        omega
          (arith, at, low t.0 t.1, measured x mem-cons_self, measured t.0 (mem-cons_of_mem x t.1)),
    IsByDistance-peers out (λ y mem. measured y (mem-cons_of_mem x mem)) ascending,
  )

  measured-metric :
      (ps : List Bytes) (x : PeerMetric)
      → Mem x (map (measure origin) ps)
      → x.metric ≡ distance origin x.peer
  measured-metric ps x mem = ∥∥₁_elim (exists_of_mem-map mem) (ℕ_set _ _) λ t. ground (arith, t.2)

  peers-measure : (ps : List Bytes) → map (λ x. x.peer) (map (measure origin) ps) ≡ ps
  peers-measure [] = refl
  peers-measure (p ∷ ps) = ap (◌∷◌ p) (peers-measure ps)

  -- A queue into which peers of the length of its hash are put returns all of them, each as often
  -- as it was put in, in the order of their xor distance from the hash.
  pub in_order-IsByDistance :
      (ps : List Bytes)
      → ((p : Bytes) → Mem p ps → length p ≡ length origin)
      → (out : List Bytes) × (in_order ps origin ≡ ok out) × Perm out ps × IsByDistance origin out
  unfolding in_order new_xor_distance_pq queue_length
  in_order-IsByDistance ps sizes =
      let (h, filled, order, all) = enqueue_all-Perm ps [] sizes (λ c p q. absurd (omega arith)) in
      let (out, emptied, perm, ascending) = dequeue_all-Perm (length h) h refl order in
      let whole = Perm.trans perm (subst (Perm h) (append-nil (map (measure origin) ps)) all) in
      (
        map (λ x. x.peer) out,
        rw (filled, emptied) refl,
        subst (Perm (map (λ x. x.peer) out)) (peers-measure ps) (Perm.map (λ x. x.peer) whole),
        IsByDistance-peers out (λ x mem. measured-metric ps x ((Perm.mem_iff whole).0 mem))
            ascending,
      )
