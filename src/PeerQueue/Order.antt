-- ===== src/PeerQueue/Order.antt =====
-- peerqueue/distance.go: peers leave the queue in the order of their distances.
use mathlib.Core.List.Perm
use mathlib.Core.List.{forall_mem-cons, mem-cons_of_mem, not-mem-nil, perm_append_singleton}
use native.Mathlib.Bridge.{le_prop}
use holochain.Base.{
  Bytes, ℕ, zero, suc, ◌+◌, ◌-◌, ◌≤◌, ◌<◌, ◌≡◌, ◌∙◌, refl, sym, ap, subst, List, [], ◌∷◌, Perm, Mem,
  some, arith, ltb, false, length, get_elem?, get_elem?-total, take, length-take,
}
use holochain.Base.Result.{ok}
use holochain.Hash.{hash_xor_distance}
use holochain.PeerQueue.{PeerMetric, DistancePq, parent, down, heap_pop, enqueue, dequeue}
use holochain.PeerQueue.Slots.{
  metric_at, metric_at-get_elem?, metric_at-append, take-snoc, swap-Swapped, Swapped, IsHeapTo,
  Arranges, Arranged-refl,
}
use holochain.PeerQueue.Up.{heap_push-Arranged}
use holochain.PeerQueue.Down.{down-Arranges}

-- No entry of `h` is nearer than `m`.
abbrev pub IsNearest : ℕ → List PeerMetric → Type 0
IsNearest m h = (y : PeerMetric) → Mem y h → m ≤ y.metric

root_lowest :
    (k : ℕ) (h : List PeerMetric) (i : ℕ)
    → IsHeapTo (length h) h
    → i < k
    → i < length h
    → metric_at h 0 ≤ metric_at h i
root_lowest zero h i order f p = absurd (omega arith)
root_lowest (suc k) h zero order f p = omega arith
root_lowest (suc k) h (suc i) order f p = omega (
  arith,
  order (suc i) (omega arith) p,
  root_lowest k h (parent (suc i)) order (omega arith) (omega arith),
)

IsNearest-metric_at :
    (m : ℕ) (h : List PeerMetric) → ((i : ℕ) → i < length h → m ≤ metric_at h i) → IsNearest m h
unfolding metric_at
IsNearest-metric_at m [] low = λ y mem. absurd (not-mem-nil mem)
IsNearest-metric_at m (x ∷ h) low =
    (forall_mem-cons λ y. le_prop).1
      (low 0 (omega arith), IsNearest-metric_at m h λ i p. low (suc i) (omega arith))

-- What popping takes from a heap.
pub record Popped (h : List PeerMetric) (x : PeerMetric) (b : List PeerMetric) : Type 0 where
  pub order : IsHeapTo (length b) b
  pub perm : Perm (x ∷ b) h
  pub size : length h ≡ suc (length b)
  pub nearest : IsNearest x.metric b

-- The sift after the swap; there is nothing to sift in a heap of one.
sifted :
    (n : ℕ) (h b : List PeerMetric)
    → IsHeapTo (length h) h
    → length h ≡ suc n
    → Swapped h 0 n b
    → Arranges n b (down (n + 1) b 0 n)
unfolding down
sifted zero h b order size s = (b, refl, Arranged-refl 0 b (λ c p q. absurd (omega arith)))
sifted (suc n) h b order size s =
    down-Arranges (suc n + 1) (suc n) b 0 (omega arith) (omega (arith, s.size)) (record {
      inside = omega arith;
      edges = λ c p q r. ground (arith, s.metrics c, s.metrics (parent c), order c);
      over = λ c p q r t. omega arith;
    })

pub heap_pop-Popped :
    (h : List PeerMetric)
    → 0 < length h
    → IsHeapTo (length h) h
    → (x : PeerMetric) × (b : List PeerMetric) × (heap_pop h ≡ ok (x, b)) × Popped h x b
unfolding heap_pop
heap_pop-Popped h pos order =
    let n = length h - 1 in
    let size : length h ≡ suc n = omega arith in
    let (x, root) = get_elem?-total h 0 pos in
    let (b, swapped, s) = swap-Swapped h 0 n pos (omega arith) in
    let (c, sunk, a) = sifted n h b order size s in
    let last : get_elem? c n ≡ some x = a.above n (omega arith) ∙ s.moved ∙ root in
    let size_c : length c ≡ suc n = a.size ∙ s.size ∙ size in
    let whole = take-snoc n c x size_c last in
    let size_b : length (take n c) ≡ n = omega (arith, length-take n c) in
    let perm : Perm (x ∷ take n c) h =
      Perm.trans (Perm.symm (perm_append_singleton x (take n c)))
        (subst (λ l. Perm l h) (sym whole) (Perm.trans a.perm s.perm)) in
    let kept : (i : ℕ) → i < n → metric_at (take n c) i ≡ metric_at c i = λ i p.
      sym (metric_at-append (take n c) (x ∷ []) i (omega arith)) ∙ ap (λ l. metric_at l i) whole in
    let low : IsNearest x.metric h = IsNearest-metric_at x.metric h λ i p.
      omega
        (arith, metric_at-get_elem? h 0 x root, root_lowest (suc i) h i order (omega arith) p) in
    (
      x,
      take n c,
      rw (swapped, sunk, last) refl,
      record {
        order = λ i p q.
            omega (
              arith,
              kept i (omega arith),
              kept (parent i) (omega arith),
              a.heap i p (omega arith),
            );
        perm = perm;
        size = omega (arith, size_b);
        nearest = λ y mem. low y ((Perm.mem_iff perm).0 (mem-cons_of_mem _ mem));
      },
    )

-- Adding a peer to a heap.
pub enqueue-Arranged :
    (p : Bytes) (pq : DistancePq) (distance : ℕ)
    → hash_xor_distance p pq.origin ≡ ok distance
    → IsHeapTo (length pq.heap) pq.heap
    → (h : List PeerMetric) × (enqueue p pq ≡ ok (record pq { heap = h }))
      × IsHeapTo (length h) h
      × Perm h (record { peer = p; metric = distance } ∷ pq.heap)
unfolding enqueue
enqueue-Arranged p pq distance measured order =
    let x : PeerMetric = record { peer = p; metric = distance } in
    let (h, pushed, ordered, perm) = heap_push-Arranged pq.heap x order in
    (h, rw (measured, pushed) refl, ordered, perm)

-- Taking a peer from a heap that is not empty.
pub dequeue-Popped :
    (pq : DistancePq)
    → 0 < length pq.heap
    → IsHeapTo (length pq.heap) pq.heap
    → (x : PeerMetric) × (h : List PeerMetric) × (dequeue pq ≡ ok (x.peer, record pq { heap = h }))
      × Popped pq.heap x h
unfolding dequeue
dequeue-Popped pq pos order =
    let (x, h, popped, result) = heap_pop-Popped pq.heap pos order in
    let full : ltb (length pq.heap) 1 ≡ false = ground arith in
    (x, h, rw (full, popped) refl, result)
