-- ===== src/PeerQueue/Up.antt =====
-- peerqueue/distance.go: an entry with too small a metric rises to its place.
use mathlib.Core.List.Perm
use mathlib.Core.List.{perm_append_singleton}
use holochain.Base.{
  ℕ, zero, suc, ◌+◌, ◌≤◌, ◌<◌, ◌≡◌, ◌≢◌, refl, sym, subst, List, [], ◌∷◌, ◌++◌, Perm, arith, ◌==◌,
  ltb, inl, inr, length, Bool-cases, length-snoc,
}
use holochain.Base.Result.{ok}
use holochain.PeerQueue.{PeerMetric, parent, up, heap_push}
use holochain.PeerQueue.Slots.{
  metric_at, metric_at-append, swap-Swapped, Swapped, IsHeapTo, Arranges, Arranged-refl,
  Arranges-swap, less-at,
}

-- Only entry `j` may be smaller than its parent.
pub record CanRise (n : ℕ) (h : List PeerMetric) (j : ℕ) : Type 0 where
  pub inside : j < n
  pub edges : (c : ℕ) → 0 < c → c < n → c ≢ j → metric_at h (parent c) ≤ metric_at h c
  pub over : (c : ℕ) → 0 < c → c < n → parent c ≡ j → 0 < j → metric_at h (parent j) ≤ metric_at h c

CanRise-swap :
    (n : ℕ) (h b : List PeerMetric) (j : ℕ)
    → CanRise n h j
    → 0 < j
    → metric_at h j < metric_at h (parent j)
    → Swapped h (parent j) j b
    → CanRise n b (parent j)
CanRise-swap n h b j v pos below s = record {
  inside = omega (arith, v.inside);
  edges = λ c p q r.
      ground (arith, s.metrics c, s.metrics (parent c), v.edges c, v.over c, v.edges (parent c));
  over = λ c p q r t.
      ground (
        arith,
        s.metrics c,
        s.metrics (parent (parent j)),
        v.edges c,
        v.edges (parent j),
        v.over c,
      );
}

pub up-Arranges :
    (k n : ℕ) (h : List PeerMetric) (j : ℕ)
    → j < k
    → n ≤ length h
    → CanRise n h j
    → Arranges n h (up k h j)
unfolding up
up-Arranges zero n h j fuel inside v = absurd (omega arith)
up-Arranges (suc k) n h j fuel inside v = elim (Bool-cases (parent j == j)) [
  | inl root ↦ rw root (h, refl, Arranged-refl n h (λ c p q. ground (arith, v.edges c)))
  | inr low ↦
      let hj : j < n = v.inside in
      let pos : 0 < j = ground arith in
      let (b, swapped, s) = swap-Swapped h (parent j) j (omega arith) (omega arith) in
      elim (Bool-cases (ltb (metric_at h j) (metric_at h (parent j)))) [
        | inl below ↦
            rw (low, less-at h j (parent j) (omega arith) (omega arith), below, swapped)
              (Arranges-swap n h b (parent j) j _ (omega arith) hj s (
                up-Arranges k n b (parent j) (omega arith) (omega (arith, s.size))
                  (CanRise-swap n h b j v pos (ground arith) s)))
        | inr settled ↦
            rw (low, less-at h j (parent j) (omega arith) (omega arith), settled)
              (h, refl, Arranged-refl n h (λ c p q. ground (arith, v.edges c)))
      ]
]

-- Pushing one entry onto a heap.
pub heap_push-Arranged :
    (h : List PeerMetric) (x : PeerMetric)
    → IsHeapTo (length h) h
    → (b : List PeerMetric) × (heap_push h x ≡ ok b) × IsHeapTo (length b) b × Perm b (x ∷ h)
unfolding heap_push
heap_push-Arranged h x order =
    let grown = h ++ x ∷ [] in
    let size = length-snoc h x in
    let start : CanRise (length grown) grown (length h) = record {
      inside = omega (arith, size);
      edges = λ c p q r. ground (
        arith,
        size,
        order c,
        metric_at-append h (x ∷ []) c,
        metric_at-append h (x ∷ []) (parent c),
      );
      over = λ c p q r t. omega (arith, size);
    } in
    let (b, e, a) =
      up-Arranges (length h + 1) (length grown) grown (length h) (omega arith) (omega arith)
        start in
    (
      b,
      e,
      subst (λ n. IsHeapTo n b) (sym a.size) a.heap,
      Perm.trans a.perm (perm_append_singleton x h),
    )
