-- ===== src/PeerQueue/Down.antt =====
-- peerqueue/distance.go: an entry with too large a metric sinks to its place.
use holochain.Base.{
  ℕ, zero, suc, ◌+◌, ◌*◌, ◌≤◌, ◌<◌, ◌≡◌, ◌≢◌, ◌⊎◌, refl, List, arith, ltb, inl, inr, length,
  Bool-cases,
}
use holochain.Base.Result.{ok}
use holochain.PeerQueue.{PeerMetric, parent, lower_child, down}
use holochain.PeerQueue.Slots.{
  metric_at, swap-Swapped, Swapped, Arranges, Arranged-refl, Arranges-swap, less-at,
}

-- Only entry `i` may be larger than its children.
pub record CanSink (n : ℕ) (h : List PeerMetric) (i : ℕ) : Type 0 where
  pub inside : i < n
  pub edges : (c : ℕ) → 0 < c → c < n → parent c ≢ i → metric_at h (parent c) ≤ metric_at h c
  pub over : (c : ℕ) → 0 < c → c < n → parent c ≡ i → 0 < i → metric_at h (parent i) ≤ metric_at h c

-- `j` is the child of `i` with the smaller metric.
record IsLowerChild (n : ℕ) (h : List PeerMetric) (i j : ℕ) : Type 0 where
  below : j < n
  child : parent j ≡ i
  apart : i < j
  least : (c : ℕ) → 0 < c → c < n → parent c ≡ i → metric_at h j ≤ metric_at h c

child-cases : (c i : ℕ) → 0 < c → parent c ≡ i → (c ≡ 2 * i + 1) ⊎ (c ≡ 2 * i + 2)
child-cases c i p q = ground arith

lower_child-lem :
    (n : ℕ) (h : List PeerMetric) (i : ℕ)
    → n ≤ length h
    → 2 * i + 1 < n
    → (j : ℕ) × (lower_child h i n ≡ ok j) × IsLowerChild n h i j
unfolding lower_child
lower_child-lem n h i inside p = elim (Bool-cases (ltb (2 * i + 2) n)) [
  | inr single ↦ (
    2 * i + 1,
    rw single refl,
    record {
      below = p;
      child = omega arith;
      apart = omega arith;
      least = λ c u v w. ground (arith, child-cases c i);
    },
  )
  | inl both ↦
      let q : 2 * i + 2 < n = ground arith in
      let tested = less-at h (2 * i + 2) (2 * i + 1) (omega arith) (omega arith) in
      elim (Bool-cases (ltb (metric_at h (2 * i + 2)) (metric_at h (2 * i + 1)))) [
        | inl right ↦ (
          2 * i + 2,
          rw (both, tested, right) refl,
          record {
            below = q;
            child = omega arith;
            apart = omega arith;
            least = λ c u v w. ground (arith, child-cases c i);
          },
        )
        | inr left ↦ (
          2 * i + 1,
          rw (both, tested, left) refl,
          record {
            below = p;
            child = omega arith;
            apart = omega arith;
            least = λ c u v w. ground (arith, child-cases c i);
          },
        )
      ]
]

CanSink-swap :
    (n : ℕ) (h b : List PeerMetric) (i j : ℕ)
    → CanSink n h i
    → IsLowerChild n h i j
    → metric_at h j < metric_at h i
    → Swapped h i j b
    → CanSink n b j
CanSink-swap n h b i j v l below s =
    let child = l.child in
    let apart = l.apart in
    record {
      inside = l.below;
      edges = λ c p q r.
          ground
            (arith, s.metrics c, s.metrics (parent c), v.edges c, v.over c, v.over j, l.least c);
      over = λ c p q r t. ground (arith, s.metrics c, s.metrics (parent j), v.edges c, v.edges j);
    }

pub down-Arranges :
    (k n : ℕ) (h : List PeerMetric) (i : ℕ)
    → n < i + k
    → n ≤ length h
    → CanSink n h i
    → Arranges n h (down k h i n)
unfolding down
down-Arranges zero n h i fuel inside v = absurd (omega (arith, v.inside))
down-Arranges (suc k) n h i fuel inside v = elim (Bool-cases (ltb (2 * i + 1) n)) [
  | inr leaf ↦ rw leaf (h, refl, Arranged-refl n h (λ c p q. ground (arith, v.edges c)))
  | inl inner ↦
      let (j, chosen, l) = lower_child-lem n h i inside (ground arith) in
      let hi : i < length h = omega (arith, v.inside) in
      let hj : j < length h = omega (arith, l.below) in
      let (b, swapped, s) = swap-Swapped h i j hi hj in
      elim (Bool-cases (ltb (metric_at h j) (metric_at h i))) [
        | inl below ↦
            rw (inner, chosen, less-at h j i hj hi, below, swapped)
              (Arranges-swap n h b i j _ v.inside l.below s (
                down-Arranges k n b j (omega (arith, l.apart)) (omega (arith, s.size))
                  (CanSink-swap n h b i j v l (ground arith) s)))
        | inr settled ↦
            rw (inner, chosen, less-at h j i hj hi, settled)
              (h, refl, Arranged-refl n h (λ c p q. ground (arith, v.edges c, l.least c)))
      ]
]
