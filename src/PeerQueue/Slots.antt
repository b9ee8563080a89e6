-- ===== src/PeerQueue/Slots.antt =====
-- peerqueue/distance.go: entries by their index, and what a swap does to them.
use mathlib.Core.List.Perm
use holochain.Base.{
  ℕ, zero, suc, ◌≤◌, ◌<◌, ◌≡◌, ◌≢◌, ◌∙◌, subst, ap, sym, refl, List, [], ◌∷◌, ◌++◌, take, Perm,
  some, some_injective, arith, ◌==◌, ltb, if◌then◌else◌, length, get_elem?, set, length-set,
  get_elem?-set, get_elem?-total,
}
use holochain.Base.Result.{Result, ok}
use holochain.PeerQueue.{PeerMetric, swap, less, parent}

-- The metric at an index, 0 past the end.
unfoldable pub metric_at : List PeerMetric → ℕ → ℕ
metric_at [] i = 0
metric_at (x ∷ h) zero = x.metric
metric_at (x ∷ h) (suc i) = metric_at h i

pub metric_at-get_elem? :
    (h : List PeerMetric) (i : ℕ) (x : PeerMetric)
    → get_elem? h i ≡ some x
    → metric_at h i ≡ x.metric
unfolding metric_at
metric_at-get_elem? [] i x e = cc
metric_at-get_elem? (y ∷ h) zero x e = ground arith
metric_at-get_elem? (y ∷ h) (suc i) x e = metric_at-get_elem? h i x e

pub metric_at-set :
    (h : List PeerMetric) (i j : ℕ) (v : PeerMetric)
    → i < length h
    → metric_at (set h i v) j ≡ (if i == j then v.metric else metric_at h j)
unfolding metric_at
metric_at-set [] i j v p = absurd (omega arith)
metric_at-set (x ∷ h) zero zero v p = refl
metric_at-set (x ∷ h) zero (suc j) v p = ground arith
metric_at-set (x ∷ h) (suc i) zero v p = ground arith
metric_at-set (x ∷ h) (suc i) (suc j) v p = ground (arith, metric_at-set h i j v)

-- An overwritten entry is the only one that is lost.
set-trades {ℓ} :
    {A : Type ℓ} (h : List A) (i : ℕ) (x v : A)
    → get_elem? h i ≡ some x
    → Perm (x ∷ set h i v) (v ∷ h)
set-trades [] i x v e = cc
set-trades (y ∷ h) zero x v e =
    subst (λ z. Perm (z ∷ v ∷ h) (v ∷ y ∷ h)) (some_injective e) (Perm.swap v y h)
set-trades (y ∷ h) (suc i) x v e =
    Perm.trans (Perm.swap y x (set h i v))
      (Perm.trans (Perm.cons y (set-trades h i x v e)) (Perm.swap v y h))

-- What a swap leaves of the entries of `h`.
pub record Swapped (h : List PeerMetric) (i j : ℕ) (b : List PeerMetric) : Type 0 where
  pub size : length b ≡ length h
  pub perm : Perm b h
  pub metrics :
      (c : ℕ)
      → metric_at b c
        ≡ (if j == c then metric_at h i else if i == c then metric_at h j else metric_at h c)
  pub others : (c : ℕ) → c ≢ i → c ≢ j → get_elem? b c ≡ get_elem? h c
  pub moved : get_elem? b j ≡ get_elem? h i

pub swap-Swapped :
    (h : List PeerMetric) (i j : ℕ)
    → i < length h
    → j < length h
    → (b : List PeerMetric) × (swap h i j ≡ ok b) × Swapped h i j b
unfolding swap
swap-Swapped h i j hi hj =
    let (x, ex) = get_elem?-total h i hi in
    let (y, ey) = get_elem?-total h j hj in
    let b = set h i y in
    let size_b = length-set h i y in
    let inside : j < length b = omega arith in
    let y_at : get_elem? b j ≡ some y = ground (arith, get_elem?-set h i j y) in
    (
      set b j x,
      rw (ex, ey) refl,
      record {
        size = length-set b j x ∙ size_b;
        perm = Perm.cons_inv (Perm.trans (set-trades b j y x y_at) (set-trades h i x y ex));
        metrics = λ c. ground (
          arith,
          metric_at-set b j c x inside,
          metric_at-set h i c y hi,
          metric_at-get_elem? h i x ex,
          metric_at-get_elem? h j y ey,
        );
        others = λ c p q. ground (arith, get_elem?-set b j c x inside, get_elem?-set h i c y hi);
        moved = ground (arith, get_elem?-set b j j x inside);
      },
    )

-- No entry below `n` has a smaller metric than its parent.
abbrev pub IsHeapTo : ℕ → List PeerMetric → Type 0
IsHeapTo n h = (c : ℕ) → 0 < c → c < n → metric_at h (parent c) ≤ metric_at h c

-- `b` is a heap up to `n` of the entries of `h`, with those from `n` on in their places.
pub record Arranged (n : ℕ) (h b : List PeerMetric) : Type 0 where
  pub heap : IsHeapTo n b
  pub size : length b ≡ length h
  pub perm : Perm b h
  pub above : (c : ℕ) → n ≤ c → get_elem? b c ≡ get_elem? h c

abbrev pub Arranges : ℕ → List PeerMetric → Result (List PeerMetric) → Type 0
Arranges n h r = (b : List PeerMetric) × (r ≡ ok b) × Arranged n h b

pub Arranged-refl : (n : ℕ) (h : List PeerMetric) → IsHeapTo n h → Arranged n h h
Arranged-refl n h order = record {
  heap = order;
  size = refl;
  perm = Perm.refl h;
  above = λ c p. refl;
}

-- A swap below `n` before.
pub Arranges-swap :
    (n : ℕ) (h b : List PeerMetric) (i j : ℕ) (r : Result (List PeerMetric))
    → i < n
    → j < n
    → Swapped h i j b
    → Arranges n b r
    → Arranges n h r
Arranges-swap n h b i j r hi hj s (c, e, a) = (
  c,
  e,
  record {
    heap = a.heap;
    size = a.size ∙ s.size;
    perm = Perm.trans a.perm s.perm;
    above = λ k p. a.above k p ∙ s.others k (omega arith) (omega arith);
  },
)

pub less-at :
    (h : List PeerMetric) (i j : ℕ)
    → i < length h
    → j < length h
    → less h i j ≡ ok (ltb (metric_at h i) (metric_at h j))
unfolding less
less-at h i j hi hj =
    let (x, ex) = get_elem?-total h i hi in
    let (y, ey) = get_elem?-total h j hj in
    rw (ex, ey, metric_at-get_elem? h i x ex, metric_at-get_elem? h j y ey) refl

pub metric_at-append :
    (a b : List PeerMetric) (i : ℕ) → i < length a → metric_at (a ++ b) i ≡ metric_at a i
unfolding metric_at
metric_at-append [] b i p = absurd (omega arith)
metric_at-append (y ∷ a) b zero p = refl
metric_at-append (y ∷ a) b (suc i) p = metric_at-append a b i (omega arith)

pub take-snoc {ℓ} :
    {A : Type ℓ} (n : ℕ) (h : List A) (x : A)
    → length h ≡ suc n
    → get_elem? h n ≡ some x
    → take n h ++ x ∷ [] ≡ h
take-snoc zero [] x p e = cc
take-snoc zero (y ∷ []) x p e = ap (λ z. z ∷ []) (sym (some_injective e))
take-snoc zero (y ∷ z ∷ h) x p e = absurd (omega arith)
take-snoc (suc n) [] x p e = absurd (omega arith)
take-snoc (suc n) (y ∷ h) x p e = ap (◌∷◌ y) (take-snoc n h x (omega arith) e)
