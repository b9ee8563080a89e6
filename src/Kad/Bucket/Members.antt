-- ===== src/Kad/Bucket/Members.antt =====
-- Which peers a bucket holds after each of its operations, and how often.
use holochain.Base.{
  ℕ, suc, ◌+◌, ◌≤◌, ◌<◌, ◌≡◌, refl, ap, inl, inr, [], ◌∷◌, ◌++◌, Bool, true, false, not, ltb,
  if◌then◌else◌, length, bytes_equal, bytes_equal_iff, bytes_equal_refl, arith, Bool-cases,
}
use holochain.Base.Result.{ok}
use holochain.Kad.Bucket.{PeerId, Bucket, has, remove, pop_back, common_prefix_len, split}

-- No peer stands twice in the bucket.
abbrev pub IsDistinct : Bucket → Type 0
IsDistinct [] = Unit {0}
IsDistinct (p ∷ b) = (has p b ≡ false) × IsDistinct b

pub has-append : (q : PeerId) (a b : Bucket) → has q (a ++ b) ≡ (if has q a then true else has q b)
unfolding has
has-append q [] b = refl
has-append q (p ∷ a) b = ground (arith, has-append q a b)

-- `Remove` takes out the peer and no other.
pub has-remove :
    (q p : PeerId) (b : Bucket)
    → IsDistinct b
    → has q (remove p b) ≡ (if bytes_equal p q then false else has q b)
unfolding has remove
has-remove q p [] d = ground arith
has-remove q p (e ∷ b) d = ground (
  arith,
  has-remove q p b d.1,
  bytes_equal_iff e p,
  bytes_equal_iff e q,
  bytes_equal_iff p q,
  d.0,
)

pub remove-IsDistinct : (p : PeerId) (b : Bucket) → IsDistinct b → IsDistinct (remove p b)
unfolding remove
remove-IsDistinct p [] d = tt
remove-IsDistinct p (e ∷ b) d =
    ground (arith, remove-IsDistinct p b d.1, has-remove e p b d.1, bytes_equal_iff e p)

pub length-remove-le : (p : PeerId) (b : Bucket) → length (remove p b) ≤ length b
unfolding remove
length-remove-le p [] = omega arith
length-remove-le p (e ∷ b) = ground (arith, length-remove-le p b)

pub length-remove_member :
    (p : PeerId) (b : Bucket) → has p b ≡ true → suc (length (remove p b)) ≡ length b
unfolding has remove
length-remove_member p [] h = cc
length-remove_member p (e ∷ b) h = ground (arith, length-remove_member p b)

-- A bucket with peers gives up its last one.
pub pop_back-last :
    (b : Bucket)
    → 0 < length b
    → (p : PeerId) × (rest : Bucket) × (pop_back b ≡ ok (p, rest)) × (b ≡ rest ++ p ∷ [])
unfolding pop_back
pop_back-last [] h = absurd (omega arith)
pop_back-last (p ∷ []) h = (p, [], refl, refl)
pop_back-last (p ∷ q ∷ b) h =
    let (l, rest, e, m) = pop_back-last (q ∷ b) (omega arith) in (l, p ∷ rest, rw e, ap (◌∷◌ p) m)

pub IsDistinct-init : (p : PeerId) (b : Bucket) → IsDistinct (b ++ p ∷ []) → IsDistinct b
IsDistinct-init p [] d = tt
IsDistinct-init p (q ∷ b) d =
    (ground (arith, has-append q b (p ∷ []), d.0), IsDistinct-init p b d.1)

-- The peers of a bucket that pass a test, in order.
pub keep_by : (PeerId → Bool) → Bucket → Bucket
keep_by f [] = []
keep_by f (p ∷ b) = if f p then p ∷ keep_by f b else keep_by f b

module _ (f : PeerId → Bool) where
  pub has-keep_by :
      (q : PeerId) (b : Bucket) → has q (keep_by f b) ≡ (if f q then has q b else false)
  unfolding has keep_by
  has-keep_by q [] = ground arith
  has-keep_by q (p ∷ b) = elim (Bool-cases (bytes_equal p q)) [
    | inl e ↦
        let same : p ≡ q = (bytes_equal_iff p q).0 e in
        ground (arith, has-keep_by q b, bytes_equal_refl q, ap f same)
    | inr ne ↦ ground (arith, has-keep_by q b)
  ]

  pub keep_by-IsDistinct : (b : Bucket) → IsDistinct b → IsDistinct (keep_by f b)
  unfolding keep_by
  keep_by-IsDistinct [] d = tt
  keep_by-IsDistinct (p ∷ b) d = ground (arith, keep_by-IsDistinct b d.1, has-keep_by p b, d.0)

pub length-keep_by :
    (f : PeerId → Bool) (b : Bucket)
    → length (keep_by (λ q. not (f q)) b) + length (keep_by f b) ≡ length b
unfolding keep_by
length-keep_by f [] = omega arith
length-keep_by f (p ∷ b) = ground (arith, length-keep_by f b)

-- Where every peer has a common prefix length with the target, `Split` parts a bucket into the
-- peers with a prefix at most `cpl` long and those with a longer one, each in the old order.
pub split-keep_by :
    (cpl : ℕ) (target : PeerId) (f : PeerId → ℕ) (b : Bucket)
    → ((q : PeerId) → has q b ≡ true → common_prefix_len q target ≡ ok (f q))
    → split cpl target b ≡ ok (keep_by (λ q. not (ltb cpl (f q))) b, keep_by (λ q. ltb cpl (f q)) b)
unfolding split has keep_by
split-keep_by cpl target f [] known = refl
split-keep_by cpl target f (p ∷ b) known =
    let first = known p (rw (bytes_equal_refl p)) in
    let rest = split-keep_by cpl target f b (λ q h. known q (ground arith)) in
    rw (first, rest) (ground arith)
