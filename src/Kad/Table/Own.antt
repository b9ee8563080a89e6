-- ===== src/Kad/Table/Own.antt =====
-- Replacing the bucket where a peer belongs, as `Update` and `Remove` do.
use holochain.Base.{
  ℕ, ◌≤◌, ◌<◌, ◌≡◌, refl, subst, bytes_equal_refl, bytes_equal_iff, bytes_equal, ◌∷◌, true,
  Bool-cases, inl, inr, ◌⊎◌, some, length, get_elem?, get_elem?-total, arith,
}
use holochain.Base.Result.{Result, ok}
use holochain.Kad.Bucket.{PeerId, Bucket, has, remove}
use holochain.Kad.Bucket.Members.{IsDistinct, has-remove, remove-IsDistinct, length-remove_member}
use holochain.Kad.Table.{Table, bucket_id, put_bucket}
use holochain.Kad.Table.Homes.{shared_bits, IsHome, IsTable, set-HasHomes, set-Fits}

-- The call returns a table in order, with the setup of the old one.
pub record Keeps (rt rt' : Table) : Type 0 where
  pub table : IsTable rt'
  pub local : rt'.local ≡ rt.local
  pub bucketsize : rt'.bucketsize ≡ rt.bucketsize
  pub max_latency : rt'.max_latency ≡ rt.max_latency

abbrev pub Returns : Table → Result Table → Type 0
Returns rt r = (rt' : Table) × (r ≡ ok rt') × Keeps rt rt'

pub bucket_id-lt : (n cpl : ℕ) → 0 < n → bucket_id n cpl < n
unfolding bucket_id
bucket_id-lt n cpl h = ground arith

-- The bucket where a peer belongs.
module _ (rt : Table) (t : IsTable rt) (p : PeerId) (sized : length p ≡ length rt.local) where
  abbrev pub own : ℕ
  own = bucket_id (length rt.buckets) (shared_bits p rt.local)

  pub own-lt : own < length rt.buckets
  own-lt = bucket_id-lt (length rt.buckets) (shared_bits p rt.local) t.homes.nonempty

  abbrev pub Found : Type 0
  Found = (b : Bucket) × (get_elem? rt.buckets own ≡ some b)

  pub found : Found
  found = get_elem?-total rt.buckets own own-lt

  module _ (b : Bucket) (at : get_elem? rt.buckets own ≡ some b) where
    pub home : IsHome rt.local (length rt.buckets) own b
    home = t.homes.homes own b at

    -- Replacing the bucket by one with no peer but `p` and those it had.
    pub replace-IsHome :
        (b' : Bucket)
        → IsDistinct b'
        → ((q : PeerId) → has q b' ≡ true → (p ≡ q) ⊎ (has q b ≡ true))
        → IsHome rt.local (length rt.buckets) own b'
    replace-IsHome b' d from = record {
      distinct = d;
      size = λ q m. elim (from q m) [
        | inl same ↦ subst (λ x. length x ≡ length rt.local) same sized
        | inr old ↦ home.size q old
      ];
      place = λ q m. elim (from q m) [
        | inl same ↦
            subst (λ x. bucket_id (length rt.buckets) (shared_bits x rt.local) ≡ own) same refl
        | inr old ↦ home.place q old
      ];
    }

    pub replace-IsTable :
        (b' : Bucket)
        → IsDistinct b'
        → ((q : PeerId) → has q b' ≡ true → (p ≡ q) ⊎ (has q b ≡ true))
        → length b' ≤ rt.bucketsize
        → IsTable (put_bucket own b' rt)
    replace-IsTable b' d from fit = record {
      homes = set-HasHomes rt.local rt.buckets own b' own-lt (replace-IsHome b' d from) t.homes;
      fits = set-Fits rt.bucketsize rt.buckets own b' own-lt fit t.fits;
    }

    pub pushed_from : (q : PeerId) → has q (p ∷ b) ≡ true → (p ≡ q) ⊎ (has q b ≡ true)
    unfolding has
    pushed_from q m = elim (Bool-cases (bytes_equal p q)) [
      | inl e ↦ inl ((bytes_equal_iff p q).0 e)
      | inr ne ↦ inr (rw ne at m)
    ]

    pub removed_from : (q : PeerId) → has q (remove p b) ≡ true → has q b ≡ true
    removed_from q m = ground (arith, has-remove q p b home.distinct)

    -- The bucket after `MoveToFront`.
    pub moved-IsTable : has p b ≡ true → IsTable (put_bucket own (p ∷ remove p b) rt)
    unfolding has
    moved-IsTable m =
        replace-IsTable (p ∷ remove p b)
          (
            rw (has-remove p p b home.distinct, bytes_equal_refl p) refl,
            remove-IsDistinct p b home.distinct,
          )
          (λ q k. elim (Bool-cases (bytes_equal p q)) [
            | inl e ↦ inl ((bytes_equal_iff p q).0 e)
            | inr ne ↦ inr (removed_from q (rw ne at k))
          ])
          (omega (arith, length-remove_member p b m, t.fits own b at))
