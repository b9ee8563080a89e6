-- ===== src/Kad/Table/Homes.antt =====
-- The invariant of the routing table: every peer stands in the bucket that `Update`, `Remove` and
-- `NearestPeers` look for it in, once, and no bucket is too large.
use holochain.Base.{
  ℕ, ◌*◌, ◌≤◌, ◌<◌, ◌≡◌, ap, List, [], ◌∷◌, true, inl, inr, some, length, get_elem?, set,
  length-set, set-cases, singleton-cases, arith,
}
use holochain.Base.Result.{ok}
use holochain.Hash.{zero_prefix_len}
use holochain.Hash.Distance.{xor_bytes, xor-eq, length-xor_bytes}
use holochain.Hash.Prefix.{zero_prefix_len-le}
use holochain.Kad.Bucket.{PeerId, Bucket, has, common_prefix_len}
use holochain.Kad.Bucket.Members.{IsDistinct}
use holochain.Kad.Table.{Table, bucket_id, new_routing_table}

-- The prefix length that two ids of one length share.
pub shared_bits : PeerId → PeerId → ℕ
shared_bits p local = zero_prefix_len (xor_bytes p local)

pub common_prefix_len-shared_bits :
    (p local : PeerId)
    → length p ≡ length local
    → common_prefix_len p local ≡ ok (shared_bits p local)
unfolding common_prefix_len shared_bits
common_prefix_len-shared_bits p local h = rw (xor-eq p local h)

pub shared_bits-le :
    (p local : PeerId) → length p ≡ length local → shared_bits p local ≤ 8 * length local
unfolding shared_bits
shared_bits-le p local h =
    omega (arith, zero_prefix_len-le (xor_bytes p local), length-xor_bytes p local h)

-- Bucket `i` of `n` holds peers whose place it is, each once.
pub record IsHome (local : PeerId) (n i : ℕ) (b : Bucket) : Type 0 where
  pub distinct : IsDistinct b
  pub size : (q : PeerId) → has q b ≡ true → length q ≡ length local
  pub place : (q : PeerId) → has q b ≡ true → bucket_id n (shared_bits q local) ≡ i

pub record HasHomes (local : PeerId) (bs : List Bucket) : Type 0 where
  pub nonempty : 0 < length bs
  pub homes : (i : ℕ) (b : Bucket) → get_elem? bs i ≡ some b → IsHome local (length bs) i b

abbrev pub Fits : ℕ → List Bucket → Type 0
Fits bucketsize bs = (i : ℕ) (b : Bucket) → get_elem? bs i ≡ some b → length b ≤ bucketsize

pub record IsTable (rt : Table) : Type 0 where
  pub homes : HasHomes rt.local rt.buckets
  pub fits : Fits rt.bucketsize rt.buckets

pub new_routing_table-IsTable :
    (bucketsize : ℕ) (local : PeerId) (latency : ℕ)
    → IsTable (new_routing_table bucketsize local latency)
unfolding new_routing_table has bucket_id
new_routing_table-IsTable bucketsize local latency = record {
  homes = record { nonempty = omega arith; homes = only };
  fits = empty;
}
  where
    only : (i : ℕ) (b : Bucket) → get_elem? ([] ∷ []) i ≡ some b → IsHome local 1 i b
    only i b e =
        let (at, same) = singleton-cases [] i e in
        rw (at, same) (record { distinct = tt; size = λ q h. cc; place = λ q h. cc })

    empty : (i : ℕ) (b : Bucket) → get_elem? ([] ∷ []) i ≡ some b → length b ≤ bucketsize
    empty i b e = omega (arith, ap length (singleton-cases [] i e).1)

-- Replacing one bucket.
pub set-HasHomes :
    (local : PeerId) (bs : List Bucket) (i : ℕ) (b : Bucket)
    → i < length bs
    → IsHome local (length bs) i b
    → HasHomes local bs
    → HasHomes local (set bs i b)
set-HasHomes local bs i b h new old = record {
  nonempty = omega (arith, length-set bs i b, old.nonempty);
  homes = λ j b' e. rw (length-set bs i b) (elim (set-cases bs i j b h e) [
    | inl (at, same) ↦ rw (at, same) new
    | inr (_, there) ↦ old.homes j b' there
  ]);
}

pub set-Fits :
    (n : ℕ) (bs : List Bucket) (i : ℕ) (b : Bucket)
    → i < length bs
    → length b ≤ n
    → Fits n bs
    → Fits n (set bs i b)
set-Fits n bs i b h new old j b' e = elim (set-cases bs i j b h e) [
  | inl (_, same) ↦ rw same new
  | inr (_, there) ↦ old j b' there
]
