-- ===== src/Kad/Table/Split.antt =====
-- `Bucket.Split` on the last bucket of a table keeps every peer in its place.
use holochain.Base.{
  ℕ, suc, ◌+◌, ◌≤◌, ◌≡◌, ◌≢◌, List, [], ◌∷◌, ◌++◌, true, not, inl, inr, ◌⊎◌, some, ltb, length,
  get_elem?, set, length-set, length-snoc, set-cases, snoc-cases, get_elem?-bound, arith,
}
use holochain.Base.Result.{ok}
use holochain.Kad.Bucket.{PeerId, Bucket, has, split}
use holochain.Kad.Bucket.Members.{
  keep_by, has-keep_by, keep_by-IsDistinct, length-keep_by, split-keep_by,
}
use holochain.Kad.Table.{bucket_id}
use holochain.Kad.Table.Homes.{shared_bits, common_prefix_len-shared_bits, IsHome, HasHomes}

-- The two halves of a split at `cpl`.
abbrev pub stays : PeerId → ℕ → Bucket → Bucket
stays local cpl b = keep_by (λ q. not (ltb cpl (shared_bits q local))) b

abbrev pub goes : PeerId → ℕ → Bucket → Bucket
goes local cpl b = keep_by (λ q. ltb cpl (shared_bits q local)) b

module _ (local : PeerId) (bs : List Bucket) (last : ℕ) (b : Bucket) (h : HasHomes local bs)
    (end : suc last ≡ length bs) (at : get_elem? bs last ≡ some b) where
  pub home : IsHome local (length bs) last b
  home = h.homes last b at

  pub split-halves : split last local b ≡ ok (stays local last b, goes local last b)
  split-halves =
      split-keep_by last local (λ q. shared_bits q local) b
        (λ q m. common_prefix_len-shared_bits q local (home.size q m))

  goes-IsHome : IsHome local (suc (length bs)) (suc last) (goes local last b)
  unfolding bucket_id
  goes-IsHome = record {
    distinct = keep_by-IsDistinct _ b home.distinct;
    size =
        λ q m. home.size q (ground (arith, has-keep_by (λ q. ltb last (shared_bits q local)) q b));
    place = λ q m. ground (arith, has-keep_by (λ q. ltb last (shared_bits q local)) q b);
  }

  stays-IsHome : IsHome local (suc (length bs)) last (stays local last b)
  unfolding bucket_id
  stays-IsHome = record {
    distinct = keep_by-IsDistinct _ b home.distinct;
    size = λ q m.
        home.size q (ground (arith, has-keep_by (λ q. not (ltb last (shared_bits q local))) q b));
    place = λ q m.
        let inside : has q b ≡ true =
          ground (arith, has-keep_by (λ q. not (ltb last (shared_bits q local))) q b) in
        ground
          (arith, home.place q inside, has-keep_by (λ q. not (ltb last (shared_bits q local))) q b);
  }

  -- A bucket before the last keeps its peers' places when a bucket is added behind.
  earlier-IsHome :
      (i : ℕ) (b' : Bucket)
      → i ≢ last
      → get_elem? bs i ≡ some b'
      → IsHome local (suc (length bs)) i b'
  unfolding bucket_id
  earlier-IsHome i b' apart at' =
      let old = h.homes i b' at' in
      let within = get_elem?-bound bs i at' in
      record {
        distinct = old.distinct;
        size = old.size;
        place = λ q m. ground (arith, old.place q m);
      }

  abbrev pub divided : List Bucket
  divided = set bs last (stays local last b) ++ goes local last b ∷ []

  pub length-divided : length divided ≡ suc (length bs)
  length-divided = omega (
    arith,
    length-snoc (set bs last (stays local last b)) (goes local last b),
    length-set bs last (stays local last b),
  )

  split-IsHome :
      (i : ℕ) (b' : Bucket) → get_elem? divided i ≡ some b' → IsHome local (suc (length bs)) i b'
  split-IsHome i b' e =
      elim (snoc-cases (set bs last (stays local last b)) (goes local last b) i e) [
        | inl (j, new) ↦
            let here : i ≡ suc last = omega (arith, j, length-set bs last (stays local last b)) in
            rw (here, new) goes-IsHome
        | inr old ↦ elim (set-cases bs last i (stays local last b) (omega arith) old) [
          | inl (j, new) ↦ rw (j, new) stays-IsHome
          | inr (apart, there) ↦ earlier-IsHome i b' apart there
        ]
      ]

  -- The split keeps every peer in its place.
  pub split-HasHomes : HasHomes local divided
  split-HasHomes = record {
    nonempty = omega (arith, length-divided);
    homes = λ i b' e. rw length-divided (split-IsHome i b' e);
  }

  -- If no bucket but the last is too large, and that by one, then one half at most is too large.
  module _ (n : ℕ)
      (fits : (i : ℕ) (b' : Bucket) → i ≢ last → get_elem? bs i ≡ some b' → length b' ≤ n)
      (over : length b ≤ n + 1) where
    pub halves : length (stays local last b) + length (goes local last b) ≤ n + 1
    halves = omega (arith, length-keep_by (λ q. ltb last (shared_bits q local)) b, over)

    pub divided-fits :
        (i : ℕ) (b' : Bucket)
        → get_elem? divided i ≡ some b'
        → ((i ≡ suc last) × (b' ≡ goes local last b))
          ⊎ (((i ≡ last) × (b' ≡ stays local last b)) ⊎ (length b' ≤ n))
    divided-fits i b' e =
        elim (snoc-cases (set bs last (stays local last b)) (goes local last b) i e) [
          | inl (j, new) ↦ inl (omega (arith, j, length-set bs last (stays local last b)), new)
          | inr old ↦ elim (set-cases bs last i (stays local last b) (omega arith) old) [
            | inl new ↦ inr (inl new)
            | inr (apart, there) ↦ inr (inr (fits i b' apart there))
          ]
        ]
