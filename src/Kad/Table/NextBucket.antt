-- ===== src/Kad/Table/NextBucket.antt =====
-- `nextBucket` ends, and leaves a table that satisfies the invariant.
use holochain.Base.{
  ℕ, zero, suc, ◌+◌, ◌-◌, ◌*◌, ◌≤◌, ◌<◌, ◌≡◌, ◌≢◌, refl, subst, bytes_equal_refl, ap, sym, List, [],
  ◌∷◌, ◌++◌, true, Bool-cases, inl, inr, ◌⊎◌, some, ltb, length, get_elem?, set, length-set,
  length-snoc, set-cases, arith, get_elem?-set, get_elem?-snoc,
}
use holochain.Base.Result.{Result, ok}
use holochain.Kad.Bucket.{PeerId, Bucket, has}
use holochain.Kad.Bucket.Members.{IsDistinct, IsDistinct-init, has-append, pop_back-last}
use holochain.Kad.Table.{Table, bucket_id, put_bucket, next_bucket, after_split}
use holochain.Kad.Table.Homes.{shared_bits-le, HasHomes, IsTable, set-HasHomes}
use holochain.Kad.Table.Split.{
  stays, goes, divided, home, split-halves, split-HasHomes, length-divided, halves, divided-fits,
}

-- The state of `nextBucket` when it is called: only the last bucket is too large, by one peer.
pub record IsOver (rt : Table) (last : ℕ) (b : Bucket) : Type 0 where
  pub homes : HasHomes rt.local rt.buckets
  pub end : suc last ≡ length rt.buckets
  pub at : get_elem? rt.buckets last ≡ some b
  pub fits :
      (i : ℕ) (b' : Bucket)
      → i ≢ last
      → get_elem? rt.buckets i ≡ some b'
      → length b' ≤ rt.bucketsize
  pub over : length b ≡ rt.bucketsize + 1

-- What `nextBucket` leaves alone.
pub record SameSetup (rt rt' : Table) : Type 0 where
  pub local : rt'.local ≡ rt.local
  pub bucketsize : rt'.bucketsize ≡ rt.bucketsize
  pub max_latency : rt'.max_latency ≡ rt.max_latency
  pub events : rt'.events ≡ rt.events

some_peer : (b : Bucket) → 0 < length b → (q : PeerId) × (has q b ≡ true)
unfolding has
some_peer [] h = absurd (omega arith)
some_peer (p ∷ b) h = (p, rw (bytes_equal_refl p))

module _ (rt : Table) (last : ℕ) (b : Bucket) (o : IsOver rt last b) where
  -- A peer of the last bucket shares that many bits at least, and an id has no more.
  last-le : last ≤ 8 * length rt.local
  unfolding bucket_id
  last-le =
      let (q, m) = some_peer b (omega (arith, o.over)) in
      let at-home = home rt.local rt.buckets last b o.homes o.end o.at in
      ground (arith, at-home.place q m, shared_bits-le q rt.local (at-home.size q m), o.end)

  abbrev kept : Bucket
  kept = stays rt.local last b

  abbrev moved : Bucket
  moved = goes rt.local last b

  abbrev divided_table : Table
  divided_table = record rt { buckets = divided rt.local rt.buckets last b o.homes o.end o.at }

  parts : length kept + length moved ≤ rt.bucketsize + 1
  parts =
      halves rt.local rt.buckets last b o.homes o.end o.at rt.bucketsize o.fits
        (omega (arith, o.over))

  bucket_sizes :
      (i : ℕ) (b' : Bucket)
      → get_elem? divided_table.buckets i ≡ some b'
      → ((i ≡ suc last) × (b' ≡ moved)) ⊎ (((i ≡ last) × (b' ≡ kept)) ⊎ (length b' ≤ rt.bucketsize))
  bucket_sizes =
      divided-fits rt.local rt.buckets last b o.homes o.end o.at rt.bucketsize o.fits
        (omega (arith, o.over))

  length_table : length divided_table.buckets ≡ suc (suc last)
  length_table = omega (arith, length-divided rt.local rt.buckets last b o.homes o.end o.at, o.end)

  homes_table : HasHomes rt.local divided_table.buckets
  homes_table = split-HasHomes rt.local rt.buckets last b o.homes o.end o.at

  at_end : get_elem? divided_table.buckets (suc last) ≡ some moved
  at_end = ground (
    arith,
    get_elem?-snoc (set rt.buckets last kept) moved (suc last),
    length-set rt.buckets last kept,
    o.end,
  )

  at_last : get_elem? divided_table.buckets last ≡ some kept
  at_last = ground (
    arith,
    get_elem?-snoc (set rt.buckets last kept) moved last,
    get_elem?-set rt.buckets last last kept,
    length-set rt.buckets last kept,
    o.end,
  )

  -- Where the new bucket is too large, it is by one, and the others fit.
  moved-IsOver : rt.bucketsize < length moved → IsOver divided_table (suc last) moved
  moved-IsOver big = record {
    homes = homes_table;
    end = sym length_table;
    at = at_end;
    fits = λ i b' apart e. elim (bucket_sizes i b' e) [
      | inl (j, _) ↦ absurd (apart j)
      | inr (inl (_, same)) ↦ omega (arith, ap length same, parts)
      | inr (inr small) ↦ small
    ];
    over = omega (arith, parts);
  }

  -- Where both halves fit, the table is in order.
  divided-IsTable :
      length moved ≤ rt.bucketsize → length kept ≤ rt.bucketsize → IsTable divided_table
  divided-IsTable sm sk = record {
    homes = homes_table;
    fits = λ i b' e. elim (bucket_sizes i b' e) [
      | inl (_, same) ↦ omega (arith, ap length same)
      | inr (inl (_, same)) ↦ omega (arith, ap length same)
      | inr (inr small) ↦ small
    ];
  }

  -- Where the old half is too large, dropping its last peer puts the table in order.
  popped-IsTable :
      (p : PeerId) (rest : Bucket)
      → kept ≡ rest ++ p ∷ []
      → length moved ≤ rt.bucketsize
      → IsTable (put_bucket last rest divided_table)
  unfolding has
  popped-IsTable p rest e sm =
      let within : last < length divided_table.buckets = omega (arith, length_table) in
      let old = homes_table.homes last kept at_last in
      let inside : (q : PeerId) → has q rest ≡ true → has q kept ≡ true =
        λ q m. rw e (ground (arith, has-append q rest (p ∷ []), m)) in
      record {
        homes =
            set-HasHomes rt.local divided_table.buckets last rest within
              (record {
                distinct = IsDistinct-init p rest (subst IsDistinct e old.distinct);
                size = λ q m. old.size q (inside q m);
                place = λ q m. old.place q (inside q m);
              })
              homes_table;
        fits = λ i b' g. elim (set-cases divided_table.buckets last i rest within g) [
          | inl (_, same) ↦ omega (arith, ap length same, ap length e, length-snoc rest p, parts)
          | inr (apart, there) ↦ elim (bucket_sizes i b' there) [
            | inl (_, same) ↦ omega (arith, ap length same)
            | inr (inl (j, _)) ↦ absurd (apart j)
            | inr (inr small) ↦ small
          ]
        ];
      }

next_bucket-after_split :
    (fuel : ℕ) (rt : Table) (last : ℕ) (b : Bucket) (o : IsOver rt last b)
    → next_bucket (suc fuel) rt
      ≡ after_split (next_bucket fuel) last rt (kept rt last b o, moved rt last b o)
unfolding next_bucket
next_bucket-after_split fuel rt last b o =
    let here : length rt.buckets - 1 ≡ last = omega (arith, o.end) in
    simp (here, o.at, split-halves rt.local rt.buckets last b o.homes o.end o.at)

-- One call of `nextBucket` makes a table of one that is over by a peer.
abbrev pub Restores : Table → Result (PeerId × Table) → Type 0
Restores rt r = (p : PeerId) × (rt' : Table) × (r ≡ ok (p, rt')) × IsTable rt' × SameSetup rt rt'

abbrev same_setup : (rt : Table) (bs : List Bucket) → SameSetup rt (record rt { buckets = bs })
same_setup rt bs = record { local = refl; bucketsize = refl; max_latency = refl; events = refl }

module _ (again : Table → Result (PeerId × Table)) (rt : Table) (last : ℕ) (b : Bucket)
    (o : IsOver rt last b)
    (retry : IsOver (divided_table rt last b o) (suc last) (moved rt last b o)
      → Restores (divided_table rt last b o) (again (divided_table rt last b o))) where
  after_split-Restores :
      Restores rt (after_split again last rt (kept rt last b o, moved rt last b o))
  unfolding after_split
  after_split-Restores = elim (Bool-cases (ltb rt.bucketsize (length (moved rt last b o)))) [
    | inl big ↦
        let (p, rt', e, t, s) = retry (moved-IsOver rt last b o (ground arith)) in
        rw (big, after_split)
          (
            p,
            rt',
            e,
            t,
            record {
              local = s.local;
              bucketsize = s.bucketsize;
              max_latency = s.max_latency;
              events = s.events;
            },
          )
    | inr small ↦ elim (Bool-cases (ltb rt.bucketsize (length (kept rt last b o)))) [
      | inl much ↦
          let (p, rest, e, parts) = pop_back-last (kept rt last b o) (ground arith) in
          rw (small, after_split, much, e)
            (p, _, refl, popped-IsTable rt last b o p rest parts (ground arith), same_setup rt _)
      | inr few ↦
          rw (small, after_split, few)
            (
              [],
              _,
              refl,
              divided-IsTable rt last b o (ground arith) (ground arith),
              same_setup rt _,
            )
    ]
  ]

-- Called when only the last bucket is one peer too large, `nextBucket` returns whenever the rounds
-- plus the index of the last bucket are more than the bits of an id, and the table's invariant
-- holds again.
pub next_bucket-Restores :
    (fuel : ℕ) (rt : Table) (last : ℕ) (b : Bucket)
    → IsOver rt last b
    → 8 * length rt.local < fuel + last
    → Restores rt (next_bucket fuel rt)
next_bucket-Restores zero rt last b o f = absurd (omega (arith, last-le rt last b o))
next_bucket-Restores (suc fuel) rt last b o f = rw (next_bucket-after_split fuel rt last b o) (
    after_split-Restores (next_bucket fuel) rt last b o (λ over.
      next_bucket-Restores fuel (divided_table rt last b o) (suc last) (moved rt last b o) over
        (omega arith)))
