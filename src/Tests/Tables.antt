-- ===== src/Tests/Tables.antt =====
-- The theorems on buckets and the routing table, with peer ids of one byte.
use holochain.Base.{
  ℕ, ◌≡◌, refl, sym, ap, subst, [], ◌∷◌, true, length, arith, bytes_equal, bytes_equal_iff, ◌⊎◌,
  inl, inr, singleton-cases,
}
use holochain.Base.Result.{ok}
use holochain.Hash.{xor, zero_prefix_len, first_set_bit}
use holochain.Kad.Bucket.{PeerId, has, remove, common_prefix_len}
use holochain.Kad.Bucket.Members.{IsDistinct}
use holochain.Kad.Table.{Table, new_routing_table, next_bucket, update, bucket_id}
use holochain.Kad.Table.Homes.{IsHome, IsTable, new_routing_table-IsTable}
use holochain.Kad.Table.NextBucket.{IsOver, Restores, next_bucket-Restores}
use holochain.Kad.Table.Own.{Returns}
use holochain.Kad.Table.Update.{update-IsTable}

abbrev near : PeerId
near = 3 ∷ []

abbrev middle : PeerId
middle = 2 ∷ []

abbrev far : PeerId
far = 200 ∷ []

abbrev shared : PeerId → ℕ
shared q = elim (common_prefix_len q near) [ ok n ↦ n | _ ↦ 0 ]

has-pair : (q a b : PeerId) → has q (a ∷ b ∷ []) ≡ true → (a ≡ q) ⊎ (b ≡ q)
unfolding has
has-pair q a b h = ground (arith, bytes_equal_iff a q, bytes_equal_iff b q)

shared-pair :
    (q : PeerId) → has q (far ∷ middle ∷ []) ≡ true → common_prefix_len q near ≡ ok (shared q)
unfolding common_prefix_len xor zero_prefix_len first_set_bit
shared-pair q h = elim (has-pair q far middle h) [
  | inl same ↦ subst (λ q. common_prefix_len q near ≡ ok (shared q)) same refl
  | inr same ↦ subst (λ q. common_prefix_len q near ≡ ok (shared q)) same refl
]

pair-IsDistinct : IsDistinct (far ∷ near ∷ [])
unfolding has bytes_equal
pair-IsDistinct = (refl, (refl, tt))

near-has : has near (far ∷ near ∷ []) ≡ true
unfolding has bytes_equal
near-has = refl

twice-has : has near (near ∷ near ∷ []) ≡ true
unfolding has bytes_equal
twice-has = refl

twice-remove : has near (remove near (near ∷ near ∷ [])) ≡ true
unfolding has remove bytes_equal
twice-remove = refl

abbrev empty : Table
empty = new_routing_table 1 near 1000

update-IsTable_example : Returns empty (update (λ q. 5) far empty)
unfolding new_routing_table
update-IsTable_example =
    update-IsTable (λ q. 5) far empty (new_routing_table-IsTable 1 near 1000) refl

-- One bucket with one peer too many.
abbrev crowded : Table
crowded = record {
  local = near;
  max_latency = 1000;
  buckets = (far ∷ middle ∷ []) ∷ [];
  bucketsize = 1;
  events = [];
}

crowded-IsHome : IsHome near 1 0 (far ∷ middle ∷ [])
unfolding has bytes_equal bucket_id
crowded-IsHome = record {
  distinct = (refl, (refl, tt));
  size = λ q h. elim (has-pair q far middle h) [
    | inl same ↦ ap length (sym same)
    | inr same ↦ ap length (sym same)
  ];
  place = λ q h. ground arith;
}

crowded-IsOver : IsOver crowded 0 (far ∷ middle ∷ [])
crowded-IsOver = record {
  homes = record {
    nonempty = omega arith;
    homes = λ i b e.
        let (at, same) = singleton-cases (far ∷ middle ∷ []) i e in rw (at, same) crowded-IsHome;
  };
  end = refl;
  at = refl;
  fits = λ i b apart e. absurd (apart (singleton-cases (far ∷ middle ∷ []) i e).0);
  over = refl;
}

next_bucket-Restores_example : Restores crowded (next_bucket 9 crowded)
next_bucket-Restores_example =
    next_bucket-Restores 9 crowded 0 (far ∷ middle ∷ []) crowded-IsOver (omega arith)

new_routing_table-IsTable_example : IsTable (new_routing_table 20 near 1000)
new_routing_table-IsTable_example = new_routing_table-IsTable 20 near 1000
