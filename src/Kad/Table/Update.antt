-- ===== src/Kad/Table/Update.antt =====
-- `Update` and `Remove` of the routing table return, and keep its invariant.
use holochain.Base.{
  ℕ, suc, ◌-◌, ◌≤◌, ◌<◌, ◌≡◌, refl, subst, ap, sym, ◌∙◌, [], ◌∷◌, ◌++◌, true, false, Bool-cases,
  inl, inr, some, ltb, length, get_elem?, set-set, length-set, length-snoc, set-cases, arith,
  get_elem?-set, ◌==◌,
}
use holochain.Kad.Bucket.{PeerId, Bucket, has, remove}
use holochain.Kad.Bucket.Front.{move_to_front-remove}
use holochain.Kad.Bucket.Members.{
  IsDistinct, IsDistinct-init, has-append, remove-IsDistinct, length-remove-le, pop_back-last,
}
use holochain.Kad.Table.{
  Table, peer_added, peer_removed, notify, put_bucket, shrink, split_fuel, update, remove_peer,
}
use holochain.Kad.Table.Homes.{common_prefix_len-shared_bits, IsTable, set-HasHomes}
use holochain.Kad.Table.NextBucket.{IsOver, next_bucket-Restores}
use holochain.Kad.Table.Own.{
  Returns, own, own-lt, home, replace-IsTable, replace-IsHome, pushed_from, moved-IsTable, found,
  removed_from,
}

-- A new peer at the front, before `Update` looks at the size.
module _ (rt : Table) (t : IsTable rt) (p : PeerId) (sized : length p ≡ length rt.local)
    (b : Bucket) (at : get_elem? rt.buckets (own rt t p sized) ≡ some b)
    (new : has p b ≡ false) where
  abbrev i : ℕ
  i = own rt t p sized

  abbrev pushed : Table
  pushed = notify (peer_added p) (put_bucket i (p ∷ b) rt)

  pushed-IsDistinct : IsDistinct (p ∷ b)
  pushed-IsDistinct = (new, (home rt t p sized b at).distinct)

  fitting : length (p ∷ b) ≤ rt.bucketsize → IsTable pushed
  fitting fit =
      let r =
        replace-IsTable rt t p sized b at (p ∷ b) pushed-IsDistinct (pushed_from rt t p sized b at)
          fit in
      record { homes = r.homes; fits = r.fits }

  over : rt.bucketsize < length (p ∷ b) → suc i ≡ length rt.buckets → IsOver pushed i (p ∷ b)
  over big end = record {
    homes =
        set-HasHomes rt.local rt.buckets i (p ∷ b) (own-lt rt t p sized)
          (replace-IsHome rt t p sized b at (p ∷ b) pushed-IsDistinct
            (pushed_from rt t p sized b at))
          t.homes;
    end = end ∙ sym (length-set rt.buckets i (p ∷ b));
    at = ground (arith, get_elem?-set rt.buckets i i (p ∷ b) (own-lt rt t p sized));
    fits = λ j b' apart e. elim (set-cases rt.buckets i j (p ∷ b) (own-lt rt t p sized) e) [
      | inl (k, _) ↦ absurd (apart k)
      | inr (_, there) ↦ t.fits j b' there
    ];
    over = omega (arith, t.fits i b at);
  }

  -- The least active peer leaves a full bucket that is not the last.
  popped :
      (l : PeerId) (rest : Bucket) → p ∷ b ≡ rest ++ l ∷ [] → IsTable (put_bucket i rest pushed)
  popped l rest e =
      let inside : (q : PeerId) → has q rest ≡ true → has q (p ∷ b) ≡ true =
        λ q m. rw e (ground (arith, has-append q rest (l ∷ []), m)) in
      let r =
        replace-IsTable rt t p sized b at rest
          (IsDistinct-init l rest (subst IsDistinct e pushed-IsDistinct))
          (λ q m. (pushed_from rt t p sized b at) q (inside q m))
          (omega (arith, ap length e, length-snoc rest l, t.fits i b at)) in
      let same = set-set rt.buckets i (p ∷ b) rest in
      record { homes = rw same r.homes; fits = rw same r.fits }

  shrink-Returns : Returns rt (shrink i (p ∷ b) pushed)
  unfolding shrink
  shrink-Returns = elim (Bool-cases (ltb rt.bucketsize (length (p ∷ b)))) [
    | inr small ↦
        rw (small, shrink)
          (
            pushed,
            refl,
            record {
              table = fitting (ground arith);
              local = refl;
              bucketsize = refl;
              max_latency = refl;
            },
          )
    | inl big ↦ elim (Bool-cases (i == length pushed.buckets - 1)) [
      | inl last ↦
          let end : suc i ≡ length rt.buckets =
            ground (arith, length-set rt.buckets i (p ∷ b), (own-lt rt t p sized)) in
          let (l, rt', e, table, s) =
            next_bucket-Restores (split_fuel pushed) pushed i (p ∷ b) (over (ground arith) end)
              (omega arith) in
          rw (big, shrink, last, e)
            (
              notify (peer_removed l) rt',
              refl,
              record {
                table = record { homes = table.homes; fits = table.fits };
                local = s.local;
                bucketsize = s.bucketsize;
                max_latency = s.max_latency;
              },
            )
      | inr inner ↦
          let (l, rest, e, parts) = pop_back-last (p ∷ b) (omega arith) in
          let table = popped l rest parts in
          rw (big, shrink, inner, e)
            (
              notify (peer_removed l) (put_bucket i rest pushed),
              refl,
              record {
                table = record { homes = table.homes; fits = table.fits };
                local = refl;
                bucketsize = refl;
                max_latency = refl;
              },
            )
    ]
  ]

-- `Update` with an id of the table's length returns, and the result is a routing table again:
-- every peer once, in the bucket of its prefix length, no bucket above the bucket size, the setup
-- unchanged.
pub update-IsTable :
    (latency : PeerId → ℕ) (p : PeerId) (rt : Table)
    → IsTable rt
    → length p ≡ length rt.local
    → Returns rt (update latency p rt)
unfolding update
update-IsTable latency p rt t sized =
    let (b, at) = found rt t p sized in
    rw (common_prefix_len-shared_bits p rt.local sized, at)
      (elim (Bool-cases (has p b)) [
        | inl old ↦
            let table = moved-IsTable rt t p sized b at old in
            rw (old, move_to_front-remove p b (home rt t p sized b at).distinct old)
              (
                _,
                refl,
                record { table = table; local = refl; bucketsize = refl; max_latency = refl },
              )
        | inr new ↦ rw new (elim (Bool-cases (ltb rt.max_latency (latency p))) [
          | inl slow ↦
              rw slow (
                rt,
                refl,
                record { table = t; local = refl; bucketsize = refl; max_latency = refl },
              )
          | inr fast ↦ rw fast (shrink-Returns rt t p sized b at new)
        ])
      ])

-- `Remove` of an id of the table's length returns, and the table's invariant and setup are kept.
pub remove_peer-IsTable :
    (p : PeerId) (rt : Table)
    → IsTable rt
    → length p ≡ length rt.local
    → Returns rt (remove_peer p rt)
unfolding remove_peer
remove_peer-IsTable p rt t sized =
    let (b, at) = found rt t p sized in
    let h = home rt t p sized b at in
    let table =
      replace-IsTable rt t p sized b at (remove p b) (remove-IsDistinct p b h.distinct)
        (λ q m. inr (removed_from rt t p sized b at q m))
        (omega (arith, length-remove-le p b, t.fits (own rt t p sized) b at)) in
    rw (common_prefix_len-shared_bits p rt.local sized, at)
      (
        _,
        refl,
        record {
          table = record { homes = table.homes; fits = table.fits };
          local = refl;
          bucketsize = refl;
          max_latency = refl;
        },
      )
