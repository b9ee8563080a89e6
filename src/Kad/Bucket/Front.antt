-- ===== src/Kad/Bucket/Front.antt =====
-- `MoveToFront` ends and moves the peer to the front, unless the bucket holds the peer twice.
use mathlib.Core.List.{append_assoc, append-nil}
use holochain.Base.{
  ℕ, zero, suc, ◌+◌, ◌*◌, ◌<◌, ◌≡◌, refl, ap, sym, ◌∙◌, [], ◌∷◌, ◌++◌, true, false, Bool-cases, inl,
  inr, length, length-append, length-snoc, bytes_equal, bytes_equal_iff, arith,
}
use holochain.Base.Result.{ok, err, out_of_fuel}
use holochain.Kad.Bucket.{PeerId, Bucket, has, remove, front_loop, move_to_front}
use holochain.Kad.Bucket.Members.{IsDistinct, has-append}

-- Where the peer is not ahead, the loop runs to the end.
front_loop-absent :
    (fuel : ℕ) (id : PeerId) (before rest : Bucket)
    → has id rest ≡ false
    → length rest < fuel
    → front_loop fuel id before rest ≡ ok (before ++ rest)
unfolding front_loop has
front_loop-absent zero id before rest h n = absurd (omega arith)
front_loop-absent (suc fuel) id before [] h n = ap ok (sym (append-nil before))
front_loop-absent (suc fuel) id before (e ∷ rest) h n = elim (Bool-cases (bytes_equal e id)) [
  | inl hit ↦ ground arith
  | inr miss ↦
      rw (miss, front_loop)
        (front_loop-absent fuel id (before ++ e ∷ []) rest (rw miss at h) (omega arith)
          ∙ ap ok (append_assoc before (e ∷ []) rest))
]

-- Where the peer is ahead and nowhere else, it comes to the front.
front_loop-present :
    (fuel : ℕ) (id : PeerId) (before rest : Bucket)
    → has id before ≡ false
    → has id rest ≡ true
    → IsDistinct rest
    → length before + 2 * length rest < fuel
    → front_loop fuel id before rest ≡ ok (id ∷ (before ++ remove id rest))
unfolding front_loop has remove
front_loop-present zero id before rest hb h d n = absurd (omega arith)
front_loop-present (suc fuel) id before [] hb h d n = cc
front_loop-present (suc fuel) id before (e ∷ rest) hb h d n = elim (Bool-cases (bytes_equal e id)) [
  | inl hit ↦
      let same : e ≡ id = (bytes_equal_iff e id).0 hit in
      let gone : has id rest ≡ false = ap (λ x. has x rest) (sym same) ∙ d.0 in
      let apart : has id (before ++ rest) ≡ false =
        ground (arith, has-append id before rest, hb, gone) in
      rw (hit, front_loop, remove)
        (front_loop-absent fuel id (e ∷ []) (before ++ rest) apart
            (omega (arith, length-append before rest))
          ∙ ap (λ x. ok (x ∷ (before ++ rest))) same)
  | inr miss ↦
      let before' : has id (before ++ e ∷ []) ≡ false =
        ground (arith, has-append id before (e ∷ []), hb, miss) in
      rw (miss, front_loop, remove)
        (front_loop-present fuel id (before ++ e ∷ []) rest before' (rw miss at h) d.1
            (omega (arith, length-snoc before e))
          ∙ ap (λ x. ok (id ∷ x)) (append_assoc before (e ∷ []) (remove id rest)))
]

-- `MoveToFront` of a peer in a bucket without repeats returns, with the peer at the front and the
-- other peers in their order.
pub move_to_front-remove :
    (id : PeerId) (b : Bucket)
    → IsDistinct b
    → has id b ≡ true
    → move_to_front id b ≡ ok (id ∷ remove id b)
unfolding move_to_front has
move_to_front-remove id b d h = front_loop-present (2 * length b + 1) id [] b refl h d (omega arith)

-- In a bucket that holds the peer twice the loop goes round for ever, whatever the fuel.
front_loop-repeated :
    (fuel : ℕ) (id : PeerId) (before rest : Bucket)
    → has id rest ≡ true
    → has id (before ++ remove id rest) ≡ true
    → front_loop fuel id before rest ≡ err out_of_fuel
unfolding front_loop has remove
front_loop-repeated zero id before rest h k = refl
front_loop-repeated (suc fuel) id before [] h k = cc
front_loop-repeated (suc fuel) id before (e ∷ rest) h k = elim (Bool-cases (bytes_equal e id)) [
  | inl hit ↦
      rw (hit, front_loop)
        (front_loop-repeated fuel id (e ∷ []) (before ++ rest) (ground arith) (ground arith))
  | inr miss ↦
      let moved : has id ((before ++ e ∷ []) ++ remove id rest) ≡ true =
        rw (append_assoc before (e ∷ []) (remove id rest)) (ground arith) in
      rw (miss, front_loop)
        (front_loop-repeated fuel id (before ++ e ∷ []) rest (rw miss at h) moved)
]

-- On a bucket that holds the peer, and still does without its first occurrence, no number of
-- rounds is enough for the loop of `MoveToFront`.
pub front_loop-diverges :
    (fuel : ℕ) (id : PeerId) (b : Bucket)
    → has id (remove id b) ≡ true
    → has id b ≡ true
    → front_loop fuel id [] b ≡ err out_of_fuel
front_loop-diverges fuel id b k h = front_loop-repeated fuel id [] b h k
