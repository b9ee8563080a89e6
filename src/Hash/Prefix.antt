-- ===== src/Hash/Prefix.antt =====
-- hash/hash.go: the proofs about `ZeroPrefixLen` and the order of distances.
use native.Mathlib.Nat.{pow-suc, one-le-pow, pow-le-pow_right}
use native.Mathlib.Numerals.{towards_suc}
use holochain.Base.{
  Bytes, IsBytes, ℕ, zero, suc, ◌+◌, ◌-◌, ◌*◌, ◌^◌, ◌≤◌, ◌<◌, ◌≡◌, refl, ap, ◌⊎◌, inl, inr, [], ◌∷◌,
  arith, length, Bool, true, ◌&&◌, Option, none, some, ltb, leb, ◌==◌, if◌then◌else◌, false,
}
use holochain.Base.Result.{ok}
use holochain.Hash.{Hash, xor, first_set_bit, zero_prefix_from, zero_prefix_len, hash_xor_distance}
use holochain.Hash.Distance.{
  xor_bytes, value, value-lt, mul_step, xor-eq, hash_xor_distance-value, length-xor_bytes,
  xor_bytes-IsBytes,
}

-- What the inner loop answers for a byte: nothing for 0, else the place of the highest set bit.
abbrev is_high_bit : ℕ → Option ℕ → Bool
is_high_bit b none = b == 0
is_high_bit b (some j) = ltb j 8 && leb (2 ^ (7 - j)) b && ltb b (2 ^ (8 - j))

-- A test at every number below a bound, from the bound down.
tried : (ℕ → Bool) → ℕ → Bool
tried test zero = true
tried test (suc bound) = if test bound then tried test bound else false

tried_everywhere :
    (test : ℕ → Bool) (b bound : ℕ) → b < bound → tried test bound ≡ true → test b ≡ true
unfolding tried
tried_everywhere test b zero below passed = absurd (omega arith)
tried_everywhere test b (suc bound) below passed = ground (arith, tried_everywhere test b bound)

first_set_bit_table : tried (λ b. is_high_bit b (first_set_bit 8 0 b)) 256 ≡ true
unfolding tried first_set_bit
first_set_bit_table = refl

first_set_bit_bounds : (b : ℕ) → b < 256 → is_high_bit b (first_set_bit 8 0 b) ≡ true
first_set_bit_bounds b h =
    tried_everywhere (λ b. is_high_bit b (first_set_bit 8 0 b)) b 256 h first_set_bit_table

-- The number of leading zero bits, by recursion on the bytes.
abbrev or_more : Option ℕ → ℕ → ℕ
or_more none n = n + 8
or_more (some j) n = j

pub zero_bits : Bytes → ℕ
zero_bits [] = 0
zero_bits (b ∷ id) = or_more (first_set_bit 8 0 b) (zero_bits id)

zero_prefix_from-zero_bits : (i : ℕ) (id : Bytes) → zero_prefix_from i id ≡ i * 8 + zero_bits id
unfolding zero_prefix_from zero_bits
zero_prefix_from-zero_bits i [] = omega arith
zero_prefix_from-zero_bits i (b ∷ id) = ground (arith, zero_prefix_from-zero_bits (i + 1) id)

pub zero_prefix_len-zero_bits : (id : Bytes) → zero_prefix_len id ≡ zero_bits id
unfolding zero_prefix_len
zero_prefix_len-zero_bits id = omega (arith, zero_prefix_from-zero_bits 0 id)

-- The bounds that `z` leading zeros put on the number of `n` bytes.
abbrev pub Leads : ℕ → ℕ → ℕ → Type 0
Leads z n v = (v * 2 ^ z < 256 ^ n) × ((v ≡ 0) ⊎ (256 ^ n ≤ v * 2 ^ z * 2))

pow_table :
    tried (λ j. (2 ^ (7 - j) * 2 ^ j * 2 == 256) && (2 ^ (8 - j) == 2 * 2 ^ (7 - j))) 8 ≡ true
unfolding tried
pow_table = refl

pow_split : (j : ℕ) → j < 8 → (2 ^ (7 - j) * 2 ^ j * 2 ≡ 256) × (2 ^ (8 - j) ≡ 2 * 2 ^ (7 - j))
pow_split j h = ground (
  arith,
  tried_everywhere (λ j. (2 ^ (7 - j) * 2 ^ j * 2 == 256) && (2 ^ (8 - j) == 2 * 2 ^ (7 - j))) j 8 h
      pow_table,
)

mul_mono : (x y m : ℕ) → x ≤ y → x * m ≤ y * m
mul_mono x y m h = grind arith

lt_of_mul_lt : (x y t : ℕ) → x * t < y * t → x < y
lt_of_mul_lt x y t h = ground (arith, mul_mono y x t)

-- A byte between `lo` and `2 * lo`, shifted by `t`, fills the top bit of its place.
high_byte :
    (lo t b p v : ℕ)
    → lo * t * 2 ≡ 256
    → lo ≤ b
    → b < 2 * lo
    → v < p
    → ((b * p + v) * t < 256 * p) × (256 * p ≤ (b * p + v) * t * 2)
high_byte lo t b p v e l u h = (top, omega (arith, ap (λ s. s * p) e, low))
  where
    low : lo * p * t ≤ (b * p + v) * t
    low = mul_mono (lo * p) (b * p + v) t (omega (arith, mul_mono lo b p l))

    t_pos : 0 < t
    t_pos = pos t e
      where
        pos : (s : ℕ) → lo * s * 2 ≡ 256 → 0 < s
        pos zero q = absurd (omega arith)
        pos (suc s) q = omega arith

    top : (b * p + v) * t < 256 * p
    top = omega (
      arith,
      ap (λ s. s * p) e,
      mul_mono (b * p + v + 1) (2 * lo * p) t (omega (arith, mul_step b (2 * lo) p u)),
      t_pos,
    )

pow_eight : (z : ℕ) → 2 ^ (z + 8) ≡ 256 * 2 ^ z
pow_eight z = simp towards_suc (omega arith)

Leads-cons :
    (b : ℕ) (o : Option ℕ) (z n v : ℕ)
    → is_high_bit b o ≡ true
    → v < 256 ^ n
    → Leads z n v
    → Leads (or_more o z) (suc n) (b * 256 ^ n + v)
Leads-cons b none z n v h lt l =
    let e : b ≡ 0 = ground arith in
    let t : 2 ^ (z + 8) ≡ 256 * 2 ^ z = pow_eight z in
    rw (e, t, pow-suc 256 n)
      (omega arith, elim l.1 [ inl k ↦ inl (omega arith) | inr k ↦ inr (omega arith) ])
Leads-cons b (some j) z n v h lt l =
    let bounds : (j < 8) × (2 ^ (7 - j) ≤ b) × (b < 2 ^ (8 - j)) = ground arith in
    let s = pow_split j bounds.0 in
    let r = high_byte (2 ^ (7 - j)) (2 ^ j) b (256 ^ n) v s.0 bounds.1 (omega (arith, s.1)) lt in
    rw (pow-suc 256 n) (omega (arith, r), inr (omega (arith, r)))

zero_bits-Leads : (id : Bytes) → IsBytes id → Leads (zero_bits id) (length id) (value id)
unfolding zero_bits
zero_bits-Leads [] p = (omega arith, inl refl)
zero_bits-Leads (b ∷ id) p =
    Leads-cons b (first_set_bit 8 0 b) (zero_bits id) (length id) (value id)
      (first_set_bit_bounds b p.0) (value-lt id p.1) (zero_bits-Leads id p.1)

or_more-le : (o : Option ℕ) (z n : ℕ) → ((j : ℕ) → o ≡ some j → j < 8) → z ≤ n → or_more o z ≤ n + 8
or_more-le none z n h l = omega arith
or_more-le (some j) z n h l = omega (arith, h j refl)

first_set_bit-lt : (b j : ℕ) → first_set_bit 8 0 b ≡ some j → j < 8
unfolding first_set_bit
first_set_bit-lt b j h = ground arith

zero_bits-le : (id : Bytes) → zero_bits id ≤ 8 * length id
unfolding zero_bits
zero_bits-le [] = omega arith
zero_bits-le (b ∷ id) = omega (
  arith,
  or_more-le (first_set_bit 8 0 b) (zero_bits id) (8 * length id) (first_set_bit-lt b)
      (zero_bits-le id),
)

-- `ZeroPrefixLen` is at most eight times the number of bytes.
pub zero_prefix_len-le : (id : Bytes) → zero_prefix_len id ≤ 8 * length id
zero_prefix_len-le id = rw (zero_prefix_len-zero_bits id) (zero_bits-le id)

-- All bits are zero exactly for the number 0.
zero_bits-full : (id : Bytes) → IsBytes id → value id ≡ 0 → zero_bits id ≡ 8 * length id
unfolding zero_bits first_set_bit
zero_bits-full [] p e = omega arith
zero_bits-full (b ∷ id) p e =
    let pos : 1 ≤ 256 ^ length id = one-le-pow (length id) 256 (omega arith) in
    let first : b ≡ 0 = omega (arith, mul_mono 1 (256 ^ length id) b pos) in
    rw first (omega (arith, zero_bits-full id p.1 (omega arith)))

-- Among byte strings of one length, the one with fewer leading zeros is the greater number.
pub value-lt_of_prefix :
    (a b : Bytes)
    → IsBytes a
    → IsBytes b
    → length a ≡ length b
    → zero_bits a < zero_bits b
    → value b < value a
value-lt_of_prefix a b p q h l = elim (zero_bits-Leads a p).1 [
  | inl z ↦ absurd (omega (arith, zero_bits-full a p z, zero_bits-le b))
  | inr big ↦
      let za = zero_bits a in
      let zb = zero_bits b in
      let powers : 2 ^ suc za ≤ 2 ^ zb = pow-le-pow_right (omega arith) l in
      let grown : 2 ^ za * 2 * value a ≤ 2 ^ zb * value a =
        mul_mono (2 ^ za * 2) (2 ^ zb) (value a) (omega (arith, pow-suc 2 za, powers)) in
      let small : value b * 2 ^ zb < 256 ^ length a =
        omega (arith, ap (λ n. 256 ^ n) h, (zero_bits-Leads b q).0) in
      lt_of_mul_lt (value b) (value a) (2 ^ zb) (omega (arith, big, grown, small))
]

-- Of two byte strings of a target's length, the one that shares the longer prefix with the target
-- has the smaller xor distance to it.
pub closer_of_longer_prefix :
    (t p q : Hash) (sp sq : Bytes) (dp dq : ℕ)
    → IsBytes t
    → IsBytes p
    → IsBytes q
    → length p ≡ length t
    → length q ≡ length t
    → xor p t ≡ ok sp
    → xor q t ≡ ok sq
    → zero_prefix_len sq < zero_prefix_len sp
    → hash_xor_distance p t ≡ ok dp
    → hash_xor_distance q t ≡ ok dq
    → dp < dq
closer_of_longer_prefix t p q sp sq dp dq bt bp bq hp hq xp xq l ep eq =
    let vp : dp ≡ value (xor_bytes p t) = ground (arith, hash_xor_distance-value p t hp) in
    let vq : dq ≡ value (xor_bytes q t) = ground (arith, hash_xor_distance-value q t hq) in
    let up : sp ≡ xor_bytes p t = ground (arith, xor-eq p t hp) in
    let uq : sq ≡ xor_bytes q t = ground (arith, xor-eq q t hq) in
    let lp = length-xor_bytes p t hp in
    let lq = length-xor_bytes q t hq in
    let bits : zero_bits (xor_bytes q t) < zero_bits (xor_bytes p t) =
      rw (← uq, ← up, ← zero_prefix_len-zero_bits sq, ← zero_prefix_len-zero_bits sp) l in
    rw (vp, vq)
      (value-lt_of_prefix (xor_bytes q t) (xor_bytes p t) (xor_bytes-IsBytes q t bq bt)
        (xor_bytes-IsBytes p t bp bt) (omega (arith, lp, lq)) bits)
