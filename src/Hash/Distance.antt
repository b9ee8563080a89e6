-- ===== src/Hash/Distance.antt =====
-- hash/hash.go: the proofs about the xor distance as a number.
use Prim.Native.Nat.{bit_xor}
use native.Mathlib.Nat.{pow-suc}
use holochain.Base.{
  Bytes, IsBytes, ℕ, suc, ◌+◌, ◌*◌, ◌^◌, ◌≤◌, ◌<◌, ◌≡◌, refl, ap, ◌∙◌, sym, ◌↔◌, [], ◌∷◌, arith,
  length,
}
use holochain.Base.Bits.{bit_xor_comm, bit_xor_self, bit_xor_cancel, bit_xor-byte}
use holochain.Base.Result.{ok}
use holochain.Hash.{Hash, xor, set_bytes, hash_xor_distance}

-- The bytes of an xor of two strings of one length.
abbrev pub xor_bytes : Bytes → Bytes → Bytes
xor_bytes [] b = []
xor_bytes (x ∷ a) [] = []
xor_bytes (x ∷ a) (y ∷ b) = bit_xor x y ∷ xor_bytes a b

-- The big-endian number that a byte string stands for.
abbrev pub value : Bytes → ℕ
value [] = 0
value (b ∷ bs) = b * 256 ^ length bs + value bs

pub set_bytes-value : (acc : ℕ) (bs : Bytes) → set_bytes acc bs ≡ acc * 256 ^ length bs + value bs
unfolding set_bytes
set_bytes-value acc [] = omega arith
set_bytes-value acc (b ∷ bs) =
    omega
      (arith, set_bytes-value (acc * 256 + b) bs, ap (λ (t : ℕ). acc * t) (pow-suc 256 (length bs)))

pub xor-eq : (a b : Bytes) → length a ≡ length b → xor a b ≡ ok (xor_bytes a b)
unfolding xor
xor-eq [] b h = refl
xor-eq (x ∷ a) [] h = absurd (omega arith)
xor-eq (x ∷ a) (y ∷ b) h = rw (xor-eq a b (omega arith))

pub hash_xor_distance-value :
    (a b : Hash) → length a ≡ length b → hash_xor_distance a b ≡ ok (value (xor_bytes a b))
unfolding hash_xor_distance
hash_xor_distance-value a b h =
    rw (xor-eq a b h) (rw (set_bytes-value 0 (xor_bytes a b)) (ap ok (omega arith)))

pub length-xor_bytes : (a b : Bytes) → length a ≡ length b → length (xor_bytes a b) ≡ length a
length-xor_bytes [] b h = refl
length-xor_bytes (x ∷ a) [] h = absurd (omega arith)
length-xor_bytes (x ∷ a) (y ∷ b) h = ap suc (length-xor_bytes a b (omega arith))

pub xor_bytes-IsBytes : (a b : Bytes) → IsBytes a → IsBytes b → IsBytes (xor_bytes a b)
xor_bytes-IsBytes [] b p q = tt
xor_bytes-IsBytes (x ∷ a) [] p q = tt
xor_bytes-IsBytes (x ∷ a) (y ∷ b) p q = (bit_xor-byte x y p.0 q.0, xor_bytes-IsBytes a b p.1 q.1)

pub value-lt : (a : Bytes) → IsBytes a → value a < 256 ^ length a
value-lt [] p = omega arith
value-lt (x ∷ a) p =
    let e : 256 ^ length (x ∷ a) ≡ 256 * 256 ^ length a = omega (arith, pow-suc 256 (length a)) in
    grind (arith, e, value-lt a p.1)

pub mul_step : (x y m : ℕ) → x < y → x * m + m ≤ y * m
mul_step x y m h = let k : suc x * m ≤ y * m = grind arith in omega (arith, k)

digits_unique : (x y u v m : ℕ) → u < m → v < m → x * m + u ≡ y * m + v → (x ≡ y) × (u ≡ v)
digits_unique x y u v m p q h = ground (arith, mul_step x y m, mul_step y x m)

-- A byte string of known length is determined by its number.
pub value-injective :
    (a b : Bytes) → IsBytes a → IsBytes b → length a ≡ length b → value a ≡ value b → a ≡ b
value-injective [] [] p q h e = refl
value-injective [] (y ∷ b) p q h e = absurd (omega arith)
value-injective (x ∷ a) [] p q h e = absurd (omega arith)
value-injective (x ∷ a) (y ∷ b) p q h e =
    let same : length a ≡ length b = omega arith in
    let bound : value b < 256 ^ length a = rw same (value-lt b q.1) in
    let top : x * 256 ^ length a + value a ≡ y * 256 ^ length a + value b =
      e ∙ ap (λ n. y * 256 ^ n + value b) (sym same) in
    let d = digits_unique x y (value a) (value b) (256 ^ length a) (value-lt a p.1) bound top in
    ground (arith, d, value-injective a b p.1 q.1)

xor_bytes_comm : (a b : Bytes) → length a ≡ length b → xor_bytes a b ≡ xor_bytes b a
xor_bytes_comm [] [] h = refl
xor_bytes_comm [] (y ∷ b) h = absurd (omega arith)
xor_bytes_comm (x ∷ a) [] h = absurd (omega arith)
xor_bytes_comm (x ∷ a) (y ∷ b) h = cc (bit_xor_comm x y, xor_bytes_comm a b (omega arith))

pub xor_bytes_cancel :
    (a b c : Bytes)
    → length a ≡ length b
    → length a ≡ length c
    → xor_bytes a b ≡ xor_bytes a c
    → b ≡ c
xor_bytes_cancel [] [] [] h k e = refl
xor_bytes_cancel [] [] (z ∷ c) h k e = absurd (omega arith)
xor_bytes_cancel [] (y ∷ b) c h k e = absurd (omega arith)
xor_bytes_cancel (x ∷ a) [] c h k e = absurd (omega arith)
xor_bytes_cancel (x ∷ a) (y ∷ b) [] h k e = absurd (omega arith)
xor_bytes_cancel (x ∷ a) (y ∷ b) (z ∷ c) h k e =
    ground (arith, bit_xor_cancel x y z, xor_bytes_cancel a b c)

-- The xor distance of two hashes of one length is symmetric.
pub hash_xor_distance_comm :
    (a b : Hash) → length a ≡ length b → hash_xor_distance a b ≡ hash_xor_distance b a
hash_xor_distance_comm a b h =
    rw (hash_xor_distance-value a b h, hash_xor_distance-value b a (sym h), xor_bytes_comm a b h)

value-xor_self : (a : Bytes) → value (xor_bytes a a) ≡ 0
value-xor_self [] = refl
value-xor_self (x ∷ a) = rw (bit_xor_self x) (omega (arith, value-xor_self a))

module _ (c a b : Hash) (pc : IsBytes c) (pa : IsBytes a) (pb : IsBytes b) (h : length a ≡ length c)
    (k : length b ≡ length c) where
  -- At one center, byte strings of its length with the same xor distance to it are equal.
  pub hash_xor_distance-injective : hash_xor_distance a c ≡ hash_xor_distance b c → a ≡ b
  hash_xor_distance-injective e =
      let va = hash_xor_distance-value a c h in
      let vb = hash_xor_distance-value b c k in
      let same : value (xor_bytes c a) ≡ value (xor_bytes c b) =
        rw (xor_bytes_comm c a (sym h), xor_bytes_comm c b (sym k)) (cc (va, vb, e)) in
      let la = length-xor_bytes c a (sym h) in
      let lb = length-xor_bytes c b (sym k) in
      xor_bytes_cancel c a b (sym h) (sym k) (
        value-injective (xor_bytes c a) (xor_bytes c b) (xor_bytes-IsBytes c a pc pa)
          (xor_bytes-IsBytes c b pc pb) (la ∙ sym lb) same)

-- The xor distance of two byte strings of one length is zero exactly if they are equal.
pub hash_xor_distance-zero_iff :
    (a b : Hash)
    → IsBytes a
    → IsBytes b
    → length a ≡ length b
    → (hash_xor_distance a b ≡ ok 0) ↔ (a ≡ b)
hash_xor_distance-zero_iff a b p q h = (apart, λ e. rw e self)
  where
    self : hash_xor_distance b b ≡ ok 0
    self = hash_xor_distance-value b b refl ∙ ap ok (value-xor_self b)

    apart : hash_xor_distance a b ≡ ok 0 → a ≡ b
    apart e = hash_xor_distance-injective b a b q p q h refl (e ∙ sym self)
