-- ===== src/Wire/RoundTrip.antt =====
-- What the readers of Wire.antt make of what its writers wrote.
use native.Mathlib.Nat.{pow-suc}
use holochain.Base.{
  Bytes, ℕ, zero, suc, ◌*◌, ◌/◌, ◌%◌, ◌^◌, ◌≤◌, ◌<◌, ◌≡◌, refl, ap, ◌∙◌, sym, ◌↔◌, [], ◌∷◌, ◌++◌,
  arith, le→ltb, length, length-append, length-take, take, drop, take-append, drop-append,
}
use holochain.Base.Result.{ok}
use holochain.Wire.{read_bytes, put_uint, get_uint, read_uint, write_str, read_str}

-- Enough bytes are split at `n`.
pub read_bytes-enough :
    (n : ℕ) (r : Bytes) → n ≤ length r → read_bytes n r ≡ ok (take n r, drop n r)
unfolding read_bytes
read_bytes-enough zero r h = refl
read_bytes-enough (suc n) [] h = absurd (omega arith)
read_bytes-enough (suc n) (b ∷ r) h = rw (le→ltb (length (b ∷ r)) (suc n) h)

pub read_bytes-append :
    (n : ℕ) (b rest : Bytes) → n ≡ length b → read_bytes n (b ++ rest) ≡ ok (b, rest)
read_bytes-append n b rest h =
    read_bytes-enough n (b ++ rest) (omega (arith, length-append b rest))
    ∙ ground (arith, take-append b rest n h, drop-append b rest n h)

pub length-put_uint : (n x : ℕ) → length (put_uint n x) ≡ n
unfolding put_uint
length-put_uint zero x = refl
length-put_uint (suc n) x = ap suc (length-put_uint n (x / 256))

pub get_uint-put_uint : (n x : ℕ) → x < 256 ^ n → get_uint (put_uint n x) ≡ x
unfolding get_uint put_uint
get_uint-put_uint zero x h = omega arith
get_uint-put_uint (suc n) x h =
    let p : 256 ^ suc n ≡ 256 * 256 ^ n = omega (arith, pow-suc 256 n) in
    omega (arith, get_uint-put_uint n (x / 256) (omega arith))

-- A number that fits its width is read back.
pub read_uint-put_uint :
    (n x : ℕ) (rest : Bytes) → x < 256 ^ n → read_uint n (put_uint n x ++ rest) ≡ ok (x, rest)
unfolding read_uint
read_uint-put_uint n x rest h =
    rw (read_bytes-append n (put_uint n x) rest (sym (length-put_uint n x)))
      (rw (get_uint-put_uint n x h))

-- Whatever the length of a string, reading gives the prefix that its length byte counts.
pub read_str-write_str :
    (s rest : Bytes)
    → read_str (write_str s ++ rest)
      ≡ ok (take (length s % 256) (s ++ rest), drop (length s % 256) (s ++ rest))
unfolding read_str write_str
read_str-write_str s rest =
    rw (read_uint-put_uint 1 (length s % 256) (s ++ rest) (omega arith))
      (read_bytes-enough (length s % 256) (s ++ rest) (omega (arith, length-append s rest)))

-- `readStr` gives back what `writeStr` wrote, and what follows it, exactly if the string is
-- shorter than 256 bytes.
pub read_str-write_str_iff :
    (s rest : Bytes) → (read_str (write_str s ++ rest) ≡ ok (s, rest)) ↔ (length s < 256)
read_str-write_str_iff s rest = (fits, back)
  where
    fits : read_str (write_str s ++ rest) ≡ ok (s, rest) → length s < 256
    fits h =
        let e : take (length s % 256) (s ++ rest) ≡ s =
          ground (arith, read_str-write_str s rest, h) in
        omega (arith, ap length e, length-take (length s % 256) (s ++ rest))

    back : length s < 256 → read_str (write_str s ++ rest) ≡ ok (s, rest)
    back h =
        read_str-write_str s rest
        ∙ ground (
          arith,
          take-append s rest (length s % 256) (omega arith),
          drop-append s rest (length s % 256) (omega arith),
        )
