-- ===== src/Wire.antt =====
-- Byte streams: `binary.Read` and `binary.Write` in little-endian order, and the length-prefixed
-- strings of header.go. A reader takes the bytes that are left and returns what it leaves.
pub mod RoundTrip
use holochain.Base.{
  Bytes, ℕ, zero, suc, ◌+◌, ◌*◌, ◌/◌, ◌%◌, [], ◌∷◌, ◌++◌, ltb, if◌then◌else◌, length, take, drop,
}
use holochain.Base.Result.{Result, ok, err, eof, unexpected_eof, ◌>>=◌}

abbrev pub Reader : Type 0 → Type 0
Reader A = Bytes → Result (A × Bytes)

-- `io.ReadFull`: no byte at all is EOF, too few are an unexpected EOF, and nothing is always there.
unfoldable pub read_bytes : ℕ → Reader Bytes
read_bytes zero r = ok ([], r)
read_bytes (suc n) [] = err eof
read_bytes (suc n) (b ∷ r) =
    if ltb (length (b ∷ r)) (suc n)
    then err unexpected_eof
    else ok (take (suc n) (b ∷ r), drop (suc n) (b ∷ r))

-- A number in `n` bytes, lowest first.
unfoldable pub put_uint : ℕ → ℕ → Bytes
put_uint zero x = []
put_uint (suc n) x = x % 256 ∷ put_uint n (x / 256)

unfoldable pub get_uint : Bytes → ℕ
get_uint [] = 0
get_uint (b ∷ bs) = b + 256 * get_uint bs

unfoldable pub read_uint : ℕ → Reader ℕ
unfolding read_bytes get_uint
read_uint n r = do (b, rest) ← read_bytes n r; ok (get_uint b, rest)

-- `writeStr`: the length is cut down to one byte.
unfoldable pub write_str : Bytes → Bytes
unfolding put_uint
write_str str = put_uint 1 (length str % 256) ++ str

-- `readStr`.
unfoldable pub read_str : Reader Bytes
unfolding read_uint
read_str r = do (l, rest) ← read_uint 1 r; read_bytes l rest
