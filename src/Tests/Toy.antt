-- ===== src/Tests/Toy.antt =====
-- A platform and a codec that run: the digest is a checksum in the form of a multihash.
use holochain.Base.{
  Bytes, ℕ, ◌+◌, ◌%◌, ◌<◌, ◌≡◌, refl, subst, [], ◌∷◌, true, Option, none, some, some_injective, ltb,
  if◌then◌else◌, length, take, replicate, length-take, ap, arith, ◌*◌,
}
use holochain.Hash.{Hash}
use holochain.Hash.RoundTrip.{IsWireHash}
use holochain.Platform.{Platform, Content, text, raw, other, IsLawful}
use holochain.Dht.Store.{Codec}

abbrev pub checksum : Bytes → ℕ
checksum [] = 7
checksum (b ∷ bs) = (b + 3 * checksum bs) % 251

abbrev pub digest : Bytes → Hash
digest b = 18 ∷ 32 ∷ checksum b ∷ replicate 31 0

abbrev pub encode_text : Content → Option Bytes
encode_text (text s) = if ltb (length s) 1000 then some s else none
encode_text _ = none

abbrev pub toy : Platform
toy = record {
  b58 = λ b. b;
  from_b58 = λ b. some b;
  sum = λ b. some (digest b);
  encode = encode_text;
  decode = λ b. some (text b);
  sign = λ b. some (take 4 b);
}

digest-IsWireHash : (b : Bytes) → IsWireHash (digest b) × (length (digest b) ≡ 34)
digest-IsWireHash b = ((refl, λ e. absurd (omega arith)), refl)

encode_text-decoded :
    (c : Content) (b : Bytes) → encode_text c ≡ some b → (text b ≡ c) × (length b < 1000)
encode_text-decoded (text s) b e = (ground arith, ground arith)
encode_text-decoded (raw s) b e = cc
encode_text-decoded (other n) b e = cc

pub toy-IsLawful : IsLawful toy
toy-IsLawful = record {
  sum-IsWireHash =
      λ b h e. subst (λ h. IsWireHash h × (length h ≡ 34)) (some_injective e) (digest-IsWireHash b);
  from_b58-b58 = λ b h e. refl;
  decode-encode = λ c b e. ap some (encode_text-decoded c b e).0;
  length-encode = λ c b e. omega (arith, (encode_text-decoded c b e).1);
  length-sign = λ b s e. omega (arith, length-take 4 b, ap length (some_injective e));
}

abbrev pub toy_codec : Codec
toy_codec = record { b58 = λ b. b; encodes = λ m. true; fingerprint = λ m. some (m.type ∷ m.time) }
