-- ===== src/Platform.antt =====
-- What the modelled files take from other packages, as arguments of the definitions: base 58 and
-- digests (go-multihash), gob encoding (encoding/gob behind `ByteEncoder` of utils.go) and
-- signatures (go-libp2p-crypto). `IsLawful` names what the proofs rely on.
use holochain.Base.{Bytes, ℕ, ◌<◌, ◌^◌, ◌≡◌, Option, some, length}
use holochain.Hash.{Hash}
use holochain.Hash.RoundTrip.{IsWireHash}

-- The content of an entry, an `interface{}` in Go: a string, a byte slice, or some other value with
-- a name.
pub data Content : Type 0 where
  text raw : Bytes → Content
  other : ℕ → Content

-- `h.H, err = mh.Sum(data, hc.Code, hc.Length)` is `sum`, at the hash specification of the chain.
pub record Platform : Type 0 where
  pub b58 : Bytes → Bytes
  pub from_b58 : Bytes → Option Bytes
  pub sum : Bytes → Option Hash
  pub encode : Content → Option Bytes
  pub decode : Bytes → Option Content
  pub sign : Bytes → Option Bytes

-- Digests are multihashes of 34 bytes that base 58 keeps apart, gob decodes what it encodes, and
-- lengths fit the length fields.
pub record IsLawful (p : Platform) : Type 0 where
  pub sum-IsWireHash : (b : Bytes) (h : Hash) → p.sum b ≡ some h → IsWireHash h × (length h ≡ 34)
  pub from_b58-b58 : (b : Bytes) (h : Hash) → p.sum b ≡ some h → p.from_b58 (p.b58 h) ≡ some h
  pub decode-encode : (c : Content) (b : Bytes) → p.encode c ≡ some b → p.decode b ≡ some c
  pub length-encode : (c : Content) (b : Bytes) → p.encode c ≡ some b → length b < 256 ^ 8
  pub length-sign : (b s : Bytes) → p.sign b ≡ some s → length s < 256
