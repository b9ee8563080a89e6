-- ===== src/Header.antt =====
-- header.go: chain headers, their wire form and their hash. A time is its 15 bytes of
-- `time.MarshalBinary`, a signature its bytes.
pub mod RoundTrip
use holochain.Base.{length, ◌%◌, Bytes, [], ◌∷◌, ◌++◌, Option, none, some}
use holochain.Base.Result.{Result, ok, err, ◌>>=◌, or_foreign}
use holochain.Platform.{Platform, Content}
use holochain.Hash.{Hash, null_hash, marshal_hash, unmarshal_hash}
use holochain.Wire.{Reader, read_bytes, read_uint, put_uint, write_str, read_str}
use holochain.Entry.{entry_sum}

pub record StatusChange : Type 0 where
  pub action : Bytes
  pub hash : Hash

pub record Header : Type 0 where
  pub type : Bytes
  pub time : Bytes
  pub header_link : Hash
  pub entry_link : Hash
  pub type_link : Hash
  pub sig : Bytes
  pub change : StatusChange

-- `MarshalHeader`; the last eight bytes are kept for later use.
unfoldable pub marshal_header : Header → Result Bytes
marshal_header hd = do
  hl ← marshal_hash hd.header_link
  el ← marshal_hash hd.entry_link
  tl ← marshal_hash hd.type_link
  ch ← marshal_hash hd.change.hash
  ok (
      write_str hd.type
      ++ (hd.time
          ++ (hl
              ++ (el
                  ++ (tl
                      ++ (write_str hd.sig
                          ++ (write_str hd.change.action ++ (ch ++ put_uint 8 0))))))))

-- The time is kept as its 15 bytes: the code ignores the error of `Time.UnmarshalBinary` on bytes that
-- are no time.
unfoldable pub unmarshal_header : Reader Header
unmarshal_header r = do
  (type, r1) ← read_str r
  (time, r2) ← read_bytes 15 r1
  (header_link, r3) ← unmarshal_hash r2
  (entry_link, r4) ← unmarshal_hash r3
  (type_link, r5) ← unmarshal_hash r4
  (sig, r6) ← read_str r5
  (action, r7) ← read_str r6
  (change_hash, r8) ← unmarshal_hash r7
  (z, r9) ← read_uint 8 r8
  ok (
    record {
      type = type;
      time = time;
      header_link = header_link;
      entry_link = entry_link;
      type_link = type_link;
      sig = sig;
      change = record { action = action; hash = change_hash };
    },
    r9,
  )

-- The change of a header that records none.
abbrev pub change_or_none : Option StatusChange → StatusChange
change_or_none none = record { action = []; hash = null_hash }
change_or_none (some change) = change

module _ (p : Platform) where
  -- `Header.Sum`.
  unfoldable pub header_sum : Header → Result Hash
  header_sum hd = do b ← marshal_header hd; or_foreign (p.sum b)

  unfoldable pub new_header :
      Bytes → Bytes → Content → Hash → Hash → Option StatusChange → Result (Hash × Header)
  new_header now t entry prev prev_type change = do
    entry_link ← entry_sum p entry
    sig ← or_foreign (p.sign entry_link)
    let hd : Header = record {
      type = t;
      time = now;
      header_link = prev;
      entry_link = entry_link;
      type_link = prev_type;
      sig = sig;
      change = change_or_none change;
    }
    hash ← header_sum hd
    ok (hash, hd)

pub record Signature : Type 0 where
  pub s : Bytes

-- `MarshalSignature` and `UnmarshalSignature`: like a string, under a length byte.
unfoldable pub marshal_signature : Signature → Bytes
marshal_signature sig = put_uint 1 (length sig.s % 256) ++ sig.s

unfoldable pub unmarshal_signature : Reader Signature
unmarshal_signature r = do
  (l, r1) ← read_uint 1 r
  (b, r2) ← read_bytes l r1
  ok (record { s = b }, r2)
