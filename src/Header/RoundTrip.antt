-- ===== src/Header/RoundTrip.antt =====
-- `UnmarshalHeader` after `MarshalHeader`.
use mathlib.Core.List.{append_assoc}
use holochain.Base.{◌%◌, refl, Bytes, ◌<◌, ◌≡◌, sym, ◌++◌, arith, length}
use holochain.Base.Result.{ok, ◌>>=◌}
use holochain.Hash.RoundTrip.{
  IsWireHash, wire_form, marshal_hash-wire_form, unmarshal_hash-wire_form,
}
use holochain.Wire.{write_str, put_uint}
use holochain.Wire.RoundTrip.{read_bytes-append, read_uint-put_uint, read_str-write_str_iff}
use holochain.Header.{
  Header, marshal_header, unmarshal_header, Signature, marshal_signature, unmarshal_signature,
}

-- What fits the header's fields on the wire.
pub record IsWireHeader (hd : Header) : Type 0 where
  pub type : length hd.type < 256
  pub time : length hd.time ≡ 15
  pub header_link : IsWireHash hd.header_link
  pub entry_link : IsWireHash hd.entry_link
  pub type_link : IsWireHash hd.type_link
  pub sig : length hd.sig < 256
  pub action : length hd.change.action < 256
  pub change_hash : IsWireHash hd.change.hash

pub header_form : Header → Bytes
header_form hd =
    write_str hd.type
    ++ (hd.time
        ++ (wire_form hd.header_link
            ++ (wire_form hd.entry_link
                ++ (wire_form hd.type_link
                    ++ (write_str hd.sig
                        ++ (write_str hd.change.action
                            ++ (wire_form hd.change.hash ++ put_uint 8 0)))))))

pub marshal_header-header_form :
    (hd : Header) → IsWireHeader hd → marshal_header hd ≡ ok (header_form hd)
unfolding marshal_header header_form
marshal_header-header_form hd w = rw (
  marshal_hash-wire_form hd.header_link w.header_link,
  marshal_hash-wire_form hd.entry_link w.entry_link,
  marshal_hash-wire_form hd.type_link w.type_link,
  marshal_hash-wire_form hd.change.hash w.change_hash,
)

-- The wire form of a header is read back, whatever follows it.
pub unmarshal_header-header_form :
    (hd : Header) (rest : Bytes)
    → IsWireHeader hd
    → unmarshal_header (header_form hd ++ rest) ≡ ok (hd, rest)
unfolding unmarshal_header header_form
unmarshal_header-header_form hd rest w = simp append_assoc (
    simp (
      λ (r : Bytes). (read_str-write_str_iff hd.type r).1 w.type,
      λ (r : Bytes). read_bytes-append 15 hd.time r (sym w.time),
      λ (r : Bytes). unmarshal_hash-wire_form hd.header_link r w.header_link,
      λ (r : Bytes). unmarshal_hash-wire_form hd.entry_link r w.entry_link,
      λ (r : Bytes). unmarshal_hash-wire_form hd.type_link r w.type_link,
      λ (r : Bytes). (read_str-write_str_iff hd.sig r).1 w.sig,
      λ (r : Bytes). (read_str-write_str_iff hd.change.action r).1 w.action,
      λ (r : Bytes). unmarshal_hash-wire_form hd.change.hash r w.change_hash,
      λ (r : Bytes). read_uint-put_uint 8 0 r (omega arith),
    ))

-- A header whose strings and hashes fit the wire format is marshalled, and unmarshalling the
-- bytes, followed by anything, gives the header back and leaves what follows.
pub unmarshal_header-marshal_header :
    (hd : Header) (rest : Bytes)
    → IsWireHeader hd
    → (do b ← marshal_header hd; unmarshal_header (b ++ rest)) ≡ ok (hd, rest)
unmarshal_header-marshal_header hd rest w =
    rw (marshal_header-header_form hd w) (unmarshal_header-header_form hd rest w)

-- A signature under 256 bytes is read back by `UnmarshalSignature` from what `MarshalSignature`
-- wrote, followed by anything.
pub unmarshal_signature-marshal_signature :
    (sig : Signature) (rest : Bytes)
    → length sig.s < 256
    → unmarshal_signature (marshal_signature sig ++ rest) ≡ ok (sig, rest)
unfolding marshal_signature unmarshal_signature
unmarshal_signature-marshal_signature sig rest h =
    rw (append_assoc (put_uint 1 (length sig.s % 256)) sig.s rest) (
      rw (read_uint-put_uint 1 (length sig.s % 256) (sig.s ++ rest) (omega arith))
        (rw (read_bytes-append (length sig.s % 256) sig.s rest (omega arith)) refl))
