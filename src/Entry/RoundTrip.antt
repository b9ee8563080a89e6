-- ===== src/Entry/RoundTrip.antt =====
-- `UnmarshalEntry` after `MarshalEntry`.
use native.Mathlib.Nat.{mod-eq_of_lt}
use mathlib.Core.List.{append_assoc}
use holochain.Base.{Bytes, ◌%◌, ◌^◌, ◌<◌, ◌≡◌, ◌∙◌, refl, ◌++◌, some, length}
use holochain.Base.Result.{ok, ◌>>=◌, or_foreign}
use holochain.Platform.{Platform, Content, IsLawful}
use holochain.Wire.{put_uint}
use holochain.Wire.RoundTrip.{read_bytes-append, read_uint-put_uint}
use holochain.Entry.{marshal_entry, unmarshal_entry}

module _ (p : Platform) where
  read_marshalled :
      (b rest : Bytes)
      → length b < 256 ^ 8
      → unmarshal_entry p ((put_uint 8 (length b % 256 ^ 8) ++ b) ++ rest)
        ≡ (do c ← or_foreign (p.decode b); ok (c, rest))
  unfolding unmarshal_entry
  read_marshalled b rest h = rw (append_assoc (put_uint 8 (length b % 256 ^ 8)) b rest) (
      rw (mod-eq_of_lt h) (
        rw (read_uint-put_uint 8 (length b) (b ++ rest) h)
          (rw (read_bytes-append (length b) b rest refl))))

  -- On a lawful platform an entry that gob encodes is unmarshalled from what `MarshalEntry`
  -- writes, followed by anything.
  pub unmarshal_entry-marshal_entry :
      (laws : IsLawful p) (c : Content) (b rest : Bytes)
      → p.encode c ≡ some b
      → unmarshal_entry p (marshal_entry p c ++ rest) ≡ ok (c, rest)
  unfolding marshal_entry
  unmarshal_entry-marshal_entry laws c b rest e =
      rw e (read_marshalled b rest (laws.length-encode c b e) ∙ rw (laws.decode-encode c b e))
