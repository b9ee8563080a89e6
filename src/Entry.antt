-- ===== src/Entry.antt =====
-- entry.go: entry definitions, and how an entry is summed and put on the wire.
pub mod RoundTrip
use holochain.Base.{
  Bytes, ℕ, ◌%◌, ◌^◌, [], ◌∷◌, ◌++◌, Bool, true, false, ◌&&◌, Option, none, some, ◌==◌, length,
  codes,
}
use holochain.Base.Result.{Result, ok, err, ◌>>=◌, or_foreign}
use holochain.Platform.{Platform, Content}
use holochain.Hash.{Hash}
use holochain.Wire.{Reader, read_bytes, read_uint, put_uint}

abbrev pub sys_entry_type_prefix : Bytes
sys_entry_type_prefix = codes "%"

abbrev pub virtual_entry_type_prefix : Bytes
virtual_entry_type_prefix = codes "%%"

abbrev pub dna_entry_type : Bytes
dna_entry_type = codes "%dna"

abbrev pub agent_entry_type : Bytes
agent_entry_type = codes "%agent"

abbrev pub key_entry_type : Bytes
key_entry_type = codes "%%key"

abbrev pub data_format_links : Bytes
data_format_links = codes "links"

abbrev pub data_format_json : Bytes
data_format_json = codes "json"

abbrev pub public : Bytes
public = codes "public"

abbrev pub private : Bytes
private = codes "private"

-- An entry definition; schemas and validators are a library's.
pub record EntryDef : Type 0 where
  pub name : Bytes
  pub data_format : Bytes
  pub sharing : Bytes

abbrev pub dna_entry_def : EntryDef
dna_entry_def = record { name = dna_entry_type; data_format = codes "_DNA"; sharing = [] }

abbrev pub agent_entry_def : EntryDef
agent_entry_def = record { name = agent_entry_type; data_format = codes "_agent"; sharing = [] }

abbrev pub key_entry_def : EntryDef
key_entry_def = record { name = key_entry_type; data_format = codes "_key"; sharing = [] }

-- `strings.HasPrefix`.
unfoldable pub has_prefix : Bytes → Bytes → Bool
has_prefix s [] = true
has_prefix [] (p ∷ ps) = false
has_prefix (c ∷ s) (p ∷ ps) = c == p && has_prefix s ps

unfoldable pub is_sys_entry : EntryDef → Bool
unfolding has_prefix
is_sys_entry def = has_prefix def.name sys_entry_type_prefix

unfoldable pub is_virtual_entry : EntryDef → Bool
unfolding has_prefix
is_virtual_entry def = has_prefix def.name virtual_entry_type_prefix

-- `MarshalEntry` overwrites the error of `e.Marshal()`: what gob cannot encode is written as nothing.
abbrev pub bytes_or_nil : Option Bytes → Bytes
bytes_or_nil none = []
bytes_or_nil (some b) = b

module _ (p : Platform) where
  unfoldable pub marshal_entry : Content → Bytes
  marshal_entry c = let b = bytes_or_nil (p.encode c) in put_uint 8 (length b % 256 ^ 8) ++ b

  unfoldable pub unmarshal_entry : Reader Content
  unmarshal_entry r = do
    (l, r1) ← read_uint 8 r
    (b, r2) ← read_bytes l r1
    c ← or_foreign (p.decode b)
    ok (c, r2)

  -- `GobEntry.Sum`.
  unfoldable pub entry_sum : Content → Result Hash
  entry_sum c = do m ← or_foreign (p.encode c); or_foreign (p.sum m)
