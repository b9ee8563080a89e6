-- ===== src/Action/System.antt =====
-- action.go: the validation that the system does of each action, and `ValidateAction`.
use holochain.Base.{
  Bytes, List, [], ◌∷◌, Bool, true, false, not, Option, none, some, ◌==◌, if◌then◌else◌, length,
  bytes_equal, codes,
}
use holochain.Base.Map.{Map, lookup}
use holochain.Base.Result.{
  Result, ok, err, panic, foreign, not_valid_for_dna, not_valid_for_agent, not_valid_for_key,
  validation_failed, nil_entry_invalid, invalid_links, cannot_modify_links, cannot_delete_links,
  missing_header, same_replacement, only_links, entry_type_mismatch, ◌>>=◌, ◌>>◌, guard, or_err,
  or_panic,
}
use holochain.Hash.{Hash, hash_string}
use holochain.Header.{Header}
use holochain.Platform.{Content, text, raw}
use holochain.Entry.{
  EntryDef, dna_entry_type, agent_entry_type, key_entry_type, data_format_links, data_format_json,
  is_sys_entry,
}
use holochain.Chain.{Chain, get_entry_header}
use holochain.Kad.Bucket.{PeerId}
use holochain.Zome.{get_entry_def}
use holochain.Action.{
  DelEntry, ValidatingAction, commit_action, put_action, mod_action, del_action, link_action_of,
  Services,
}

abbrev pub is_some {ℓ} : {A : Type ℓ} → Option A → Bool
is_some none = false
is_some (some a) = true

-- `entry.Content().(string)`, which panics if the content is not a string, or the entry is nil.
abbrev pub content_text : Option Content → Result Bytes
content_text (some (text s)) = ok s
content_text _ = panic

abbrev pub as_bytes : Content → Option Bytes
as_bytes (raw b) = some b
as_bytes _ = none

module _ (s : Services) where
  -- A key is 36 bytes that go-libp2p-crypto reads. A nil entry panics.
  unfoldable pub check_key : Option Content → Result (Unit {0})
  check_key entry = do
    content ← or_panic entry
    pk ← or_err (as_bytes content) validation_failed
    _ ← guard (length pk == 36) validation_failed
    guard (is_some (s.keys.unmarshal_public_key pk)) validation_failed

  abbrev pub check_agent_revocation : Option Bytes → Result (Unit {0})
  check_agent_revocation none = ok tt
  check_agent_revocation (some r) = guard (is_some (s.revocation r)) validation_failed

  unfoldable pub check_agent : Option Content → Result (Unit {0})
  check_agent entry = do
    content ← or_panic entry
    ae ← or_err (s.as_agent content) validation_failed
    _ ← guard (is_some (s.keys.unmarshal_public_key ae.public_key)) validation_failed
    check_agent_revocation ae.revocation

  -- The switch on the name of the definition.
  unfoldable pub check_system_type : EntryDef → Option Content → Result (Unit {0})
  unfolding check_key check_agent
  check_system_type def entry =
      if bytes_equal def.name dna_entry_type
      then err not_valid_for_dna
      else if bytes_equal def.name key_entry_type
      then check_key entry
      else if bytes_equal def.name agent_entry_type
      then check_agent entry
      else ok tt

  -- A schema validator is given the JSON that the entry is, or the entry.
  unfoldable pub check_schema : EntryDef → Content → (Content → Bool) → Result (Unit {0})
  check_schema def content validates =
      if bytes_equal def.data_format data_format_json
      then (do
        json ← content_text (some content)
        _ ← guard (s.parses json) foreign
        guard (validates content) foreign)
      else guard (validates content) foreign

  abbrev pub check_hash : Map Bytes → Bytes → Result (Unit {0})
  check_hash link key = do
    h ← or_err (lookup key link) invalid_links
    guard (is_some (s.platform.from_b58 h)) invalid_links

  -- A link has a base and a target that are hashes, and a tag.
  unfoldable pub check_link_map : Map Bytes → Result (Unit {0})
  check_link_map link = do
    _ ← check_hash link (codes "Base")
    _ ← check_hash link (codes "Link")
    guard (is_some (lookup (codes "Tag") link)) invalid_links

  unfoldable pub check_link_maps : List (Map Bytes) → Result (Unit {0})
  unfolding check_link_map
  check_link_maps [] = ok tt
  check_link_maps (l ∷ ls) = check_link_map l >> check_link_maps ls

  unfoldable pub check_links_entry : Content → Result (Unit {0})
  unfolding check_link_maps
  check_links_entry content = do
    json ← content_text (some content)
    links ← or_err (s.link_maps json) invalid_links
    elim links [ [] ↦ err invalid_links | l ∷ ls ↦ check_link_maps (l ∷ ls) ]

  -- `sysValidateEntry`.
  unfoldable pub sys_validate_entry : EntryDef → Option Content → Result (Unit {0})
  unfolding check_system_type check_schema check_links_entry
  sys_validate_entry def entry = do
    _ ← check_system_type def entry
    content ← or_err entry nil_entry_invalid
    elim (s.schema def.name) [
      | some validates ↦ check_schema def content validates
      | none ↦
          if bytes_equal def.data_format data_format_links then check_links_entry content else ok tt
    ]

  unfoldable pub validate_mod : EntryDef → Option Content → Option Header → Hash → Result (Unit {0})
  unfolding sys_validate_entry
  validate_mod def entry header replaces = do
    _ ← guard (not (bytes_equal def.name dna_entry_type)) not_valid_for_dna
    _ ← guard (not (bytes_equal def.data_format data_format_links)) cannot_modify_links
    _ ← or_err entry nil_entry_invalid
    hd ← or_err header missing_header
    _ ←
        guard
          (not (
            bytes_equal (hash_string s.codec.b58 replaces) (hash_string s.codec.b58 hd.entry_link)))
          same_replacement
    sys_validate_entry def entry

  unfoldable pub check_deletable : EntryDef → Result (Unit {0})
  check_deletable def = do
    _ ← guard (not (bytes_equal def.name dna_entry_type)) not_valid_for_dna
    _ ← guard (not (bytes_equal def.name key_entry_type)) not_valid_for_key
    _ ← guard (not (bytes_equal def.name agent_entry_type)) not_valid_for_agent
    guard (not (bytes_equal def.data_format data_format_links)) cannot_delete_links

  -- The header of the deleted entry is looked for in the chain of the node that validates.
  unfoldable pub check_own : Chain → Bytes → DelEntry → Result (Unit {0})
  check_own chain entry_type entry = do
    header ← get_entry_header s.platform entry.hash chain
    guard (bytes_equal header.type entry_type) entry_type_mismatch

  unfoldable pub validate_del : Chain → EntryDef → Bytes → DelEntry → Result (Unit {0})
  unfolding check_deletable check_own
  validate_del chain def entry_type entry = check_deletable def >> check_own chain entry_type entry

  unfoldable pub sys_validation : Chain → EntryDef → ValidatingAction → Result (Unit {0})
  unfolding sys_validate_entry validate_mod validate_del
  sys_validation chain def (commit_action entry) = sys_validate_entry def entry
  sys_validation chain def (put_action entry header) = sys_validate_entry def entry
  sys_validation chain def (mod_action entry header replaces) =
      validate_mod def entry header replaces
  sys_validation chain def (del_action entry_type entry) = validate_del chain def entry_type entry
  sys_validation chain def (link_action_of links base) =
      guard (bytes_equal def.data_format data_format_links) only_links

  unfoldable pub validate_defined :
      Chain → ValidatingAction → List PeerId → EntryDef → Result EntryDef
  unfolding sys_validation
  validate_defined chain a sources def =
      sys_validation chain def a
      >> (if is_sys_entry def then ok tt else s.app_validate a def sources)
      >> ok def

  -- `ValidateAction`: without a definition the system's checks dereference nil. Packages and
  -- ribosomes are part of the application's validation.
  unfoldable pub validate_action : Chain → ValidatingAction → Bytes → List PeerId → Result EntryDef
  unfolding validate_defined
  validate_action chain a entry_type sources =
      get_entry_def entry_type s.zomes >>= or_panic >>= validate_defined chain a sources
