-- ===== src/Action/Links.antt =====
-- action.go: which links entries `sysValidateEntry` accepts.
use holochain.Base.{
  Bytes, List, [], ◌∷◌, true, false, Option, none, some, ◌≡◌, ◌≢◌, ◌↔◌, refl, bytes_equal, codes,
}
use holochain.Base.Map.{Map, lookup}
use holochain.Base.Result.{
  ok, invalid_links, ◌>>=◌, >>=-eq-ok, or_err, or_err-eq-ok, guard, guard-eq-ok,
}
use holochain.Platform.{text}
use holochain.Hash.{Hash}
use holochain.Entry.{EntryDef, dna_entry_type, agent_entry_type, key_entry_type, data_format_links}
use holochain.Action.{Services}
use holochain.Action.System.{
  is_some, check_hash, check_link_map, check_link_maps, check_links_entry, check_system_type,
  sys_validate_entry,
}

is_some-eq-true : {A : Type 0} (o : Option A) → is_some o ≡ true → (a : A) × (o ≡ some a)
is_some-eq-true none h = cc
is_some-eq-true (some a) h = (a, refl)

module _ (s : Services) where
  -- The text under a key is a hash.
  abbrev pub NamesHash : Map Bytes → Bytes → Type 0
  NamesHash l key =
      (b : Bytes) × (h : Hash) × (lookup key l ≡ some b) × (s.platform.from_b58 b ≡ some h)

  abbrev pub IsLink : Map Bytes → Type 0
  IsLink l =
      NamesHash l (codes "Base")
      × NamesHash l (codes "Link")
      × ((tag : Bytes) × (lookup (codes "Tag") l ≡ some tag))

  abbrev pub AreLinks : List (Map Bytes) → Type 0
  AreLinks [] = Unit {0}
  AreLinks (l ∷ ls) = IsLink l × AreLinks ls

  check_hash_iff : (l : Map Bytes) (key : Bytes) → (check_hash s l key ≡ ok tt) ↔ NamesHash l key
  check_hash_iff l key = (
    λ v.
        let (b, p, q) =
          >>=-eq-ok (or_err (lookup key l) invalid_links)
            (λ b. guard (is_some (s.platform.from_b58 b)) invalid_links) v in
        let (h, r) = is_some-eq-true (s.platform.from_b58 b) (guard-eq-ok _ invalid_links q) in
        (b, h, or_err-eq-ok (lookup key l) invalid_links p, r),
    λ (b, h, p, q). rw (p, q) refl,
  )

  check_link_map_iff : (l : Map Bytes) → (check_link_map s l ≡ ok tt) ↔ IsLink l
  unfolding check_link_map
  check_link_map_iff l = (
    λ v.
        let (u, base, v1) =
          >>=-eq-ok (check_hash s l (codes "Base"))
            (λ u. check_hash s l (codes "Link") >>= λ u.
              guard (is_some (lookup (codes "Tag") l)) invalid_links)
            v in
        let (w, link, v2) =
          >>=-eq-ok (check_hash s l (codes "Link"))
            (λ u. guard (is_some (lookup (codes "Tag") l)) invalid_links) v1 in
        (
          (check_hash_iff l (codes "Base")).0 base,
          (check_hash_iff l (codes "Link")).0 link,
          is_some-eq-true (lookup (codes "Tag") l) (guard-eq-ok _ invalid_links v2),
        ),
    λ (base, link, (tag, e)).
        rw ((check_hash_iff l (codes "Base")).1 base, (check_hash_iff l (codes "Link")).1 link, e)
          refl,
  )

  check_link_maps_iff : (ls : List (Map Bytes)) → (check_link_maps s ls ≡ ok tt) ↔ AreLinks ls
  unfolding check_link_maps
  check_link_maps_iff [] = (λ v. tt, λ h. refl)
  check_link_maps_iff (l ∷ ls) = (
    λ v.
        let (u, p, q) = >>=-eq-ok (check_link_map s l) (λ u. check_link_maps s ls) v in
        ((check_link_map_iff l).0 p, (check_link_maps_iff ls).0 q),
    λ (p, q). rw ((check_link_map_iff l).1 p) ((check_link_maps_iff ls).1 q),
  )

  -- An entry definition of links without a schema.
  pub record IsLinksDef (def : EntryDef) : Type 0 where
    pub not_dna : bytes_equal def.name dna_entry_type ≡ false
    pub not_key : bytes_equal def.name key_entry_type ≡ false
    pub not_agent : bytes_equal def.name agent_entry_type ≡ false
    pub format : bytes_equal def.data_format data_format_links ≡ true
    pub no_schema : s.schema def.name ≡ none

  -- For an application's entry type of links without a schema, `sysValidateEntry` accepts a text
  -- that parses exactly if it has a link, and every link has a base and a target that are hashes,
  -- and a tag.
  pub sys_validate_entry-links_iff :
      (def : EntryDef) (json : Bytes) (links : List (Map Bytes))
      → IsLinksDef def
      → s.link_maps json ≡ some links
      → (sys_validate_entry s def (some (text json)) ≡ ok tt) ↔ ((links ≢ []) × AreLinks links)
  unfolding sys_validate_entry check_system_type check_links_entry
  sys_validate_entry-links_iff def json [] d e =
      rw (d.not_dna, d.not_key, d.not_agent, d.no_schema, d.format, e)
        (λ v. cc, λ (some_link, all). absurd (some_link refl))
  sys_validate_entry-links_iff def json (l ∷ ls) d e =
      rw (d.not_dna, d.not_key, d.not_agent, d.no_schema, d.format, e)
        (
          λ v. (λ none. cc, (check_link_maps_iff (l ∷ ls)).0 v),
          λ (some_link, all). (check_link_maps_iff (l ∷ ls)).1 all,
        )
