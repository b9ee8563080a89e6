-- ===== src/Package.antt =====
-- validate.go, and `GetValidationResponse` of action.go: what the source of an entry answers to a
-- node that is to validate it, and how that node reads the chain that may come along.
pub mod EndToEnd
use Prim.Native.Nat.{bit_and}
use holochain.Base.{
  Bytes, ℕ, ◌+◌, List, [], ◌∷◌, Bool, true, false, not, ◌||◌, Option, none, some, ◌==◌,
  if◌then◌else◌, bytes_equal, map,
}
use holochain.Base.Result.{
  Error, Result, ok, err, panic, hash_not_found, not_valid_for_dna, only_links, not_in_protocol,
  unexpected_body, foreign, ◌>>=◌, or_panic, or_foreign, guard,
}
use holochain.Hash.{Hash, hash_string, null_hash}
use holochain.Header.{Header}
use holochain.Platform.{Platform, Content, raw}
use holochain.Entry.{EntryDef, dna_entry_type, agent_entry_type, key_entry_type, data_format_links}
use holochain.Chain.{Chain, get_entry, get_entry_header, validate}
use holochain.Chain.Transfer.{
  flag_no_headers, flag_no_entries, flag_omit_dna, has_flag, marshal_chain, unmarshal_chain,
}
use holochain.Zome.{Zome, get_entry_def, private_entry_defs}
use holochain.Action.{ValidateResponse, Services}
use holochain.Action.Receive.{
  validate_put_request, validate_link_request, validate_del_request, validate_mod_request,
}

abbrev pub pkg_req_chain_opt_headers : ℕ
pkg_req_chain_opt_headers = 1

abbrev pub pkg_req_chain_opt_entries : ℕ
pkg_req_chain_opt_entries = 2

abbrev pub pkg_req_chain_opt_full : ℕ
pkg_req_chain_opt_full = 3

-- `PackagingReq`, a map with at most two keys: the options of the chain and the types of entries.
pub record PackagingReq : Type 0 where
  pub chain : Option ℕ
  pub types : List Bytes

-- The error of `MarshalChain` is dropped: the package is what the buffer holds.
abbrev pub or_partial : Bytes → Result Bytes → Result (Option Bytes)
or_partial partial (ok b) = ok (some b)
or_partial partial (err e) = ok (some partial)
or_partial partial panic = panic

abbrev pub flags_of : ℕ → ℕ
flags_of flags =
    (if bit_and flags pkg_req_chain_opt_headers == 0 then flag_no_headers else 0)
    + (if bit_and flags pkg_req_chain_opt_entries == 0 then flag_no_entries else 0)
    + flag_omit_dna

-- What a source has beside its chain: the ribosome's answer to a request for packaging (an error if
-- no ribosome can be made, none if its function fails), its node's id and its public key, and what a
-- buffer holds after a failed marshalling.
pub record Source : Type 0 where
  pub packaging_request : ℕ → EntryDef → Result (Option PackagingReq)
  pub node_id : Bytes
  pub public_key : Option Bytes
  pub partial : Bytes

abbrev pub empty_req : PackagingReq
empty_req = record { chain = none; types = [] }

abbrev pub agent_req : PackagingReq
agent_req = record { chain = some pkg_req_chain_opt_full; types = agent_entry_type ∷ [] }

-- The header of a response about a key, which has none.
abbrev pub no_header : Header
no_header = record {
  type = [];
  time = [];
  header_link = [];
  entry_link = [];
  type_link = [];
  sig = [];
  change = record { action = []; hash = [] };
}

abbrev pub req_or_empty : Option PackagingReq → PackagingReq
req_or_empty none = empty_req
req_or_empty (some req) = req

module _ (s : Services) (o : Source) (c : Chain) where
  unfoldable pub make_package : PackagingReq → Result (Option Bytes)
  make_package req = elim req.chain [
    | none ↦ ok none
    | some flags ↦ or_partial o.partial (
        marshal_chain s.platform (flags_of flags) req.types
          (map (λ (def : EntryDef). def.name) (private_entry_defs s.zomes)) c)
  ]

  -- `CheckValidationRequest`: only that of a link checks something.
  unfoldable pub check_validation_request : ℕ → EntryDef → Result (Unit {0})
  check_validation_request t def =
      if t == validate_link_request
      then guard (bytes_equal def.data_format data_format_links) only_links
      else ok tt

  -- The package for an entry of a type.
  unfoldable pub package_for : ℕ → Bytes → Result (Option Bytes)
  unfolding make_package check_validation_request
  package_for t entry_type =
      if bytes_equal entry_type dna_entry_type
      then err not_valid_for_dna
      else if bytes_equal entry_type key_entry_type
      then ok none
      else if bytes_equal entry_type agent_entry_type
      then make_package agent_req
      else (do
        found ← get_entry_def entry_type s.zomes
        def ← or_panic found
        _ ← check_validation_request t def
        req ← o.packaging_request t def
        make_package (req_or_empty req))

  -- A hash that is not in the chain may be the node's own id, which stands for its key.
  unfoldable pub key_response : Hash → Result ValidateResponse
  key_response hash =
      if bytes_equal (hash_string s.codec.b58 hash) o.node_id
      then (do
        pk ← or_foreign o.public_key
        ok (record { type = key_entry_type; header = no_header; entry = raw pk }))
      else err hash_not_found

  unfoldable pub chain_response : Hash → Content × Bytes → Result ValidateResponse
  chain_response hash (entry, type) = do
    hd ← get_entry_header s.platform hash c
    ok (record { type = type; header = hd; entry = entry })

  abbrev pub unfound_response : Hash → Error → Result ValidateResponse
  unfound_response hash hash_not_found = key_response hash
  unfound_response hash e = err e

  unfoldable pub entry_response : Hash → Result ValidateResponse
  unfolding key_response chain_response
  entry_response hash = elim (get_entry s.platform hash c) [
    | ok found ↦ chain_response hash found
    | err e ↦ unfound_response hash e
    | panic ↦ panic
  ]

  unfoldable pub get_validation_response : ℕ → Hash → Result (ValidateResponse × Option Bytes)
  unfolding entry_response package_for
  get_validation_response t hash = do
    resp ← entry_response hash
    pkg ← package_for t resp.type
    ok (resp, pkg)

  -- `ValidateReceiver`, with the hash of the query, if the body is one.
  unfoldable pub validate_receiver : ℕ → Option Hash → Result (ValidateResponse × Option Bytes)
  unfolding get_validation_response
  validate_receiver t query =
      if t == validate_put_request
        || t == validate_mod_request
        || t == validate_del_request
        || t == validate_link_request
      then elim query [ none ↦ err unexpected_body | some hash ↦ get_validation_response t hash ]
      else err (not_in_protocol t)

-- `MakeValidationPackage` at a node with a DNA: the content of the first entry is restored and the
-- chain is validated, as far as the flags of the package allow.
abbrev pub restore : Content → List Content → Result (List Content)
restore dna [] = panic
restore dna (e ∷ es) = ok (dna ∷ es)

unfoldable pub make_validation_package :
    Platform → Result Content → Option Bytes → Result (Option Chain)
make_validation_package p dna none = ok none
make_validation_package p dna (some b) = do
  ((flags, c), rest) ← unmarshal_chain p b
  entries ←
      (if has_flag flags flag_no_entries then ok c.entries else dna >>= λ d. restore d c.entries)
  let c' : Chain = record c { entries = entries }
  _ ←
      (if has_flag flags flag_no_headers
        then ok tt
        else validate p (has_flag flags flag_no_entries) c')
  ok (some c')
