-- ===== src/Action/Get.antt =====
-- action.go: what a node answers to requests for an entry and for links.
use Prim.Native.Nat.{bit_and, bit_or}
use holochain.Base.{Bytes, ℕ, List, [], ◌∷◌, Option, none, some, ◌==◌, if◌then◌else◌, bytes_equal}
use holochain.Base.Result.{
  Error, Result, ok, err, panic, hash_not_found, hash_modified, gets_the_dna, ◌>>=◌, or_foreign,
}
use holochain.Hash.{Hash}
use holochain.Entry.{dna_entry_type, key_entry_type}
use holochain.Platform.{Content, raw}
use holochain.Kad.Bucket.{PeerId}
use holochain.Dht.Store.{Message, Got, get, get_mask_entry, get_mask_entry_type, effective_mask}
use holochain.Dht.Links.{get_links}
use holochain.Action.{
  Services, Holder, GetResp, closer_peers, got_entry, got_links, Reply, reply, refused, panics,
}
use holochain.Action.Receive.{peer_infos, better_peers_for_hash}

module _ (s : Services) where
  -- The entry of a stored value, if the mask asks for it: the content of a key is its bytes.
  unfoldable pub entry_of : ℕ → Got → Result (Option Content)
  entry_of mask got =
      if bit_and mask get_mask_entry == 0
      then ok none
      else if bytes_equal got.entry_type dna_entry_type
      then err gets_the_dna
      else if bytes_equal got.entry_type key_entry_type
      then ok (some (raw got.data_bytes))
      else (do content ← or_foreign (s.platform.decode got.data_bytes); ok (some content))

  abbrev pub get_resp : ℕ → Got → Bytes → Option Content → GetResp
  get_resp mask got follow_hash entry = record {
    entry = entry;
    entry_type = if bit_and mask get_mask_entry_type == 0 then [] else got.entry_type;
    sources = got.sources;
    follow_hash = follow_hash;
  }

  unfoldable pub answer_entry : ℕ → Got → Result (Option Content) → Reply
  answer_entry mask got (ok entry) = reply (got_entry (get_resp mask got [] entry))
  answer_entry mask got (err e) = refused none e
  answer_entry mask got panic = panics

  -- Closer peers are sent in place of an entry that is not found, the hash to follow with the error
  -- that the entry was modified.
  unfoldable pub answer_unfound : ℕ → Got → Error → Result (List PeerId) → Reply
  answer_unfound mask got hash_modified closest =
      refused (some (got_entry (get_resp mask got got.data_bytes none))) hash_modified
  answer_unfound mask got hash_not_found (ok []) =
      refused (some (got_entry (get_resp mask got [] none))) hash_not_found
  answer_unfound mask got hash_not_found (ok (p ∷ ps)) =
      reply (closer_peers (peer_infos s.has_address (p ∷ ps)))
  answer_unfound mask got hash_not_found _ = panics
  answer_unfound mask got e closest = refused (some (got_entry (get_resp mask got [] none))) e

  abbrev pub nothing : Got
  nothing = record { data_bytes = []; entry_type = []; sources = []; status = 0 }

  unfoldable pub receive_get : Message → Hash → ℕ → ℕ → Holder → Reply
  unfolding get entry_of answer_entry answer_unfound better_peers_for_hash
  receive_get m h status_mask get_mask n =
      let mask = effective_mask get_mask in
      let closest = better_peers_for_hash h m.from n in
      elim (get s.codec h status_mask (bit_or get_mask get_mask_entry_type) n.db) [
        | ok found ↦ elim found.1 [
          | none ↦ answer_entry mask found.0 (entry_of mask found.0)
          | some e ↦ answer_unfound mask found.0 e closest
        ]
        | err e ↦ answer_unfound mask nothing e closest
        | panic ↦ panics
      ]

  unfoldable pub receive_get_links : Hash → Bytes → ℕ → Holder → Reply
  unfolding get_links
  receive_get_links base t status_mask n = elim (get_links s.codec base t status_mask n.db) [
    | ok links ↦ reply (got_links links)
    | err e ↦ refused (some (got_links [])) e
    | panic ↦ panics
  ]
