-- ===== src/Action/Commit.antt =====
-- action.go: `doCommit`, and `Do` of commit, mod and del.
pub mod Atomic
use holochain.Base.{
  Bytes, ℕ, zero, suc, List, [], ◌∷◌, ◌++◌, Bool, true, false, Option, none, some, ◌==◌,
  if◌then◌else◌, length, bytes_equal, codes,
}
use holochain.Base.Result.{Error, Result, ok, err, panic, out_of_fuel, or_foreign, ◌>>=◌}
use holochain.Hash.{Hash, null_hash}
use holochain.Header.{Header, StatusChange}
use holochain.Platform.{Content}
use holochain.Entry.{EntryDef, data_format_links, public}
use holochain.Chain.{Chain, prepare_header, add_entry_at}
use holochain.Kad.Bucket.{PeerId}
use holochain.Dht.Store.{Body, put_req, mod_req, del_req, link_req}
use holochain.Action.{
  Link, DelEntry, ValidatingAction, commit_action, mod_action, del_action, Services,
}
use holochain.Action.System.{content_text, validate_action}

-- An action to commit, before and with its header, and what it says of an earlier entry.
pub record Committing : Type 0 where
  pub entry_type : Bytes
  pub entry : Content
  pub with_header : Header → ValidatingAction
  pub change : Option StatusChange

-- What happens around the rounds of a commit: the time of each, and what other commits do to the
-- chain while its lock is free, before and after the validation.
pub record Rivals : Type 0 where
  pub now : ℕ → Bytes
  pub before : ℕ → Chain → Chain
  pub after : ℕ → Chain → Chain

abbrev pub Committed : Type 0
Committed = Result (EntryDef × Header × Hash) × Chain

module _ (s : Services) (self : PeerId) (w : Rivals) (a : Committing) where
  abbrev pub added : EntryDef → Header → Result (Unit {0}) × Chain → Committed
  added d header (ok done, c) = (ok (d, header, header.entry_link), c)
  added d header (err e, c) = (err e, c)
  added d header (panic, c) = (panic, c)

  -- `doCommit` from round `i` on; a round starts over if the chain has grown meanwhile.
  unfoldable pub do_commit : ℕ → ℕ → Chain → Committed
  do_commit zero i c = (err out_of_fuel, c)
  do_commit (suc fuel) i c =
      elim (prepare_header s.platform (w.now i) a.entry_type a.entry a.change c) [
        | ok (l, hash, header) ↦
            elim (validate_action s (w.before i c) (a.with_header header) a.entry_type
              (self ∷ [])) [
                | ok d ↦ elim (length c.headers == length (w.after i (w.before i c)).headers) [
                  | true ↦
                      added d header
                        (add_entry_at s.platform l hash header a.entry (w.after i (w.before i c)))
                  | false ↦ do_commit fuel (suc i) (w.after i (w.before i c))
                ]
                | err e ↦ (err e, w.before i c)
                | panic ↦ (panic, w.before i c)
              ]
        | err e ↦ (err e, c)
        | panic ↦ (panic, c)
      ]

abbrev pub committing : Bytes → Content → Committing
committing entry_type entry = record {
  entry_type = entry_type;
  entry = entry;
  with_header = λ header. commit_action (some entry);
  change = none;
}

abbrev pub modifying : Bytes → Content → Hash → Committing
modifying entry_type entry replaces = record {
  entry_type = entry_type;
  entry = entry;
  with_header = λ header. mod_action (some entry) (some header) replaces;
  change = some (record { action = codes "m"; hash = replaces });
}

-- The entry of a deletion is its gob encoding.
abbrev pub deleting : Bytes → Content → DelEntry → Committing
deleting entry_type entry deletion = record {
  entry_type = entry_type;
  entry = entry;
  with_header = λ header. del_action entry_type deletion;
  change = some (record { action = codes "d"; hash = deletion.hash });
}

-- The requests that `Change` is asked to send. Each base is told once; one that is no hash is sent
-- as the null hash that `NewHash` leaves.
unfoldable pub seen : Bytes → List Bytes → Bool
seen b [] = false
seen b (x ∷ xs) = if bytes_equal x b then true else seen b xs

abbrev pub hash_or_nil : Option Hash → Hash
hash_or_nil none = []
hash_or_nil (some h) = h

module _ (s : Services) where
  unfoldable pub link_requests : Hash → List Link → List Bytes → List (Hash × Body)
  unfolding seen
  link_requests entry_hash [] bases = []
  link_requests entry_hash (l ∷ ls) bases =
      let b = hash_or_nil (s.platform.from_b58 l.base) in
      let rest = link_requests entry_hash ls bases in
      let told = link_requests entry_hash ls (l.base ∷ bases) in
      if seen l.base bases then rest else (b, link_req b entry_hash) ∷ told

  -- What a commit sends: the links of a links entry to their bases, or a public entry to its hash.
  unfoldable pub commit_requests : EntryDef → Content → Hash → Result (List (Hash × Body))
  unfolding link_requests
  commit_requests d entry entry_hash =
      if bytes_equal d.data_format data_format_links
      then (do
        json ← content_text (some entry)
        links ← or_foreign (s.links_entry json)
        ok (link_requests entry_hash links []))
      else if bytes_equal d.sharing public
      then ok ((entry_hash, put_req entry_hash) ∷ [])
      else ok []

  unfoldable pub mod_requests : EntryDef → Hash → Hash → List (Hash × Body)
  mod_requests d replaces entry_hash =
      if bytes_equal d.sharing public
      then (entry_hash, put_req entry_hash) ∷ (replaces, mod_req replaces entry_hash) ∷ []
      else []

  unfoldable pub del_requests : EntryDef → Hash → Hash → List (Hash × Body)
  del_requests d deleted entry_hash =
      if bytes_equal d.sharing public then (deleted, del_req deleted entry_hash) ∷ [] else []
