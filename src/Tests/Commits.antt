-- ===== src/Tests/Commits.antt =====
-- The theorems on commits, gets and bridges, on the application of Tests/Actions.
use holochain.Base.{
  Bytes, ◌≡◌, refl, List, [], ◌∷◌, none, some, inl, codes, arith, bytes_equal, replicate,
  if◌then◌else◌,
}
use holochain.Base.Result.{ok, err, panic, hash_modified, out_of_fuel}
use holochain.Base.Map.{lookup}
use holochain.Hash.{hash_string, marshal_hash}
use holochain.Header.{Header, new_header, header_sum, marshal_header}
use holochain.Platform.{text}
use holochain.Entry.{is_sys_entry, entry_sum}
use holochain.Chain.{new_chain, prepare_header, add_entry_at, previous_hash, previous_of_type}
use holochain.Zome.{Zome, get_entry_def}
use holochain.Zome.Bridges.{AreDistinct}
use holochain.Action.{GetResp}
use holochain.Action.System.{validate_action}
use holochain.Action.Commit.{Committing, Rivals, Committed, committing, do_commit}
use holochain.Action.Commit.Atomic.{IsAppending, AtOnce, do_commit-AtOnce}
use holochain.Action.Follow.{
  GetReq, Queried, found, failed, do_get, asks, IsReplaced, ends, replaced, do_get-Chained,
  do_get-cycle,
}
use holochain.Tests.Actions.{services, post_def, post_header, zome}

abbrev alone : Rivals
alone = record { now = λ i. replicate 15 i; before = λ i c. c; after = λ i c. c }

alone-IsAppending : IsAppending alone
alone-IsAppending = record { before = λ i c. inl refl; after = λ i c. inl refl }

abbrev post : Committing
post = committing (codes "post") (text (codes "hello"))

abbrev outcome : Committed
outcome = do_commit services (codes "me") alone post 1 0 new_chain

abbrev header_of : Committed → Header
header_of (ok (d, header, link), c) = header
header_of (err e, c) = post_header
header_of (panic, c) = post_header

outcome-ok :
    do_commit services (codes "me") alone post 1 0 new_chain
    ≡ (ok (post_def, header_of outcome, (header_of outcome).entry_link), outcome.1)
unfolding do_commit prepare_header validate_action add_entry_at get_entry_def is_sys_entry
    bytes_equal previous_hash previous_of_type lookup new_header entry_sum header_sum marshal_header
    marshal_hash
outcome-ok = refl

do_commit-AtOnce_example :
    AtOnce services
      (codes "me")
      alone
      post
      post_def
      (header_of outcome)
      (header_of outcome).entry_link
      outcome.1
do_commit-AtOnce_example =
    do_commit-AtOnce services (codes "me") alone post post_def (header_of outcome)
      (header_of outcome).entry_link outcome.1 1 0 new_chain alone-IsAppending outcome-ok

abbrev told : Bytes → GetResp
told follow_hash = record { entry = none; entry_type = []; sources = []; follow_hash = follow_hash }

-- "Qa" is modified into "Qb", which is there.
abbrev one_change : GetReq → Queried
one_change req =
    if bytes_equal req.h (codes "Qa")
    then failed (some (told (codes "Qb"))) hash_modified
    else found (told [])

-- "Qa" and "Qb" are modified into each other.
abbrev two_changes : GetReq → Queried
two_changes req =
    if bytes_equal req.h (codes "Qa")
    then failed (some (told (codes "Qb"))) hash_modified
    else failed (some (told (codes "Qa"))) hash_modified

one_change-IsReplaced : IsReplaced services one_change 1 (codes "Qa") (codes "Qb")
unfolding bytes_equal hash_string
one_change-IsReplaced = record {
  resp = told (codes "Qb");
  modified = refl;
  decoded = refl;
  apart = refl;
}

one_change-found : one_change (asks services one_change 1 (codes "Qb")) ≡ found (told [])
unfolding bytes_equal
one_change-found = refl

do_get-Chained_example :
    do_get services one_change 1 3 (asks services one_change 1 (codes "Qa")) ≡ ok (some (told []))
do_get-Chained_example =
    do_get-Chained services one_change 1 1 (codes "Qa") (told []) 2
      (replaced 0 (codes "Qa") (codes "Qb") (told []) one_change-IsReplaced
        (ends (codes "Qb") (told []) one_change-found))
      (omega arith)

there-IsReplaced : IsReplaced services two_changes 1 (codes "Qa") (codes "Qb")
unfolding bytes_equal hash_string
there-IsReplaced = record {
  resp = told (codes "Qb");
  modified = refl;
  decoded = refl;
  apart = refl;
}

back-IsReplaced : IsReplaced services two_changes 1 (codes "Qb") (codes "Qa")
unfolding bytes_equal hash_string
back-IsReplaced = record { resp = told (codes "Qa"); modified = refl; decoded = refl; apart = refl }

do_get-cycle_example :
    do_get services two_changes 1 50 (asks services two_changes 1 (codes "Qa")) ≡ err out_of_fuel
do_get-cycle_example =
    do_get-cycle services two_changes 1 50 (codes "Qa") (codes "Qb") there-IsReplaced
      back-IsReplaced

abbrev two_zomes : List Zome
two_zomes =
    record zome { bridge_funcs = codes "read" ∷ codes "write" ∷ [] }
    ∷ record zome { name = codes "chat"; bridge_funcs = codes "send" ∷ [] }
    ∷ []

two_zomes-AreDistinct : AreDistinct two_zomes
unfolding AreDistinct bytes_equal
two_zomes-AreDistinct = ((refl, tt), (tt, tt))
