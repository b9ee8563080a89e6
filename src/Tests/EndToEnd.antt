-- ===== src/Tests/EndToEnd.antt =====
-- The theorem from an author's commit to what others get, at the application of Tests/Actions.
use holochain.Base.{Bytes, [], ◌∷◌, ◌≡◌, refl, none, some, codes, replicate, bytes_equal}
use holochain.Base.Map.{lookup}
use holochain.Base.Result.{Result, ok, err, panic, ◌>>=◌}
use holochain.Hash.{Hash, null_hash, marshal_hash}
use holochain.Header.{Header, new_header, header_sum, marshal_header}
use holochain.Platform.{text}
use holochain.Entry.{is_sys_entry, entry_sum}
use holochain.Chain.{Chain, new_chain, add_entry}
use holochain.Chain.Linked.{new_chain-IsLinked}
use holochain.Chain.Lookup.{Found}
use holochain.Zome.{get_entry_def}
use holochain.Dht.Store.{status_default}
use holochain.Action.{put_action, Services, reply, got_entry}
use holochain.Action.System.{validate_action}
use holochain.Action.Receive.{receive_put, validate_put_request}
use holochain.Action.Get.{receive_get}
use holochain.Package.{
  Source, make_package, check_validation_request, package_for, key_response, chain_response,
  entry_response, get_validation_response,
}
use holochain.Package.EndToEnd.{IsAnswered, receive_get-add_entry}
use holochain.Tests.Actions.{services, node, post_def, putting}
use holochain.Tests.Toy.{toy, toy-IsLawful}

abbrev now : Bytes
now = replicate 15 0

abbrev authored : Result Hash × Chain
authored = add_entry toy now (codes "post") (text (codes "hello")) new_chain

abbrev source_node : Source
source_node = record {
  packaging_request = λ t def. ok none;
  node_id = codes "you";
  public_key = none;
  partial = [];
}

-- The network that delivers the author's answers.
abbrev delivering : Services
delivering = record services {
  ask = λ from t h. get_validation_response services source_node authored.1 t h >>= λ r. ok r.0;
}

abbrev hash_of : Result Hash → Hash
hash_of (ok h) = h
hash_of (err e) = null_hash
hash_of panic = null_hash

authored-ok :
    (add_entry delivering.platform now (codes "post") (text (codes "hello")) new_chain).0
    ≡ ok (hash_of authored.0)
unfolding add_entry bytes_equal lookup new_header entry_sum header_sum marshal_header marshal_hash
authored-ok = refl

authored-IsAnswered : IsAnswered delivering source_node (codes "post") post_def authored.1
unfolding bytes_equal get_entry_def make_package
authored-IsAnswered = record {
  not_dna = refl;
  not_key = refl;
  not_agent = refl;
  defined = refl;
  req = none;
  requested = refl;
  pkg = none;
  packed = refl;
}

delivered :
    (hash : Hash)
    → delivering.ask putting.from validate_put_request hash ≡ (
        get_validation_response delivering source_node authored.1 validate_put_request hash >>= λ r.
        ok r.0)
unfolding get_validation_response entry_response key_response chain_response package_for
    make_package check_validation_request
delivered hash = refl

valid :
    (hd : Header)
    → validate_action delivering node.chain
        (put_action (some (text (codes "hello"))) (some hd))
        (codes "post")
        (putting.from ∷ [])
      ≡ ok post_def
unfolding validate_action get_entry_def is_sys_entry bytes_equal
valid hd = refl

receive_get-add_entry_example :
    (hd : Header) × Found delivering.platform authored.1
      (codes "post")
      (text (codes "hello"))
      (hash_of authored.0)
      hd
    × (receive_get delivering putting hd.entry_link status_default 7
          (receive_put delivering putting hd.entry_link node).1
        ≡ reply (
            got_entry (record {
              entry = some (text (codes "hello"));
              entry_type = codes "post";
              sources = codes "you" ∷ [];
              follow_hash = [];
            })))
receive_get-add_entry_example =
    receive_get-add_entry delivering source_node (codes "post") post_def now (text (codes "hello"))
      new_chain (hash_of authored.0) putting putting node (codes "hello")
      (putting.type ∷ putting.time) toy-IsLawful (new_chain-IsLinked toy).aligned authored-ok
      authored-IsAnswered delivered valid refl refl refl
