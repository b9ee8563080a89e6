-- ===== src/Tests/Actions.antt =====
-- The theorems on actions, on a node without peers whose application has one zome.
use holochain.Base.{
  Bytes, ◌≤◌, ap, ◌≡◌, ◌≢◌, ◌↔◌, refl, List, [], ◌∷◌, true, false, none, some, codes, arith,
  bytes_equal, take, bytes_equal_refl,
}
use holochain.Base.Map.{Map, lookup}
use holochain.Base.Result.{ok, err, validation_failed, hash_not_found, hash_rejected}
use holochain.Hash.{hash_string}
use holochain.Header.{Header}
use holochain.Platform.{text}
use holochain.Entry.{EntryDef, is_sys_entry}
use holochain.Chain.{new_chain}
use holochain.Kad.Table.{new_routing_table}
use holochain.Dht.Store.{Message, put_req, mod_req, empty_db, exists, status_default, no_more}
use holochain.Zome.{Zome, get_entry_def}
use holochain.Warrant.{Keys, SelfRevocation, new_self_revocation, verify_revocation}
use holochain.Warrant.RoundTrip.{IsKey, verify_revocation-new}
use holochain.Action.{DelEntry, ValidateResponse, Services, Holder, refused, got_entry}
use holochain.Action.{put_action}
use holochain.Action.System.{validate_action, sys_validate_entry}
use holochain.Action.Messages.{make_action_from_message, blocked_list, action_receiver, retry_task}
use holochain.Dht.Fates.{fate}
use holochain.Action.Messages.Lives.{Lives}
use holochain.Dht.Gossip.Exchange.{PeerRecord, add_to_list}
use holochain.Action.Links.{AreLinks, IsLinksDef, sys_validate_entry-links_iff}
use holochain.Action.Receive.{receive_put, receive_del}
use holochain.Action.Receive.Handlers.{receive_del-elsewhere}
use holochain.Action.Messages.Early.{action_receiver-early}
use holochain.Action.Get.{receive_get, get_resp}
use holochain.Action.Stored.{receive_get-rejected}
use holochain.Action.Messages.Runs.{
  Runs, idle, onward, receives, retries, handled, Runs-IsIndexed, Runs-Lives,
}
use holochain.Action.Messages.Retries.{tries, retry_tasks, retry_tasks-drain}
use holochain.Dht.Gossip.Index.{IsIndexed}
use holochain.Tests.Toy.{toy, toy_codec}

abbrev toy_keys : Keys
toy_keys = record {
  marshal_public_key = λ b. some b;
  unmarshal_public_key = λ b. some b;
  verify = λ key body sig. some (bytes_equal sig (take 4 key));
  sign = λ key body. some (take 4 key);
  id_from_public_key = λ key. some key;
}

abbrev pub post_def : EntryDef
post_def = record { name = codes "post"; data_format = codes "string"; sharing = codes "public" }

abbrev rating_def : EntryDef
rating_def = record { name = codes "rating"; data_format = codes "links"; sharing = codes "public" }

abbrev pub zome : Zome
zome = record {
  name = codes "blog";
  entries = post_def ∷ rating_def ∷ [];
  functions = [];
  bridge_funcs = [];
}

abbrev pub post_header : Header
post_header = record {
  type = codes "post";
  time = [];
  header_link = [];
  entry_link = codes "Qp";
  type_link = [];
  sig = [];
  change = record { action = []; hash = [] };
}

abbrev answered : ValidateResponse
answered = record { type = codes "post"; header = post_header; entry = text (codes "hello") }

abbrev del_of_post : DelEntry
del_of_post = record { hash = codes "Qp"; message = [] }

abbrev two_links : List (Map Bytes)
two_links =
    ((codes "Base", codes "Qa") ∷ (codes "Link", codes "Qb") ∷ (codes "Tag", codes "t") ∷ [])
    ∷ ((codes "Base", codes "Qa") ∷ (codes "Tag", codes "t") ∷ [])
    ∷ []

abbrev pub services : Services
services = record {
  platform = toy;
  codec = toy_codec;
  keys = toy_keys;
  zomes = zome ∷ [];
  schema = λ name. none;
  parses = λ b. true;
  link_maps = λ b. some two_links;
  links_entry = λ b. some [];
  revocation = λ b. none;
  del_entry = λ b. some del_of_post;
  as_agent = λ c. none;
  decode_peer = λ b. some b;
  has_address = λ p. true;
  app_validate = λ a def sources. ok tt;
  app_receive = λ z from b. ok b;
  ask = λ from t h. ok answered;
}

abbrev strict : Services
strict = record services { app_validate = λ a def sources. err validation_failed }

abbrev pub node : Holder
node = record {
  self = codes "me";
  db = empty_db;
  chain = new_chain;
  table = new_routing_table 10 (codes "me") 0;
  retries = [];
  blocked = [];
}

abbrev pub putting : Message
putting = record { type = 2; time = codes "t1"; from = codes "you"; body = put_req (codes "Qp") }

abbrev modifying : Message
modifying = record {
  type = 4;
  time = codes "t2";
  from = codes "you";
  body = mod_req (codes "Qp") (codes "Qq");
}

-- The node after the put, after a modification of a hash that it does not know, and after a retry.
abbrev second : Holder
second = (action_receiver services putting 10 node).1

abbrev third : Holder
third = (action_receiver services modifying 10 second).1

abbrev fourth : Holder
fourth = retry_task services third

three_steps : Runs services node fourth
three_steps =
    onward node third fourth
      (onward node second third (onward node node second (idle node) (receives putting 10 node))
        (receives modifying 10 second))
      (retries third)

Runs-IsIndexed_example : IsIndexed services.codec fourth.db
Runs-IsIndexed_example = Runs-IsIndexed services node fourth three_steps refl

abbrev waiting_node : Holder
waiting_node = record node { retries = (modifying, 2) ∷ (modifying, 0) ∷ [] }

four_tries : tries waiting_node.retries ≤ 4
unfolding tries
four_tries = omega arith

retry_tasks-drain_example : (retry_tasks services 4 waiting_node).retries ≡ []
retry_tasks-drain_example = retry_tasks-drain services 4 waiting_node four_tries

nothing_own : lookup (hash_string services.platform.b58 del_of_post.hash) second.chain.emap ≡ none
unfolding action_receiver lookup
nothing_own = refl

receive_del-elsewhere_example :
    (receive_del services modifying (codes "Qp") (codes "Qd") 10 second).1.db ≡ second.db
receive_del-elsewhere_example =
    receive_del-elsewhere services modifying (codes "Qp") (codes "Qd") 10 second answered
      (codes "hello") del_of_post refl refl refl nothing_own

not_known : exists services.codec (codes "Qp") status_default node.db ≡ ok (some hash_not_found)
unfolding exists lookup
not_known = refl

is_put : make_action_from_message putting ≡ ok (put_req (codes "Qp"))
unfolding make_action_from_message
is_put = refl

is_modification : make_action_from_message modifying ≡ ok (mod_req (codes "Qp") (codes "Qq"))
unfolding make_action_from_message
is_modification = refl

action_receiver-early_example :
    retry_task services
      (action_receiver services putting 10 (action_receiver services modifying 10 node).1).1
    ≡ (action_receiver services modifying 9 (action_receiver services putting 10 node).1).1
action_receiver-early_example =
    action_receiver-early services modifying putting (mod_req (codes "Qp") (codes "Qq"))
      (codes "Qp") (codes "Qp") 9 10 node is_modification refl not_known is_put refl

valid :
    validate_action services node.chain
      (put_action (some answered.entry) (some answered.header))
      answered.type
      (putting.from ∷ [])
    ≡ ok post_def
unfolding validate_action bytes_equal get_entry_def is_sys_entry
valid = refl

invalid :
    validate_action strict node.chain
      (put_action (some answered.entry) (some answered.header))
      answered.type
      (putting.from ∷ [])
    ≡ err validation_failed
unfolding validate_action bytes_equal get_entry_def is_sys_entry
invalid = refl

not_dna : bytes_equal (codes "post") (codes "%dna") ≡ false
unfolding bytes_equal
not_dna = refl

not_key : bytes_equal (codes "post") (codes "%%key") ≡ false
unfolding bytes_equal
not_key = refl

receive_get-rejected_example :
    receive_get strict modifying
      (codes "Qp")
      status_default
      7
      (receive_put strict putting (codes "Qp") node).1
    ≡ refused (some (got_entry (get_resp strict 7 (no_more (codes "hello")) [] none))) hash_rejected
receive_get-rejected_example =
    receive_get-rejected strict putting modifying (codes "Qp") node answered (codes "hello") refl
      refl refl refl invalid

rating-IsLinksDef : IsLinksDef services rating_def
unfolding bytes_equal
rating-IsLinksDef = record {
  not_dna = refl;
  not_key = refl;
  not_agent = refl;
  format = refl;
  no_schema = refl;
}

sys_validate_entry-links_iff_example :
    (sys_validate_entry services rating_def (some (text (codes "{}"))) ≡ ok tt)
    ↔ ((two_links ≢ []) × AreLinks services two_links)
sys_validate_entry-links_iff_example =
    sys_validate_entry-links_iff services rating_def (codes "{}") two_links rating-IsLinksDef refl

abbrev bad_peers : List PeerRecord
bad_peers = record { id = codes "bad"; warrant = [] } ∷ []

bad_peers-added :
    (add_to_list services.codec (some putting) blocked_list bad_peers node.db).0 ≡ ok tt
unfolding add_to_list
bad_peers-added = refl

old-IsKey : IsKey toy_keys (codes "oldk") (codes "oldk")
old-IsKey = record {
  marshalled = refl;
  public = codes "oldk";
  unmarshalled = refl;
  verify-sign = λ body. (codes "oldk", refl, ap some (bytes_equal_refl (codes "oldk")));
}

new-IsKey : IsKey toy_keys (codes "newk") (codes "newk")
new-IsKey = record {
  marshalled = refl;
  public = codes "newk";
  unmarshalled = refl;
  verify-sign = λ body. (codes "newk", refl, ap some (bytes_equal_refl (codes "newk")));
}

verify_revocation-new_example :
    (r : SelfRevocation) × (new_self_revocation toy_keys (codes "oldk") (codes "newk") [] ≡ ok r)
    × (verify_revocation toy_keys r ≡ ok tt)
verify_revocation-new_example =
    verify_revocation-new toy_keys (codes "oldk") (codes "newk") (codes "oldk") (codes "newk") []
      old-IsKey new-IsKey refl (omega arith)

Runs-Lives_example :
    Lives services
      (codes "Qp")
      (handled services three_steps)
      (fate (codes "Qp") node.db)
      (fate (codes "Qp") fourth.db)
Runs-Lives_example = Runs-Lives services (codes "Qp") node fourth three_steps
