-- ===== src/Tests/Stores.antt =====
-- The theorems on the store, on a store of two entries and a link.
use holochain.Base.{Bytes, ◌≡◌, ◌≢◌, refl, List, [], ◌∷◌, none, some, arith, codes, bytes_equal}
use holochain.Base.Map.{lookup, insert}
use holochain.Base.Result.{ok, hash_modified}
use holochain.Hash.{Hash, hash_string}
use holochain.Dht.Store.{
  Db, Message, put_req, del_req, mod_req, link_req, empty_db, put, del, modify, get, no_more,
  status_default, status_live, add_link, link_key, get_value, LinkEvent,
}
use holochain.Dht.Store.Laws.{get-put, get-modify}
use holochain.Dht.Links.{put_link, del_link, visit}
use holochain.Dht.Links.Events.{HasNoColon, visit-put_link, visit-del_link}
use holochain.Dht.Gossip.{get_idx_message}
use holochain.Dht.Gossip.Changes.{by_put, by_del}
use holochain.Dht.Gossip.History.{Reaches, here, more}
use holochain.Tests.Toy.{toy_codec}

abbrev first : Hash
first = codes "Qa"

abbrev second : Hash
second = codes "Qb"

abbrev peer : Bytes
peer = codes "peer"

abbrev putting : Message
putting = record { type = 1; time = codes "t1"; from = peer; body = put_req first }

abbrev deleting : Message
deleting = record { type = 2; time = codes "t2"; from = peer; body = del_req first first }

abbrev modifying : Message
modifying = record { type = 3; time = codes "t3"; from = peer; body = mod_req first second }

abbrev linking : Message
linking = record { type = 4; time = codes "t4"; from = peer; body = link_req first second }

abbrev one : Db
one =
    (put toy_codec (some putting) (codes "post") first peer (codes "hello") status_live empty_db).1

one-put :
    put toy_codec (some putting) (codes "post") first peer (codes "hello") status_live empty_db
    ≡ (ok tt, one)
unfolding put
one-put = refl

get-put_example :
    get toy_codec first status_default 7 one
    ≡ ok (
      (record {
        data_bytes = codes "hello";
        entry_type = codes "post";
        sources = peer ∷ [];
        status = status_live;
      }),
      none,
    )
get-put_example =
    get-put toy_codec (some putting) (codes "post") first peer (codes "hello") empty_db one-put

apart : hash_string toy_codec.b58 second ≢ hash_string toy_codec.b58 first
unfolding hash_string
apart = λ e. ground arith

abbrev two : Db
two = (put toy_codec none (codes "post") second peer (codes "bye") status_live one).1

two-put : put toy_codec none (codes "post") second peer (codes "bye") status_live one ≡ (ok tt, two)
unfolding put
two-put = refl

abbrev deleted : Db
deleted = (del toy_codec (some deleting) first one).1

one-del : del toy_codec (some deleting) first one ≡ (ok tt, deleted)
unfolding put del lookup insert bytes_equal hash_string
one-del = refl

abbrev modified : Db
modified = (modify toy_codec modifying first second one).1

one-modify : modify toy_codec modifying first second one ≡ (ok tt, modified)
unfolding put modify lookup insert bytes_equal hash_string
one-modify = refl

get-modify_example :
    (value : Bytes) × (lookup (hash_string toy_codec.b58 first) one.entry ≡ some value)
    × (get toy_codec first status_default 7 modified
        ≡ ok (no_more (hash_string toy_codec.b58 second), some hash_modified))
get-modify_example = get-modify toy_codec modifying first second 7 one one-modify

abbrev linked : Db
linked = (put_link toy_codec linking first second (codes "to") one).1

one-put_link : put_link toy_codec linking first second (codes "to") one ≡ (ok tt, linked)
unfolding put put_link get_value lookup insert bytes_equal hash_string add_link
one-put_link = refl

first-HasNoColon : HasNoColon first
unfolding HasNoColon
first-HasNoColon = (refl, (refl, tt))

second-HasNoColon : HasNoColon second
unfolding HasNoColon
second-HasNoColon = (refl, (refl, tt))

tag-HasNoColon : HasNoColon (codes "to")
unfolding HasNoColon
tag-HasNoColon = (refl, (refl, tt))

visit-put_link_example :
    (records : List LinkEvent) × (lookup (link_key first second (codes "to")) linked.link
      ≡ some records)
    × (visit first [] status_live (link_key first second (codes "to")) records
        ≡ ok (record { h = second; t = codes "to"; source = peer } ∷ []))
visit-put_link_example =
    visit-put_link toy_codec linking first second (codes "to") one first-HasNoColon
      second-HasNoColon tag-HasNoColon one-put_link

abbrev unlinked : Db
unlinked = (del_link toy_codec linking first second (codes "to") linked).1

linked-del_link : del_link toy_codec linking first second (codes "to") linked ≡ (ok tt, unlinked)
unfolding put put_link del_link get_value lookup insert bytes_equal hash_string add_link
linked-del_link = refl

visit-del_link_example :
    (records : List LinkEvent) × (lookup (link_key first second (codes "to")) unlinked.link
      ≡ some records)
    × (visit first [] status_live (link_key first second (codes "to")) records ≡ ok [])
visit-del_link_example =
    visit-del_link toy_codec linking first second (codes "to") linked first-HasNoColon
      second-HasNoColon tag-HasNoColon linked-del_link

one-Reaches : Reaches toy_codec empty_db one
one-Reaches =
    more empty_db empty_db one (here empty_db)
      (by_put (some putting) (codes "post") first peer (codes "hello") status_live empty_db)

deleted-Reaches : Reaches toy_codec one deleted
deleted-Reaches = more one one deleted (here one) (by_del (some deleting) first one)

one-message : get_idx_message 1 one ≡ ok putting
unfolding put get_idx_message
one-message = refl
