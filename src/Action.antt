-- ===== src/Action.antt =====
-- action.go: the actions of an application, what they are about, and what they need of others.
pub mod Args
pub mod System
pub mod Links
pub mod Receive
pub mod Get
pub mod Stored
pub mod Follow
pub mod FindNode
pub mod Commit
pub mod Messages
use holochain.Base.{Bytes, ℕ, List, Bool, Option}
use holochain.Base.Map.{Map}
use holochain.Base.Result.{Error, Result}
use holochain.Hash.{Hash}
use holochain.Header.{Header}
use holochain.Platform.{Platform, Content}
use holochain.Entry.{EntryDef}
use holochain.Chain.{Chain}
use holochain.Kad.Bucket.{PeerId}
use holochain.Kad.Table.{Table}
use holochain.Dht.Store.{Db, Codec, Message}
use holochain.Dht.Links.{TaggedHash}
use holochain.Warrant.{Keys, SelfRevocation}
use holochain.Zome.{Zome}

-- entry.go: an agent's entry (its identity is of the application), a link of a links entry, and
-- the record of a deletion.
pub record AgentEntry : Type 0 where
  pub revocation : Option Bytes
  pub public_key : Bytes

pub record Link : Type 0 where
  pub link_action : Bytes
  pub base : Bytes
  pub link : Bytes
  pub tag : Bytes

pub record DelEntry : Type 0 where
  pub hash : Hash
  pub message : Bytes

-- The actions that are validated. The entry of a commit is an interface, which may be nil.
pub data ValidatingAction : Type 0 where
  commit_action : (entry : Option Content) → ValidatingAction
  put_action : (entry : Option Content) (header : Option Header) → ValidatingAction
  mod_action :
      (entry : Option Content) (header : Option Header) (replaces : Hash) → ValidatingAction
  del_action : (entry_type : Bytes) (entry : DelEntry) → ValidatingAction
  link_action_of : (links : List Link) (validation_base : Hash) → ValidatingAction

-- What the source of an entry answers to a validation request (its package is read by the
-- application only).
pub record ValidateResponse : Type 0 where
  pub type : Bytes
  pub header : Header
  pub entry : Content

-- What the handlers take from other packages, from the application and from the network.
pub record Services : Type 0 where
  pub platform : Platform
  pub codec : Codec
  pub keys : Keys
  pub zomes : List Zome
  -- JSON schemas: the validator of an entry type, which is given the parsed text.
  pub schema : Bytes → Option (Content → Bool)
  -- encoding/json: whether a text parses, and what it is as a list of maps, as a links entry and
  -- as a revocation.
  pub parses : Bytes → Bool
  pub link_maps : Bytes → Option (List (Map Bytes))
  pub links_entry : Bytes → Option (List Link)
  pub revocation : Bytes → Option SelfRevocation
  -- encoding/gob: the record of a deletion.
  pub del_entry : Bytes → Option DelEntry
  -- The type assertion to `AgentEntry`.
  pub as_agent : Content → Option AgentEntry
  -- go-libp2p-peer and the peer store.
  pub decode_peer : Bytes → Option PeerId
  pub has_address : PeerId → Bool
  -- The validation that the application's code does in the ribosome.
  pub app_validate : ValidatingAction → EntryDef → List PeerId → Result (Unit {0})
  -- The receiver that the application's code has in a zome.
  pub app_receive : Zome → PeerId → Bytes → Result Bytes
  -- `Send` of a validation request with a message type.
  pub ask : PeerId → ℕ → Hash → Result ValidateResponse

-- What a node keeps: its store, its own chain, its routing table, the messages that wait for
-- another try (`retryQueue`) and the block list.
pub record Holder : Type 0 where
  pub self : PeerId
  pub db : Db
  pub chain : Chain
  pub table : Table
  pub retries : List (Message × ℕ)
  pub blocked : Map Bool

-- `GetResp`.
pub record GetResp : Type 0 where
  pub entry : Option Content
  pub entry_type : Bytes
  pub sources : List PeerId
  pub follow_hash : Bytes

-- `DHTChangeOK`, `DHTChangeUnknownHashQueuedForRetry` and the answers with content.
pub data Response : Type 0 where
  change_ok queued_for_retry : Response
  closer_peers : List PeerId → Response
  got_entry : GetResp → Response
  got_links : List TaggedHash → Response
  app_reply : (zome_type body : Bytes) → Response

-- How a handler ends. An error may come with a response, which is sent as its payload.
pub data Reply : Type 0 where
  reply : Response → Reply
  refused : Option Response → Error → Reply
  panics : Reply
