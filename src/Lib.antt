-- ===== src/Lib.antt =====
-- The core of holochain (Go): hash chains of signed headers, the routing table by which nodes find
-- each other, and the distributed hash table that they share by gossip. Paths are from the root of
-- the repository.
--
-- A node keeps a source chain (chain.go): pairs of a header (header.go) and an entry (entry.go),
-- each header linked by hash (hash/hash.go) to the one before it and to the latest of its type.
-- What is public of it is put on the DHT (dht.go), a store of entries, their status and the links
-- between them. A node that gets a request (action.go) asks the source for the entry, validates
-- it and changes its store, or queues the request until it knows the hash. Each change of the
-- store is caused by a message, which `incIdx` (gossip.go) counts, so that nodes can ask each
-- other for what they missed. Peers are found by xor distance in a Kademlia routing table
-- (kad_bucket.go, kad_table.go).
--
-- Base       Boolean tests, lists, byte strings, results and maps that the other files share. A call
--            that returns an error is `err`, one that panics is `panic`.
-- Wire       `binary.Read`, `binary.Write`, and `readStr` and `writeStr` of header.go.
-- Hash       hash/hash.go: `Equal`, `String`, `MarshalHash`, `UnmarshalHash`, `XOR`,
--            `HashXORDistance`, `HashLess`, `ZeroPrefixLen`. A hash is the bytes of its multihash.
-- Platform   what other packages do, as a record of functions that the definitions take: base 58,
--            digests, gob encoding, signing. `IsLawful` holds what the proofs rely on.
-- Entry      entry.go: entry definitions, `MarshalEntry`, `UnmarshalEntry`, `GobEntry.Sum`.
-- Header     header.go: `newHeader`, `Sum`, `MarshalHeader`, `UnmarshalHeader` and the wire form of
--            signatures.
-- Chain      chain.go: `NewChain`, `Top`, `Nth`, `TopType`, `AddEntry` with `prepareHeader` and
--            `addEntry`, `Get`, `GetEntry`, `GetEntryHeader`, `writePair`, `filterPass`, `Walk`,
--            `Validate`. The file is the list of bytes that were appended to it. Chain/Transfer is
--            `MarshalChain` and `UnmarshalChain`.
-- Kad        Kad/Bucket is kad_bucket.go, Kad/Table is kad_table.go: `Update`, `Remove`,
--            `nextBucket`, `NearestPeers`, `Find` and the smaller methods. The latency of a peer is an
--            argument; the callbacks `PeerAdded` and `PeerRemoved` are a log of events.
--            Kad/Query is the search of kad_query.go: its goroutines are steps that come in any order,
--            and any peer that waits may be the next one.
-- Dht        Dht/Store is the transactions of dht.go on entries (`put`, `del`, `mod`, `get`) and
--            `incIdx`; Dht/Links is `link` and `getLinks`; Dht/Gossip is the index and the gossipers
--            of gossip.go. The database is a record with one map for each prefix of its keys.
--            Dht/Gossip/Exchange is `GetPuts`, `GossipReceiver`, `gossipWith`, `gossipPut` and the
--            lists of peers; the order of the database's index is a parameter.
-- Zome       zome.go, and of holochain.go, ribosome.go and bridge.go what finds a definition or a
--            function: `GetEntryDef`, `Call`, `ValidExposure`, `makeBridgeSpec`.
-- Query      `Query` of holochain.go: the constraints on entries, the order and the pages; encoding/json
--            and regexp are a record of functions, and what `range` visits first is its choice.
-- Ribosome   of jsribosome.go the code that is built for the interpreter, byte by byte, with
--            `jsSanitizeString`; the interpreter itself is a function. Ribosome/Marks is what becomes
--            of each byte, Ribosome/Literals has a reader of JavaScript's literals to compare with.
--            Ribosome/Args is `jsProcessArgs`.
-- PeerQueue  peerqueue/distance.go, with what `Push` and `Pop` of container/heap do; PeerQueue/Channel is
--            the goroutine of peerqueue/sync.go, a function of the events that it waits for.
-- Capability capabilities.go, and `BridgeCall` of bridge.go.
-- Warrant    revocation.go and warrant.go; keys and signatures are a record of functions.
-- Action     action.go. Action/Args is the argument tables; Action/System is the validation of each
--            action by the system and `ValidateAction`; Action/Receive and Action/Get are the
--            `Receive` methods; Action/Messages is `MakeActionFromMessage`, `actionReceiver` of
--            nucleus.go, `RetryTask` of dht.go and `ListAdd`; Action/Commit is `doCommit` and what the
--            actions that commit send; Action/Follow is `ActionGet.Do`;
--            Action/FindNode is `KademliaReceiver` of kad_rpc.go. `Services` holds what the handlers take
--            from libraries, the application's code and the network, `Holder` what a node keeps.
-- Package    validate.go and `GetValidationResponse`: what the source of an entry answers. What the
--            application asks for is a field of `Source`.
-- Node       of node.go the error codes, the block list and the filter of active peers.
-- Tests      runs of the theorems at concrete inputs, with a checksum in place of the digest.
--
-- Loops over lists are structural. The others take fuel: the two of the heap have a round for each
-- entry and one more, `MoveToFront` has 2 n + 1 rounds for a bucket
-- of n peers, since it may pass the bucket twice, and `nextBucket` has one round for each bit of an
-- id and one more, since each round makes the last bucket's common prefix longer by one. `doCommit`
-- and the get that follows modified hashes take their rounds as an argument, since other commits and
-- other nodes decide how many there are.
--
-- Not modelled: locks (each method that holds its lock from start to end is one step), goroutines
-- but for those of Kad/Query and PeerQueue/Channel, delays and the bounds of channels, the
-- network (most of node.go, kad_lookup.go, kad_rpc.go), the interpreters and their bindings
-- (the rest of jsribosome.go, and zygosome.go), services, commands and the user interface. Of the modelled files:
-- `NewChainFromFile` of chain.go, JSON entries and schema validators of entry.go, the choice of a
-- gossiper of gossip.go, `Change`, `Query` and the dumps of dht.go, and of action.go the `Do`
-- methods that only call other packages, send, query and modify the agent. The package that comes
-- with an entry is read by the application's validation only.
pub mod Base
pub mod Wire
pub mod Hash
pub mod Platform
pub mod Entry
pub mod Header
pub mod Chain
pub mod Kad
pub mod Dht
pub mod Zome
pub mod Query
pub mod Ribosome
pub mod PeerQueue
pub mod Capability
pub mod Action
pub mod Package
pub mod Warrant
pub mod Node
pub mod Tests
