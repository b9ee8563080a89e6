-- ===== src/Dht.antt =====
-- dht.go and the index of gossip.go: the store of a node, a buntdb database. Each prefix of its keys
-- ("entry:", "type:", ...) is a map of its own here, with the values decoded that the code encodes by
-- `strconv`, `encoding/json`, gob and base 58. What follows "link:" stays text, since `getLinks`
-- takes it apart again.
pub mod Store
pub mod Links
pub mod Gossip
pub mod Fates
