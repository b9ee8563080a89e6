-- ===== src/Tests/Chains.antt =====
-- The theorems on headers, entries and the chain, on a chain of two toy entries.
use holochain.Base.{
  Bytes, ◌≡◌, ◌↔◌, refl, [], ◌∷◌, ◌++◌, false, replicate, arith, codes, length, bytes_equal,
}
use holochain.Base.Map.{lookup, insert}
use holochain.Base.Result.{Result, ok, ◌>>=◌}
use holochain.Platform.{text}
use holochain.Hash.{Hash, null_hash, marshal_hash}
use holochain.Entry.{entry_sum}
use holochain.Header.{Header, marshal_header, unmarshal_header, header_sum, new_header}
use holochain.Header.RoundTrip.{IsWireHeader, unmarshal_header-marshal_header}
use holochain.Chain.{Chain, new_chain, appended, add_entry, validate}
use holochain.Chain.Linked.{IsLinked, new_chain-IsLinked}
use holochain.Chain.AddEntry.{add_entry-IsLinked}
use holochain.Chain.Validation.{
  HasCheckedLinks, HasCheckedEntries, validate_iff, validate-unlinked_top,
}
use holochain.Chain.Transfer.{marshal_chain, unmarshal_chain}
use holochain.Chain.Transfer.RoundTrip.{AreWirePairs, IsWirePair}
use holochain.Chain.Transfer.Linked.{unmarshal_chain-marshal_chain}
use holochain.Chain.Lookup.{Found, add_entry-Found}
use holochain.Tests.Toy.{toy, toy-IsLawful, digest}

abbrev now : Bytes
now = replicate 15 1

abbrev one : Chain
one = (add_entry toy now (codes "%dna") (text (codes "dna")) new_chain).1

abbrev two : Chain
two = (add_entry toy now (codes "post") (text (codes "hello")) one).1

one-IsLinked : IsLinked toy one
one-IsLinked =
    add_entry-IsLinked toy now (codes "%dna") (text (codes "dna")) new_chain
      (new_chain-IsLinked toy)

add_entry-IsLinked_example : IsLinked toy two
add_entry-IsLinked_example =
    add_entry-IsLinked toy now (codes "post") (text (codes "hello")) one one-IsLinked

two-IsLinked : IsLinked toy two
two-IsLinked = add_entry-IsLinked toy now (codes "post") (text (codes "hello")) one one-IsLinked

-- The second entry is stored.
hashes-count : length two.hashes ≡ 2
unfolding add_entry lookup new_header entry_sum header_sum marshal_header marshal_hash insert
    bytes_equal
hashes-count = refl

validate_iff_example :
    (validate toy false two ≡ ok tt)
    ↔ (HasCheckedLinks toy two × (false ≡ false → HasCheckedEntries toy two))
validate_iff_example = validate_iff toy false two two-IsLinked.aligned

-- A header on top that links to nothing in the chain.
abbrev forged : Header
forged = record {
  type = codes "post";
  time = now;
  header_link = digest (codes "elsewhere");
  entry_link = digest (codes "forged");
  type_link = null_hash;
  sig = [];
  change = record { action = []; hash = null_hash };
}

abbrev value : Result Hash → Hash
value (ok h) = h
value _ = []

forged-sum : header_sum toy forged ≡ ok (value (header_sum toy forged))
unfolding header_sum marshal_header marshal_hash
forged-sum = refl

forged-entry : entry_sum toy (text (codes "forged")) ≡ ok forged.entry_link
unfolding entry_sum
forged-entry = refl

validate-unlinked_top_example :
    validate toy false
      (appended toy 2 (value (header_sum toy forged)) forged (text (codes "forged")) two)
    ≡ ok tt
validate-unlinked_top_example =
    validate-unlinked_top toy false two 2 (value (header_sum toy forged)) forged
      (text (codes "forged")) two-IsLinked forged-sum forged-entry

forged-IsWireHeader : IsWireHeader forged
forged-IsWireHeader = record {
  type = omega arith;
  time = refl;
  header_link = (refl, λ e. absurd (omega arith));
  entry_link = (refl, λ e. absurd (omega arith));
  type_link = refl;
  sig = omega arith;
  action = omega arith;
  change_hash = refl;
}

unmarshal_header-marshal_header_example :
    (do b ← marshal_header forged; unmarshal_header (b ++ 9 ∷ [])) ≡ ok (forged, 9 ∷ [])
unmarshal_header-marshal_header_example =
    unmarshal_header-marshal_header forged (9 ∷ []) forged-IsWireHeader

two-AreWirePairs : AreWirePairs toy two.headers two.entries
unfolding AreWirePairs IsWirePair add_entry lookup new_header entry_sum header_sum marshal_header
    marshal_hash insert bytes_equal
two-AreWirePairs = (
  (
    (record {
      type = omega arith;
      time = refl;
      header_link = refl;
      entry_link = (refl, λ e. absurd (omega arith));
      type_link = refl;
      sig = omega arith;
      action = omega arith;
      change_hash = refl;
    }),
    (codes "dna", refl),
  ),
  (
    (
      (record {
        type = omega arith;
        time = refl;
        header_link = (refl, λ e. absurd (omega arith));
        entry_link = (refl, λ e. absurd (omega arith));
        type_link = refl;
        sig = omega arith;
        action = omega arith;
        change_hash = refl;
      }),
      (codes "hello", refl),
    ),
    tt,
  ),
)

headers-count : length two.headers ≡ 2
unfolding add_entry lookup new_header entry_sum header_sum marshal_header marshal_hash insert
    bytes_equal
headers-count = refl

unmarshal_chain-marshal_chain_example :
    (b : Bytes) × (c' : Chain) × (marshal_chain toy 0 [] [] two ≡ ok b)
    × (unmarshal_chain toy (b ++ 8 ∷ []) ≡ ok ((0, c'), 8 ∷ []))
    × (c'.headers ≡ two.headers)
    × (c'.entries ≡ two.entries)
    × (c'.hashes ≡ two.hashes)
unmarshal_chain-marshal_chain_example =
    unmarshal_chain-marshal_chain toy toy-IsLawful two (8 ∷ []) two-IsLinked two-AreWirePairs
      (omega (arith, headers-count)) (omega (arith, headers-count))

abbrev two_hash : Hash
two_hash = value (add_entry toy now (codes "post") (text (codes "hello")) one).0

two-added : (add_entry toy now (codes "post") (text (codes "hello")) one).0 ≡ ok two_hash
unfolding add_entry lookup new_header entry_sum header_sum marshal_header marshal_hash insert
    bytes_equal
two-added = refl

add_entry-Found_example :
    (hd : Header) × Found toy two (codes "post") (text (codes "hello")) two_hash hd
add_entry-Found_example =
    add_entry-Found toy now (codes "post") (text (codes "hello")) one two_hash one-IsLinked.aligned
      two-added
