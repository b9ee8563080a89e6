-- ===== src/Query.antt =====
-- holochain.go: `Query`, which searches the local chain. The maps that it makes from the JSON texts
-- of the constraints and the compiled expressions are made anew for each entry here; the code keeps
-- them between the rounds.
pub mod Fields
pub mod Pages
pub mod Selection
use holochain.Base.{
  Bytes, ℕ, suc, ◌+◌, ◌*◌, ◌%◌, ◌^◌, List, [], ◌∷◌, ◌++◌, Bool, true, false, not, ◌&&◌, ◌||◌,
  Option, none, some, ltb, leb, if◌then◌else◌, length, get_elem?, take, drop, bytes_equal,
}
use holochain.Base.Result.{Result, ok, err, panic, ◌>>=◌, or_panic}
use holochain.Platform.{Content, text}
use holochain.Header.{Header}
use holochain.Chain.{Chain}
use holochain.Entry.{EntryDef, data_format_json}
use holochain.Zome.{Zome, get_entry_def}
use holochain.Query.Fields.{Library, json_meets, text_meets}

pub record QueryReturn : Type 0 where
  pub hashes : Bool
  pub entries : Bool
  pub headers : Bool

-- An `int` is the number below 2 ^ 64 with its bits.
pub record QueryConstrain : Type 0 where
  pub entry_types : List Bytes
  pub contains : Bytes
  pub equals : Bytes
  pub matches : Bytes
  pub count : ℕ
  pub page : ℕ

-- `Order` has the one field `Ascending`.
pub record QueryOptions : Type 0 where
  pub returned : QueryReturn
  pub constrain : QueryConstrain
  pub ascending : Bool

pub record QueryResult : Type 0 where
  pub header : Header
  pub entry : Option Content

abbrev pub no_constrain : QueryConstrain
no_constrain = record {
  entry_types = [];
  contains = [];
  equals = [];
  matches = [];
  count = 0;
  page = 0;
}

-- What nil stands for.
abbrev pub default_options : QueryOptions
default_options = record {
  returned = record { hashes = false; entries = true; headers = false };
  constrain = no_constrain;
  ascending = false;
}

-- Entries are returned where nothing else is asked for.
unfoldable pub effective_options : Option QueryOptions → QueryOptions
effective_options none = default_options
effective_options (some o) =
    if o.returned.entries || o.returned.hashes || o.returned.headers
    then o
    else record o { returned = record (o.returned) { entries = true } }

unfoldable pub is_listed : Bytes → List Bytes → Bool
is_listed t [] = false
is_listed t (et ∷ ets) = if bytes_equal t et then true else is_listed t ets

abbrev pub is_set : Bytes → Bool
is_set [] = false
is_set (b ∷ bs) = true

unfoldable pub has_type : QueryConstrain → Bytes → Bool
unfolding is_listed
has_type q t = elim (q.entry_types) [ [] ↦ true | et ∷ ets ↦ is_listed t (et ∷ ets) ]

-- A nil definition is dereferenced; `Content().(string)` panics on any other content.
unfoldable pub has_content :
    Library → QueryConstrain → Option EntryDef → Option Content → Result Bool
unfolding json_meets text_meets
has_content lib q (some def) (some (text s)) =
    if bytes_equal def.data_format data_format_json
    then json_meets lib q.equals q.contains q.matches s
    else text_meets lib q.equals q.contains q.matches s
has_content lib q _ _ = panic

-- One round up to `if !skip`: whether the entry is among the results.
unfoldable pub is_selected :
    Library → List Zome → QueryConstrain → Header → Option Content → Result Bool
unfolding get_entry_def has_type has_content
is_selected lib zomes q hd e = do
  def ← get_entry_def hd.type zomes
  let content_test = has_content lib q def e
  let tests_content = is_set q.equals || is_set q.contains || is_set q.matches
  (if has_type q hd.type then (if tests_content then content_test else ok true) else ok false)

-- The result that an entry of the chain becomes.
unfoldable pub query_result : QueryOptions → Header → Option Content → Result QueryResult
query_result o hd e =
    if o.returned.entries
    then (do c ← or_panic e; ok (record { header = hd; entry = some c }))
    else ok (record { header = hd; entry = none })

unfoldable pub add_result : Bool → QueryResult → List QueryResult → List QueryResult
add_result ascending qr results = if ascending then qr ∷ results else results ++ qr ∷ []

unfoldable pub query_round :
    Library
    → List Zome
    → QueryOptions
    → Header
    → Option Content
    → List QueryResult
    → Result (List QueryResult)
unfolding is_selected query_result add_result
query_round lib zomes o hd e results = do
  keep ← is_selected lib zomes o.constrain hd e
  let added : Result (List QueryResult) = (do
    qr ← query_result o hd e
    ok (add_result o.ascending qr results))
  (if keep then added else ok results)

-- The loop over the headers from number `i` on.
unfoldable pub query_from :
    Library
    → List Zome
    → QueryOptions
    → List Content
    → List Header
    → ℕ
    → List QueryResult
    → Result (List QueryResult)
unfolding query_round
query_from lib zomes o entries [] i results = ok results
query_from lib zomes o entries (hd ∷ hds) i results = do
  results' ← query_round lib zomes o hd (get_elem? entries i) results
  query_from lib zomes o entries hds (suc i) results'

abbrev pub is_negative : ℕ → Bool
is_negative n = leb (2 ^ 63) n

-- `results[start:end]`, where `end` is at most the length: it panics at negative bounds, and where
-- they are in the wrong order.
unfoldable pub slice {ℓ} : {A : Type ℓ} → ℕ → ℕ → List A → Result (List A)
slice start end results =
    if is_negative start || is_negative end || ltb end start
    then panic
    else ok (drop start (take end results))

-- `end`, and what is cut out up to it.
unfoldable pub slice_from {ℓ} : {A : Type ℓ} → ℕ → ℕ → List A → Result (List A)
unfolding slice
slice_from start count results =
    let past = (start + count) % 2 ^ 64 in
    slice start (if is_negative past || leb past (length results) then past else length results)
      results

unfoldable pub page_of {ℓ} : {A : Type ℓ} → ℕ → ℕ → List A → Result (List A)
unfolding slice_from
page_of count page results =
    let start = (page * count) % 2 ^ 64 in
    if ltb 0 count && not (is_negative count)
    then (if not (is_negative start) && leb (length results) start
        then ok []
        else slice_from start count results)
    else ok results

unfoldable pub query : Library → List Zome → Option QueryOptions → Chain → Result (List QueryResult)
unfolding effective_options query_from page_of
query lib zomes options c = do
  let o = effective_options options
  results ← query_from lib zomes o c.entries c.headers 0 []
  page_of o.constrain.count o.constrain.page results
