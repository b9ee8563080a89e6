-- ===== src/Tests/Searches.antt =====
-- The theorems on searches of the chain, on a chain that starts as every chain does, with the DNA and
-- the agent, and goes on with two texts.
use holochain.Base.{
  Bytes, ◌≡◌, refl, [], ◌∷◌, List, true, false, none, some, arith, codes, bytes_equal, ◌-◌, ◌^◌,
  length, if◌then◌else◌,
}
use holochain.Base.Map.{lookup}
use holochain.Base.Result.{Result, ok, panic}
use holochain.Platform.{text, raw, other}
use holochain.Hash.{null_hash}
use holochain.Header.{Header}
use holochain.Entry.{EntryDef, has_prefix}
use holochain.Chain.{Chain}
use holochain.Zome.{Zome, get_entry_def, find_entry_def}
use holochain.Query.{
  is_listed, QueryOptions, QueryResult, no_constrain, query, effective_options, page_of,
}
use holochain.Query.Fields.{Library, number, string, json_meets}
use holochain.Query.Selection.{
  AreReadable, nil, cons, not_asked, plain, found, in_order, query-found,
}
use holochain.Query.Pages.{query_pages, with_page, query_pages-cover, query-negative_page}

-- Only one JSON text is known.
abbrev profile : Bytes
profile = codes "{name, age}"

abbrev toy_library : Library
toy_library = record {
  unmarshal = λ b.
      if bytes_equal b profile
      then some ((codes "name", string (codes "ann")) ∷ (codes "age", number 7) ∷ [])
      else none;
  compile = λ b. some (λ s. has_prefix s b);
}

abbrev post_def : EntryDef
post_def = record { name = codes "post"; data_format = codes "string"; sharing = codes "public" }

abbrev blog : Zome
blog = record { name = codes "blog"; entries = post_def ∷ []; functions = []; bridge_funcs = [] }

abbrev header_of : Bytes → Header
header_of t = record {
  type = t;
  time = [];
  header_link = null_hash;
  entry_link = null_hash;
  type_link = null_hash;
  sig = [];
  change = record { action = []; hash = null_hash };
}

abbrev two_posts : Chain
two_posts = record {
  hashes = null_hash ∷ null_hash ∷ null_hash ∷ null_hash ∷ [];
  headers =
      header_of (codes "%dna")
      ∷ header_of (codes "%agent")
      ∷ header_of (codes "post")
      ∷ header_of (codes "post")
      ∷ [];
  entries = raw (codes "dna") ∷ other 0 ∷ text (codes "hello") ∷ text (codes "help") ∷ [];
  type_tops = [];
  hmap = [];
  emap = [];
  stream = none;
}

abbrev searching : QueryOptions
searching = record {
  returned = record { hashes = false; entries = true; headers = false };
  constrain = record (no_constrain) { entry_types = codes "post" ∷ []; contains = codes "el" };
  ascending = true;
}

two_posts-AreReadable :
    AreReadable (blog ∷ []) searching.constrain two_posts.headers two_posts.entries
unfolding get_entry_def find_entry_def bytes_equal is_listed
two_posts-AreReadable = cons _ _ _ refl (not_asked refl) (
    cons _ _ _ refl (not_asked refl)
      (cons _ _ _ refl (plain _ refl refl) (cons _ _ _ refl (plain _ refl refl) nil)))

searching-effective : effective_options (some searching) ≡ searching
unfolding effective_options
searching-effective = refl

query-found_example :
    query toy_library (blog ∷ []) (some searching) two_posts
    ≡ page_of 0 0
        (in_order true [] (found searching (λ s. true) two_posts.headers two_posts.entries))
query-found_example =
    query-found toy_library (blog ∷ []) searching (λ s. true) (λ n. absurd (n refl))
      (some searching) two_posts searching-effective two_posts-AreReadable

-- The newest result comes first.
newest_first :
    query toy_library (blog ∷ []) (some searching) two_posts
    ≡ ok (
        record { header = header_of (codes "post"); entry = some (text (codes "help")) }
        ∷ record { header = header_of (codes "post"); entry = some (text (codes "hello")) }
        ∷ [])
unfolding query bytes_equal
newest_first = refl

abbrev all_posts : QueryOptions
all_posts = record searching { constrain = no_constrain }

abbrev results_of : Result (List QueryResult) → List QueryResult
results_of (ok results) = results
results_of _ = []

all_posts-found :
    query toy_library (blog ∷ []) (some (with_page 0 0 all_posts)) two_posts
    ≡ ok (results_of (query toy_library (blog ∷ []) (some (with_page 0 0 all_posts)) two_posts))
unfolding query bytes_equal
all_posts-found = refl

all_posts-count :
    length (results_of (query toy_library (blog ∷ []) (some (with_page 0 0 all_posts)) two_posts))
    ≡ 4
unfolding query bytes_equal
all_posts-count = refl

query_pages-cover_example :
    query_pages toy_library (blog ∷ []) 2 2 0 all_posts two_posts
    ≡ ok (results_of (query toy_library (blog ∷ []) (some (with_page 0 0 all_posts)) two_posts))
query_pages-cover_example =
    query_pages-cover toy_library (blog ∷ []) 2 all_posts two_posts _ all_posts-found 2
      (omega arith) (omega arith) (omega (arith, all_posts-count))

query-negative_page_example :
    query toy_library (blog ∷ []) (some (with_page 2 (2 ^ 64 - 1) all_posts)) two_posts ≡ panic
query-negative_page_example =
    query-negative_page toy_library (blog ∷ []) 2 all_posts two_posts _ all_posts-found (2 ^ 64 - 1)
      (omega arith) (omega arith) (omega arith)

abbrev named_ann : Bytes
named_ann = codes "{name}"

-- One field of the constraint is enough.
abbrev ann_library : Library
ann_library = record {
  unmarshal = λ b.
      if bytes_equal b profile
      then some ((codes "name", string (codes "ann")) ∷ (codes "age", number 7) ∷ [])
      else some ((codes "age", number 8) ∷ (codes "name", string (codes "ann")) ∷ []);
  compile = λ b. some (λ s. has_prefix s b);
}

ann-equals : json_meets ann_library named_ann [] [] profile ≡ ok true
unfolding json_meets bytes_equal lookup
ann-equals = refl

-- A number in the place of a string.
ann-contains : json_meets ann_library [] named_ann [] profile ≡ panic
unfolding json_meets bytes_equal lookup
ann-contains = refl
