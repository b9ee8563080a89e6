-- ===== src/Query/Pages.antt =====
-- holochain.go, `Query`: the pages of the results.
use holochain.Base.{
  ℕ, zero, suc, ◌+◌, ◌*◌, ◌%◌, ◌^◌, ◌<◌, ◌≤◌, List, [], ◌∷◌, ◌++◌, ◌≡◌, refl, ap, arith, length,
  take, drop, length-drop, take-all, drop-all, drop-take, drop-drop, take-append-drop, sym, subst,
  ◌∙◌, Bool-cases, inl, inr, Option, none, some, ◌||◌, get_elem?, ◌⊎◌,
}
use holochain.Base.Result.{Result, ok, panic, ◌>>=◌, >>=_cong, >>=_assoc}
use holochain.Platform.{Content, text, raw, other}
use holochain.Header.{Header}
use holochain.Chain.{Chain}
use holochain.Entry.{EntryDef}
use holochain.Zome.{Zome, get_entry_def}
use holochain.Query.Fields.{Library}
use holochain.Query.{
  QueryOptions, QueryResult, effective_options, is_selected, has_type, has_content, query_result,
  query_round, query_from, slice, slice_from, page_of, query,
}

-- The pages from number `k` on, `n` of them, one after the other.
unfoldable pub pages {ℓ} : {A : Type ℓ} → ℕ → ℕ → ℕ → List A → Result (List A)
unfolding page_of
pages zero k count results = ok []
pages (suc n) k count results = do
  now ← page_of count k results
  later ← pages n (suc k) count results
  ok (now ++ later)

module _ {A : Type 0} (count page : ℕ) (results : List A) where
  slice_from_lem :
      (start : ℕ)
      → start + count < 2 ^ 63
      → start < length results
      → length results < 2 ^ 63
      → slice_from start count results ≡ ok (take count (drop start results))
  unfolding slice_from slice
  slice_from_lem start fits inside short = ground (
    arith,
    drop-take start count (start + count) results,
    take-all (length results) results,
    take-all count (drop start results),
    length-drop start results,
  )

  -- A page is the stretch of the results that it should be.
  pub page_of_lem :
      0 < count
      → page * count + count < 2 ^ 63
      → length results < 2 ^ 63
      → page_of count page results ≡ ok (take count (drop (page * count) results))
  unfolding page_of
  page_of_lem pos fits short = ground (
    arith,
    slice_from_lem (page * count),
    drop-all (page * count) results,
    take-all count (drop (page * count) results),
  )

  pub page_of-negative :
      0 < count
      → count < 2 ^ 63
      → 2 ^ 63 ≤ (page * count) % 2 ^ 64
      → page_of count page results ≡ panic
  unfolding page_of slice_from slice
  page_of-negative pos small negative = ground arith

  pub page_of-unpaged : (count ≡ 0) ⊎ (2 ^ 63 ≤ count) → page_of count page results ≡ ok results
  unfolding page_of
  page_of-unpaged h = ground arith

module _ {A : Type 0} (count : ℕ) (results : List A) where
  pages-drop :
      (n k : ℕ)
      → 0 < count
      → (k + n) * count < 2 ^ 63
      → length results < 2 ^ 63
      → length results ≤ (k + n) * count
      → pages n k count results ≡ ok (drop (k * count) results)
  unfolding pages
  pages-drop zero k pos fits short all = ap ok (sym (drop-all (k * count) results (omega arith)))
  pages-drop (suc n) k pos fits short all =
      let here : k * count + count ≡ suc k * count = omega arith in
      rw
        (
          page_of_lem count k results pos (omega arith) short,
          pages-drop n (suc k) pos (omega arith) short (omega arith),
        )
        (ap ok (
          subst (λ rest. take count (drop (k * count) results) ++ rest ≡ drop (k * count) results)
            (drop-drop count (k * count) (suc k * count) results (omega arith))
            (take-append-drop count (drop (k * count) results))))

  -- The pages together.
  pub pages_cover :
      (n : ℕ)
      → 0 < count
      → n * count < 2 ^ 63
      → length results ≤ n * count
      → pages n 0 count results ≡ ok results
  pages_cover n pos fits all =
      let start : 0 * count ≡ 0 = omega arith in
      subst (λ m. pages n 0 count results ≡ ok (drop m results)) start
        (pages-drop n 0 pos (omega arith) (omega arith) (omega arith))

-- The same search for another page.
abbrev pub with_page : ℕ → ℕ → QueryOptions → QueryOptions
with_page count page o = record o {
  constrain = record (o.constrain) { count = count; page = page };
}

effective_options-with_page :
    (count page : ℕ) (o : QueryOptions)
    → effective_options (some (with_page count page o))
      ≡ with_page count page (effective_options (some o))
unfolding effective_options
effective_options-with_page count page o =
    elim (Bool-cases (o.returned.entries || o.returned.hashes || o.returned.headers)) [
      | inl asked ↦ rw asked refl
      | inr unasked ↦ rw unasked refl
    ]

module _ (lib : Library) (zomes : List Zome) (count page : ℕ) (o : QueryOptions) where
  has_content-with_page :
      (def : Option EntryDef) (e : Option Content)
      → has_content lib (with_page count page o).constrain def e ≡ has_content lib o.constrain def e
  unfolding has_content
  has_content-with_page none e = refl
  has_content-with_page (some def) none = refl
  has_content-with_page (some def) (some (text s)) = refl
  has_content-with_page (some def) (some (raw s)) = refl
  has_content-with_page (some def) (some (other n)) = refl

  is_selected-with_page :
      (hd : Header) (e : Option Content)
      → is_selected lib zomes (with_page count page o).constrain hd e
        ≡ is_selected lib zomes o.constrain hd e
  unfolding is_selected has_type
  is_selected-with_page hd e =
      >>=_cong (get_entry_def hd.type zomes) _ _ λ def. rw (has_content-with_page def e) refl

  query_round-with_page :
      (hd : Header) (e : Option Content) (results : List QueryResult)
      → query_round lib zomes (with_page count page o) hd e results
        ≡ query_round lib zomes o hd e results
  unfolding query_round query_result
  query_round-with_page hd e results = rw (is_selected-with_page hd e) refl

  query_from-with_page :
      (entries : List Content) (hds : List Header) (i : ℕ) (results : List QueryResult)
      → query_from lib zomes (with_page count page o) entries hds i results
        ≡ query_from lib zomes o entries hds i results
  unfolding query_from
  query_from-with_page entries [] i results = refl
  query_from-with_page entries (hd ∷ hds) i results =
      rw (query_round-with_page hd (get_elem? entries i) results) (
        >>=_cong (query_round lib zomes o hd (get_elem? entries i) results) _ _
          λ results'. query_from-with_page entries hds (suc i) results')

-- A page of the search is cut out of all results.
query-with_page :
    (lib : Library) (zomes : List Zome) (count page : ℕ) (o : QueryOptions) (c : Chain)
    → query lib zomes (some (with_page count page o)) c
      ≡ (query lib zomes (some (with_page 0 0 o)) c >>= page_of count page)
unfolding query
query-with_page lib zomes count page o c =
    let o' = effective_options (some o) in
    rw (effective_options-with_page count page o, effective_options-with_page 0 0 o)
      (rw
        (
          query_from-with_page lib zomes count page o' c.entries c.headers 0 [],
          query_from-with_page lib zomes 0 0 o' c.entries c.headers 0 [],
        )
        (sym (
          >>=_assoc (query_from lib zomes o' c.entries c.headers 0 []) (page_of 0 0)
            (page_of count page)
          ∙ >>=_cong (query_from lib zomes o' c.entries c.headers 0 []) _ _
              λ results. rw (page_of-unpaged 0 0 results (inl refl)) refl)))

-- The searches for the pages from number `k` on, `n` of them, with their results put together.
unfoldable pub query_pages :
    Library → List Zome → ℕ → ℕ → ℕ → QueryOptions → Chain → Result (List QueryResult)
unfolding query
query_pages lib zomes count zero k o c = ok []
query_pages lib zomes count (suc n) k o c = do
  now ← query lib zomes (some (with_page count k o)) c
  later ← query_pages lib zomes count n (suc k) o c
  ok (now ++ later)

module _ (lib : Library) (zomes : List Zome) (count : ℕ) (o : QueryOptions) (c : Chain)
    (results : List QueryResult)
    (whole : query lib zomes (some (with_page 0 0 o)) c ≡ ok results) where
  query_pages-pages : (n k : ℕ) → query_pages lib zomes count n k o c ≡ pages n k count results
  unfolding query_pages pages
  query_pages-pages zero k = refl
  query_pages-pages (suc n) k =
      rw (query-with_page lib zomes count k o c, whole, query_pages-pages n (suc k)) refl

  -- If the query without a count returns results, then the pages of a positive count from the
  -- first on, together, are those results, where they have that much room and its bound is below
  -- 2^63.
  pub query_pages-cover :
      (n : ℕ)
      → 0 < count
      → n * count < 2 ^ 63
      → length results ≤ n * count
      → query_pages lib zomes count n 0 o c ≡ ok results
  query_pages-cover n pos fits all =
      query_pages-pages n 0 ∙ pages_cover count results n pos fits all

  -- If the query without a count returns results, then the query with a positive count panics for
  -- every page whose product with the count is negative as an `int`.
  pub query-negative_page :
      (page : ℕ)
      → 0 < count
      → count < 2 ^ 63
      → 2 ^ 63 ≤ (page * count) % 2 ^ 64
      → query lib zomes (some (with_page count page o)) c ≡ panic
  query-negative_page page pos small negative =
      rw (query-with_page lib zomes count page o c, whole)
        (page_of-negative count page results pos small negative)
