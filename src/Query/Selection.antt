-- ===== src/Query/Selection.antt =====
-- holochain.go, `Query`: which entries of the chain are found, and in which order.
use mathlib.Core.List.{reverse_aux, append_assoc, append-nil}
use holochain.Base.{
  Bytes, ℕ, suc, List, [], ◌∷◌, ◌++◌, Bool, true, false, ◌&&◌, ◌||◌, Option, none, some, ◌≡◌, refl,
  ap, ◌∙◌, ◌≢◌, arith, if◌then◌else◌, length, bytes_equal, length-snoc, subst, sym,
  get_elem?-middle, Bool-cases, inl, inr,
}
use holochain.Base.Result.{Result, ok}
use holochain.Platform.{Content, text, raw, other}
use holochain.Header.{Header}
use holochain.Entry.{EntryDef, data_format_json}
use holochain.Chain.{Chain}
use holochain.Zome.{Zome, get_entry_def}
use holochain.Query.Fields.{Library, has_substring, unless_empty, text_meets}
use holochain.Query.{
  QueryConstrain, QueryOptions, QueryResult, effective_options, is_listed, is_set, has_type,
  has_content, is_selected, query_result, add_result, query_round, query_from, page_of, query,
}

-- `f s`, unless the constraint is empty.
abbrev pub or_any : Bytes → Bool → Bool
or_any [] b = true
or_any (c ∷ cs) b = b

abbrev pub is_any_of : List Bytes → Bytes → Bool
is_any_of [] t = true
is_any_of (et ∷ ets) t = is_listed t (et ∷ ets)

-- What the constraints ask of a content, where `re` is the compiled expression. Only a text is looked
-- into.
abbrev pub content_meets : QueryConstrain → (Bytes → Bool) → Content → Bool
content_meets q re (text s) =
    or_any q.equals (bytes_equal s q.equals)
    && (or_any q.contains (has_substring s q.contains) && or_any q.matches (re s))
content_meets q re (raw b) = true
content_meets q re (other n) = true

-- What they ask of an entry with the type `t`.
abbrev pub meets : QueryConstrain → (Bytes → Bool) → Bytes → Content → Bool
meets q re t e = is_any_of q.entry_types t && content_meets q re e

abbrev pub asks_content : QueryConstrain → Bool
asks_content q = is_set q.equals || is_set q.contains || is_set q.matches

-- An entry whose content is not looked into, since its type is not asked for or nothing is asked of
-- contents, or is a text that is not JSON.
pub data IsReadable (q : QueryConstrain) (def : EntryDef) (t : Bytes) (e : Content) : Type 0 where
  not_asked : is_any_of q.entry_types t ≡ false → IsReadable q def t e
  unread : asks_content q ≡ false → IsReadable q def t e
  plain :
      (s : Bytes)
      → e ≡ text s
      → bytes_equal def.data_format data_format_json ≡ false
      → IsReadable q def t e

-- Entries that can be read, of types that are defined.
pub data AreReadable (zomes : List Zome) (q : QueryConstrain)
    : List Header → List Content → Type 0 where
  nil : AreReadable zomes q [] []
  cons :
      {hds : List Header} {es : List Content}
      → (hd : Header) (e : Content) (def : EntryDef) → get_entry_def hd.type zomes ≡ ok (some def)
      → IsReadable q def hd.type e
      → AreReadable zomes q hds es
      → AreReadable zomes q (hd ∷ hds) (e ∷ es)

abbrev pub result_of : QueryOptions → Header → Content → QueryResult
result_of o hd e = record { header = hd; entry = if o.returned.entries then some e else none }

-- The results that the query is to find, in the order of the chain.
abbrev pub found : QueryOptions → (Bytes → Bool) → List Header → List Content → List QueryResult
found o re [] es = []
found o re (hd ∷ hds) [] = []
found o re (hd ∷ hds) (e ∷ es) =
    let rest = found o re hds es in
    if meets o.constrain re hd.type e then result_of o hd e ∷ rest else rest

-- `Ascending` turns the order of the chain around.
abbrev pub in_order {ℓ} : {A : Type ℓ} → Bool → List A → List A → List A
in_order true results more = reverse_aux more results
in_order false results more = results ++ more

unless_empty-or_any :
    (c : Bytes) (b b' : Bool) (test rest : Result Bool)
    → (c ≢ [] → test ≡ ok b)
    → rest ≡ ok b'
    → unless_empty c test rest ≡ ok (or_any c b && b')
unfolding unless_empty
unless_empty-or_any [] b b' test rest h k = k
unless_empty-or_any (x ∷ c) b b' test rest h k = rw (h (λ e. cc), k) (ground arith)

text_meets_lem :
    (lib : Library) (q : QueryConstrain) (re : Bytes → Bool) (s : Bytes)
    → (q.matches ≢ [] → lib.compile q.matches ≡ some re)
    → text_meets lib q.equals q.contains q.matches s
      ≡ ok (
          or_any q.equals (bytes_equal s q.equals)
          && (or_any q.contains (has_substring s q.contains) && (or_any q.matches (re s) && true)))
unfolding text_meets
text_meets_lem lib q re s h =
    unless_empty-or_any q.equals _ _ _ _ (λ n. refl)
      (unless_empty-or_any q.contains _ _ _ _ (λ n. refl)
        (unless_empty-or_any q.matches _ _ _ _ (λ n. rw (h n) refl) refl))

-- The test for an empty constraint changes nothing.
if_any_set :
    (a b c : Bytes) (x y z : Bool) (r : Result Bool)
    → r ≡ ok (or_any a x && (or_any b y && (or_any c z && true)))
    → (if is_set a || is_set b || is_set c then r else ok true)
      ≡ ok (or_any a x && (or_any b y && or_any c z))
if_any_set [] [] [] x y z r h = refl
if_any_set [] [] (k ∷ c) x y z r h = rw h (ground arith)
if_any_set [] (k ∷ b) [] x y z r h = rw h (ground arith)
if_any_set [] (k ∷ b) (k' ∷ c) x y z r h = rw h (ground arith)
if_any_set (k ∷ a) [] [] x y z r h = rw h (ground arith)
if_any_set (k ∷ a) [] (k' ∷ c) x y z r h = rw h (ground arith)
if_any_set (k ∷ a) (k' ∷ b) [] x y z r h = rw h (ground arith)
if_any_set (k ∷ a) (k' ∷ b) (k'' ∷ c) x y z r h = rw h (ground arith)

-- Where no constraint is set, any content meets them.
unset_meets :
    (a b c : Bytes) (x y z : Bool)
    → (is_set a || is_set b || is_set c) ≡ false
    → (or_any a x && (or_any b y && or_any c z)) ≡ true
unset_meets [] [] [] x y z h = refl
unset_meets [] [] (k ∷ c) x y z h = cc
unset_meets [] (k ∷ b) c x y z h = cc
unset_meets (k ∷ a) b c x y z h = cc

content_meets-unset :
    (q : QueryConstrain) (re : Bytes → Bool) (e : Content)
    → asks_content q ≡ false
    → content_meets q re e ≡ true
content_meets-unset q re (text s) h = unset_meets q.equals q.contains q.matches _ _ _ h
content_meets-unset q re (raw b) h = refl
content_meets-unset q re (other n) h = refl

has_type_lem : (q : QueryConstrain) (t : Bytes) → has_type q t ≡ is_any_of q.entry_types t
unfolding has_type
has_type_lem q t = of_types q.entry_types
  where
    of_types :
        (ets : List Bytes)
        → elim ets [ [] ↦ true | et ∷ rest ↦ is_listed t (et ∷ rest) ] ≡ is_any_of ets t
    of_types [] = refl
    of_types (et ∷ ets) = refl

query_result_lem :
    (o : QueryOptions) (hd : Header) (e : Content)
    → query_result o hd (some e) ≡ ok (result_of o hd e)
unfolding query_result
query_result_lem o hd e = elim (Bool-cases o.returned.entries) [
  | inl asked ↦ rw asked refl
  | inr unasked ↦ rw unasked refl
]

if_type :
    (b : Bool) {r : Result Bool} {m : Bool} → r ≡ ok m → (if b then r else ok false) ≡ ok (b && m)
if_type true h = h
if_type false h = refl

if_ok {ℓ} : {A : Type ℓ} (b : Bool) (x y : A) → (if b then ok x else ok y) ≡ ok (if b then x else y)
if_ok true x y = refl
if_ok false x y = refl

in_order-nil {ℓ} : {A : Type ℓ} (b : Bool) (results : List A) → results ≡ in_order b results []
in_order-nil true results = refl
in_order-nil false results = sym (append-nil results)

in_order-cons :
    (b m : Bool) (qr : QueryResult) (results more : List QueryResult)
    → in_order b (if m then add_result b qr results else results) more
      ≡ in_order b results (if m then qr ∷ more else more)
unfolding add_result
in_order-cons true true qr results more = refl
in_order-cons true false qr results more = refl
in_order-cons false true qr results more = append_assoc results (qr ∷ []) more
in_order-cons false false qr results more = refl

module _ (lib : Library) (zomes : List Zome) (o : QueryOptions) (re : Bytes → Bool) where
  module _ (compiles : o.constrain.matches ≢ [] → lib.compile o.constrain.matches ≡ some re) where
    is_selected-meets :
        (hd : Header) (e : Content) (def : EntryDef)
        → get_entry_def hd.type zomes ≡ ok (some def)
        → IsReadable o.constrain def hd.type e
        → is_selected lib zomes o.constrain hd (some e) ≡ ok (meets o.constrain re hd.type e)
    unfolding is_selected has_content
    is_selected-meets hd e def known (not_asked apart) =
        rw (known, has_type_lem o.constrain hd.type, apart) refl
    is_selected-meets hd e def known (unread none_set) =
        rw (known, has_type_lem o.constrain hd.type)
          (if_type (is_any_of o.constrain.entry_types hd.type)
            (rw (none_set, content_meets-unset o.constrain re e none_set) refl))
    is_selected-meets hd e def known (plain s same not_json) =
        let q = o.constrain in
        rw (same, known, not_json, has_type_lem q hd.type)
          (if_type (is_any_of q.entry_types hd.type)
            (if_any_set q.equals q.contains q.matches _ _ _ _ (text_meets_lem lib q re s compiles)))

    query_round_lem :
        (hd : Header) (e : Content) (def : EntryDef) (results : List QueryResult)
        → get_entry_def hd.type zomes ≡ ok (some def)
        → IsReadable o.constrain def hd.type e
        → query_round lib zomes o hd (some e) results
          ≡ ok (
              if meets o.constrain re hd.type e
              then add_result o.ascending (result_of o hd e) results
              else results)
    unfolding query_round
    query_round_lem hd e def results known readable =
        rw (is_selected-meets hd e def known readable, query_result_lem o hd e)
          (if_ok (meets o.constrain re hd.type e) _ _)

    query_from-found :
        (hds : List Header) (es pre : List Content) (i : ℕ) (results : List QueryResult)
        → AreReadable zomes o.constrain hds es
        → i ≡ length pre
        → query_from lib zomes o (pre ++ es) hds i results
          ≡ ok (in_order o.ascending results (found o re hds es))
    unfolding query_from
    query_from-found [] [] pre i results nil h = ap ok (in_order-nil o.ascending results)
    query_from-found [] (_ ∷ es) pre i results all h = elim all [ ]
    query_from-found (hd ∷ hds) [] pre i results all h = elim all [ ]
    query_from-found (hd ∷ hds) (e ∷ es) pre i results (cons _ _ def known readable rest) h =
        let qr = result_of o hd e in
        let m = meets o.constrain re hd.type e in
        let results' = if m then add_result o.ascending qr results else results in
        let tail : query_from lib zomes o (pre ++ e ∷ es) hds (suc i) results'
            ≡ ok (in_order o.ascending results' (found o re hds es)) =
          subst
            (λ all.
              query_from lib zomes o all hds (suc i) results'
              ≡ ok (in_order o.ascending results' (found o re hds es)))
            (append_assoc pre (e ∷ []) es)
            (query_from-found hds es (pre ++ e ∷ []) (suc i) results' rest
              (omega (arith, length-snoc pre e))) in
        rw (get_elem?-middle pre es e i h, query_round_lem hd e def results known readable)
          (tail ∙ ap ok (in_order-cons o.ascending m qr results (found o re hds es)))

    -- Where the type of every entry of the chain has a definition, every entry of an asked type
    -- is, unless nothing is asked of contents, a text that is not JSON, and the expression to
    -- match compiles, `Query` finds exactly the entries of an asked type that equal, contain and
    -- match what is asked for, in the order of the chain, or in the reverse one for `Ascending`,
    -- and returns the page asked for of them.
    pub query-found :
        (options : Option QueryOptions) (c : Chain)
        → effective_options options ≡ o
        → AreReadable zomes o.constrain c.headers c.entries
        → query lib zomes options c
          ≡ page_of o.constrain.count o.constrain.page
              (in_order o.ascending [] (found o re c.headers c.entries))
    unfolding query
    query-found options c e readable =
        rw (e, query_from-found c.headers c.entries [] 0 [] readable refl) refl
