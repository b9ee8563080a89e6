-- ===== src/Dht/Gossip/Index.antt =====
-- gossip.go and dht.go: the log of messages under every change of the store.
use holochain.Base.{
  Bytes, ℕ, ◌+◌, ◌≤◌, ◌<◌, List, ◌∷◌, false, Option, none, some, ◌==◌, ◌≡◌, refl, ◌⊎◌, inl, inr,
  Bool-cases, arith, subst, sym, ◌∙◌, ap,
}
use holochain.Base.Map.{Map, lookup, insert, insert-cases}
use holochain.Base.Result.{Result, ok, err, panic, ok_injective}
use holochain.Hash.{Hash, hash_string}
use holochain.Dht.Store.{Db, Codec, Message, empty_db, commit, inc_idx}
use holochain.Dht.Store.Effects.{logged, inc_idx-logged}
use holochain.Dht.Gossip.{find_message}

unfoldable pub SameLog : Db → Db → Type 0
SameLog a b = (b.idx ≡ a.idx) × (b.messages ≡ a.messages) × (b.fingerprints ≡ a.fingerprints)

pub find_message-here :
    (n : ℕ) (m : Message) (ms : List (ℕ × Message)) → find_message n ((n, m) ∷ ms) ≡ some m
unfolding find_message
find_message-here n m ms = ground arith

pub find_message-apart :
    (n i : ℕ) (m : Message) (ms : List (ℕ × Message))
    → (n == i) ≡ false
    → find_message i ((n, m) ∷ ms) ≡ find_message i ms
unfolding find_message
find_message-apart n i m ms h = ground arith

module _ (x : Codec) where
  -- The messages have the numbers from 1 to `n`, and a fingerprint leads to its message.
  unfoldable pub IsLog : ℕ → List (ℕ × Message) → Map ℕ → Type 0
  IsLog n ms marks =
      ((i : ℕ) (m : Message) → find_message i ms ≡ some m → (0 < i) × (i ≤ n))
      × ((i : ℕ) → 0 < i → i ≤ n → (m : Message) × (find_message i ms ≡ some m))
      × ((k : Bytes) (i : ℕ)
          → lookup k marks ≡ some i
          → (m : Message) × (f : Hash) × (find_message i ms ≡ some m)
            × (x.fingerprint m ≡ some f)
            × (hash_string x.b58 f ≡ k))

  abbrev pub IsIndexed : Db → Type 0
  IsIndexed db = IsLog db.idx db.messages db.fingerprints

  -- A change logs nothing, or one message at the next number.
  unfoldable pub Logs : Db → Db → Type 0
  Logs a b =
      SameLog a b
      ⊎ ((m : Message) × (f : Hash) × (x.fingerprint m ≡ some f) × SameLog (logged x m f a) b)

  pub inc_idx-Logs :
      (m : Option Message) (db : Db) {db' : Db} → inc_idx x m db ≡ ok db' → Logs db db'
  unfolding inc_idx Logs SameLog
  inc_idx-Logs none db h = inl (subst (SameLog db) (ok_injective h) (refl, refl, refl))
  inc_idx-Logs (some m) db h =
      let (f, a, b, e) = inc_idx-logged x m db h in
      inr (m, f, b, subst (SameLog (logged x m f db)) (sym e) (refl, refl, refl))

  pub Logs-then : (a b c : Db) → Logs a b → SameLog b c → Logs a c
  unfolding Logs SameLog
  Logs-then a b c (inl (p, q, r)) (s, t, u) = inl (s ∙ p, t ∙ q, u ∙ r)
  Logs-then a b c (inr (m, f, e, (p, q, r))) (s, t, u) = inr (m, f, e, (s ∙ p, t ∙ q, u ∙ r))

  pub Logs-after : (a b c : Db) → SameLog a b → Logs b c → Logs a c
  unfolding Logs SameLog
  Logs-after a b c (s, t, u) (inl (p, q, r)) = inl (p ∙ s, q ∙ t, r ∙ u)
  Logs-after a b c (s, t, u) (inr (m, f, e, (p, q, r))) =
      inr (m, f, e, (p ∙ ap (λ n. n + 1) s, cc, cc))

  pub commit-Logs :
      (db : Db) (r : Result Db) → ((d : Db) → r ≡ ok d → Logs db d) → Logs db (commit db r).1
  unfolding Logs SameLog
  commit-Logs db (ok d) h = h d refl
  commit-Logs db (err e) h = inl (refl, refl, refl)
  commit-Logs db panic h = inl (refl, refl, refl)

  pub empty_db-IsIndexed : IsIndexed empty_db
  unfolding IsLog find_message lookup
  empty_db-IsIndexed =
      (λ i m h. absurd (cc h), λ i p q. absurd (omega arith), λ k i h. absurd (cc h))

  pub IsIndexed-Same : (a b : Db) → SameLog a b → IsIndexed a → IsIndexed b
  unfolding SameLog
  IsIndexed-Same a b (p, q, r) h =
      subst (λ n. IsLog n b.messages b.fingerprints) (sym p)
        (subst (λ ms. IsLog a.idx ms b.fingerprints) (sym q)
          (subst (IsLog a.idx a.messages) (sym r) h))

  pub IsLog-logged :
      (n : ℕ) (ms : List (ℕ × Message)) (marks : Map ℕ) (m : Message) (f : Hash)
      → x.fingerprint m ≡ some f
      → IsLog n ms marks
      → IsLog (n + 1) ((n + 1, m) ∷ ms) (insert (hash_string x.b58 f) (n + 1) marks)
  unfolding IsLog find_message
  IsLog-logged n ms marks m f e (bounds, total, leads) = (
    λ i o h. ground (arith, bounds i o),
    λ i h k. elim (Bool-cases (n + 1 == i)) [
      | inl same ↦ (m, ground arith)
      | inr apart ↦
          let (o, p) = total i h (ground arith) in (o, find_message-apart (n + 1) i m ms apart ∙ p)
    ],
    λ k i h. elim (insert-cases (hash_string x.b58 f) (n + 1) marks k h) [
      | inl (same, last) ↦ (
        m,
        f,
        subst (λ i. find_message i ((n + 1, m) ∷ ms) ≡ some m) (sym last)
            (find_message-here (n + 1) m ms),
        e,
        same,
      )
      | inr old ↦
          let (o, g, p, q, r) = leads k i old in
          (o, g, find_message-apart (n + 1) i m ms (ground (arith, bounds i o p)) ∙ p, q, r)
    ],
  )

  pub IsIndexed-Logs : (a b : Db) → Logs a b → IsIndexed a → IsIndexed b
  unfolding Logs
  IsIndexed-Logs a b (inl same) h = IsIndexed-Same a b same h
  IsIndexed-Logs a b (inr (m, f, e, same)) h =
      IsIndexed-Same (logged x m f a) b same (IsLog-logged a.idx a.messages a.fingerprints m f e h)
