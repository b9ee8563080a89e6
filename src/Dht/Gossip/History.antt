-- ===== src/Dht/Gossip/History.antt =====
-- gossip.go: the log of a store over any sequence of changes, what `GetIdxMessage` and
-- `HaveFingerprint` return.
use holochain.Base.{
  Bytes, ℕ, ◌+◌, true, some, ◌≡◌, inl, inr, some_injective, arith, subst, sym, ◌∙◌, ap,
}
use holochain.Base.Map.{lookup, lookup-insert_same}
use holochain.Base.Result.{ok, no_such_idx, or_err-eq-ok, or_err}
use holochain.Hash.{Hash, hash_string}
use holochain.Kad.Bucket.{PeerId}
use holochain.Dht.Store.{Db, Codec, Message, empty_db, put}
use holochain.Dht.Store.Effects.{stored, inc_idx-logged, put-stored}
use holochain.Dht.Gossip.{
  is_some, find_message, get_idx, get_idx_message, get_fingerprint, have_fingerprint,
}
use holochain.Dht.Gossip.Index.{
  SameLog, IsLog, IsIndexed, Logs, empty_db-IsIndexed, IsIndexed-Logs, find_message-here,
  find_message-apart,
}
use holochain.Dht.Gossip.Changes.{Change, Change-Logs}

module _ (x : Codec) where
  pub data Reaches : Db → Db → Type 0 where
    here : (a : Db) → Reaches a a
    more : (a b c : Db) → Reaches a b → Change x b c → Reaches a c

  pub Reaches-trans : (a b c : Db) → Reaches a b → Reaches b c → Reaches a c
  Reaches-trans a b c r (here d) = r
  Reaches-trans a b c r (more d e f t u) = more a e f (Reaches-trans a d e r t) u

  pub IsIndexed-Reaches : (a b : Db) → Reaches a b → IsIndexed x a → IsIndexed x b
  IsIndexed-Reaches a b (here c) h = h
  IsIndexed-Reaches a b (more c d e r s) h =
      IsIndexed-Logs x d e (Change-Logs x d e s) (IsIndexed-Reaches c d r h)

  -- In any store that is reached from the empty one by put, del, mod, putLink, delLink and changes
  -- of gossipers, failed ones included, the messages are numbered from 1 to the index without a
  -- gap and each fingerprint leads to a message with that fingerprint.
  pub Reaches-IsIndexed : (db : Db) → Reaches empty_db db → IsIndexed x db
  Reaches-IsIndexed db r = IsIndexed-Reaches empty_db db r (empty_db-IsIndexed x)

  pub find_message-Logs :
      (a b : Db) (i : ℕ) {m : Message}
      → IsIndexed x a
      → Logs x a b
      → find_message i a.messages ≡ some m
      → find_message i b.messages ≡ some m
  unfolding Logs SameLog IsLog
  find_message-Logs a b i h (inl (p, q, r)) g = ap (find_message i) q ∙ g
  find_message-Logs a b i {m} (bounds, total, marks) (inr (n, f, e, (p, q, r))) g =
      ap (find_message i) q
      ∙ find_message-apart (a.idx + 1) i n a.messages (ground (arith, bounds i m g))
      ∙ g

  pub find_message-Reaches :
      (a b : Db) (i : ℕ) {m : Message}
      → Reaches a b
      → IsIndexed x a
      → find_message i a.messages ≡ some m
      → find_message i b.messages ≡ some m
  find_message-Reaches a b i (here c) h g = g
  find_message-Reaches a b i (more c d e r s) h g =
      find_message-Logs d e i (IsIndexed-Reaches c d r h) (Change-Logs x d e s)
        (find_message-Reaches c d i r h g)

  -- In a store built from the empty one, what `GetIdxMessage` returns for a number it returns
  -- after any further changes too.
  pub get_idx_message-Reaches :
      (a b : Db) (i : ℕ) (m : Message)
      → Reaches empty_db a
      → Reaches a b
      → get_idx_message i a ≡ ok m
      → get_idx_message i b ≡ ok m
  unfolding get_idx_message
  get_idx_message-Reaches a b i m built r g =
      ap (λ o. or_err o no_such_idx)
        (find_message-Reaches a b i r (Reaches-IsIndexed a built)
          (or_err-eq-ok (find_message i a.messages) no_such_idx g))

  -- A successful `put` of a message raises the index by one, `GetIdxMessage` returns the message
  -- at the new index, and `HaveFingerprint` knows its fingerprint.
  pub get_idx_message-put :
      (m : Message) (entry_type : Bytes) (key : Hash) (src : PeerId) (value : Bytes) (status : ℕ)
      (db : Db) {db' : Db}
      → put x (some m) entry_type key src value status db ≡ (ok tt, db')
      → (get_idx db' ≡ get_idx db + 1)
        × (get_idx_message (get_idx db') db' ≡ ok m)
        × ((f : Hash) → x.fingerprint m ≡ some f → have_fingerprint x f db' ≡ true)
  unfolding get_idx get_idx_message have_fingerprint get_fingerprint
  get_idx_message-put m entry_type key src value status db {db'} h =
      let (db1, p, q) = put-stored x (some m) entry_type key src value status db h in
      let (f, a, b, e) = inc_idx-logged x m db p in
      let k = hash_string x.b58 f in
      let whole = q ∙ ap (stored x (hash_string x.b58 key) entry_type src value status) e in
      let marks = lookup-insert_same k (db.idx + 1) db.fingerprints in
      let same = λ (g : Hash) (c : x.fingerprint m ≡ some g). some_injective (sym b ∙ c) in
      (
        ap (λ d. d.idx) whole,
        subst (λ d. get_idx_message (get_idx d) d ≡ ok m) (sym whole)
            (ap (λ o. or_err o no_such_idx) (find_message-here (db.idx + 1) m db.messages)),
        λ g c.
            subst (λ f. have_fingerprint x f db' ≡ true) (same g c)
              (ap (λ d. is_some (lookup k d.fingerprints)) whole ∙ ap is_some marks),
      )
