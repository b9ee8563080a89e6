-- ===== src/Dht/Gossip/Exchange/Log.antt =====
-- gossip.go: the order of the messages of a store.
use holochain.Base.{ℕ, suc, List, [], ◌∷◌, ◌≡◌, refl, inl, inr, arith, subst, sym, ap, length}
use holochain.Dht.Store.{Db, Codec, Message, empty_db}
use holochain.Dht.Store.Effects.{logged}
use holochain.Dht.Gossip.Index.{SameLog, Logs}
use holochain.Dht.Gossip.Changes.{Change-Logs}
use holochain.Dht.Gossip.History.{Reaches, here, more}

-- The numbers fall by one from message to message, down to 1.
unfoldable pub IsCountdown : List (ℕ × Message) → Type 0
IsCountdown [] = Unit {0}
IsCountdown ((i, m) ∷ ms) = (i ≡ suc (length ms)) × IsCountdown ms

pub record IsOrdered (db : Db) : Type 0 where
  pub countdown : IsCountdown db.messages
  pub total : length db.messages ≡ db.idx

pub empty_db-IsOrdered : IsOrdered empty_db
unfolding IsCountdown
empty_db-IsOrdered = record { countdown = tt; total = refl }

pub IsOrdered-Same : (a b : Db) → SameLog a b → IsOrdered a → IsOrdered b
unfolding SameLog
IsOrdered-Same a b (p, q, r) h = record {
  countdown = subst IsCountdown (sym q) h.countdown;
  total = omega (arith, ap length q, p, h.total);
}

module _ (x : Codec) where
  pub IsOrdered-Logs : (a b : Db) → Logs x a b → IsOrdered a → IsOrdered b
  unfolding Logs IsCountdown
  IsOrdered-Logs a b (inl same) h = IsOrdered-Same a b same h
  IsOrdered-Logs a b (inr (m, f, e, same)) h =
      IsOrdered-Same (logged x m f a) b same (record {
        countdown = (omega (arith, h.total), h.countdown);
        total = omega (arith, h.total);
      })

  pub IsOrdered-Reaches : (a b : Db) → Reaches x a b → IsOrdered a → IsOrdered b
  IsOrdered-Reaches a b (here c) h = h
  IsOrdered-Reaches a b (more c d e r s) h =
      IsOrdered-Logs d e (Change-Logs x d e s) (IsOrdered-Reaches c d r h)
