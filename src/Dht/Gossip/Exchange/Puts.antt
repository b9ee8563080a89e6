-- ===== src/Dht/Gossip/Exchange/Puts.antt =====
-- gossip.go: what `GetPuts` returns.
use holochain.Base.{
  ℕ, suc, ◌+◌, ◌-◌, ◌≤◌, ◌<◌, List, [], ◌∷◌, ◌++◌, false, not, ◌&&◌, some, ◌≡◌, refl, inl, inr,
  Bool-cases, leb, arith, length, length-snoc, get_elem?, get_elem?-snoc,
}
use holochain.Dht.Store.{Message}
use holochain.Dht.Gossip.{find_message}
use holochain.Dht.Gossip.Exchange.{Put, Order, rune_string, insert_put, sort_puts, ascend_puts}
use holochain.Dht.Gossip.Exchange.Log.{IsCountdown}

-- Every index is below a bound.
unfoldable pub IsBelow : ℕ → List Put → Type 0
IsBelow n [] = Unit {0}
IsBelow n ((i, m) ∷ ps) = (i < n) × IsBelow n ps

IsBelow-up : (n k : ℕ) (ps : List Put) → n ≤ k → IsBelow n ps → IsBelow k ps
unfolding IsBelow
IsBelow-up n k [] h b = tt
IsBelow-up n k ((i, m) ∷ ps) h (p, b) = (omega arith, IsBelow-up n k ps h b)

insert_put-IsBelow :
    (n i : ℕ) (m : Message) (ps : List Put)
    → i < n
    → IsBelow n ps
    → IsBelow n (insert_put (i, m) ps)
unfolding IsBelow insert_put
insert_put-IsBelow n i m [] h b = (h, tt)
insert_put-IsBelow n i m ((j, k) ∷ ps) h (p, b) = ground (arith, insert_put-IsBelow n i m ps h b)

sort_puts-IsBelow : (n : ℕ) (ps : List Put) → IsBelow n ps → IsBelow n (sort_puts ps)
unfolding IsBelow sort_puts
sort_puts-IsBelow n [] b = tt
sort_puts-IsBelow n ((i, m) ∷ ps) (p, b) =
    insert_put-IsBelow n i m (sort_puts ps) p (sort_puts-IsBelow n ps b)

-- A put above all others goes to the end.
insert_put-last :
    (n : ℕ) (m : Message) (ps : List Put) → IsBelow n ps → insert_put (n, m) ps ≡ ps ++ (n, m) ∷ []
unfolding IsBelow insert_put
insert_put-last n m [] b = refl
insert_put-last n m ((j, k) ∷ ps) (p, b) = ground (arith, insert_put-last n m ps b)

module _ (o : Order) (since : ℕ) where
  -- The index leads to the message: its value is not below the pivot.
  abbrev pub IsReached : Message → Type 0
  IsReached m = o.less (o.encoded m) (rune_string since) ≡ false

  -- The index leads to every message of the list.
  abbrev pub AreReached : List Put → Type 0
  AreReached [] = Unit {0}
  AreReached ((i, m) ∷ ms) = IsReached m × AreReached ms

  ascend_puts-IsBelow :
      (ms : List Put) → IsCountdown ms → IsBelow (suc (length ms)) (ascend_puts o since ms)
  unfolding IsBelow IsCountdown ascend_puts
  ascend_puts-IsBelow [] c = tt
  ascend_puts-IsBelow ((i, m) ∷ ms) (p, c) =
      let rest =
        IsBelow-up (suc (length ms)) (suc (suc (length ms))) (ascend_puts o since ms) (omega arith)
          (ascend_puts-IsBelow ms c) in
      elim (Bool-cases (not (o.less (o.encoded m) (rune_string since)) && leb since i)) [
        | inl t ↦ rw t (omega arith, rest)
        | inr f ↦ rw f rest
      ]

  -- The messages from `since` on, in the order of their numbers.
  unfoldable pub IsRun : List Put → List Put → Type 0
  IsRun ms puts =
      (length puts ≡ suc (length ms) - since)
      × ((i : ℕ) (m : Message)
          → find_message (since + i) ms ≡ some m
          → get_elem? puts i ≡ some (since + i, m))

  IsRun-snoc :
      (ms puts : List Put) (m : Message)
      → since ≤ suc (length ms)
      → IsRun ms puts
      → IsRun ((suc (length ms), m) ∷ ms) (puts ++ (suc (length ms), m) ∷ [])
  unfolding IsRun find_message
  IsRun-snoc ms puts m h (total, reads) = (
    omega (arith, total, length-snoc puts (suc (length ms), m)),
    λ j n e. ground (arith, get_elem?-snoc puts (suc (length ms), m) j, total, reads j n, h),
  )

  IsRun-skip :
      (ms puts : List Put) (m : Message)
      → suc (length ms) < since
      → IsRun ms puts
      → IsRun ((suc (length ms), m) ∷ ms) puts
  unfolding IsRun find_message
  IsRun-skip ms puts m h (total, reads) =
      (omega (arith, total), λ j n e. ground (arith, reads j n, h))

  pub sort_puts-IsRun :
      (ms : List Put)
      → 0 < since
      → IsCountdown ms
      → AreReached ms
      → IsRun ms (sort_puts (ascend_puts o since ms))
  unfolding IsRun IsCountdown sort_puts ascend_puts find_message
  sort_puts-IsRun [] s c r = (omega arith, λ i m e. cc)
  sort_puts-IsRun ((i, m) ∷ ms) s (p, c) (far, r) =
      let rest = sort_puts-IsRun ms s c r in
      let sorted = sort_puts (ascend_puts o since ms) in
      let below =
        sort_puts-IsBelow (suc (length ms)) (ascend_puts o since ms) (ascend_puts-IsBelow ms c) in
      elim (Bool-cases (leb since (suc (length ms)))) [
        | inl t ↦
            rw (p, far, t, insert_put-last (suc (length ms)) m sorted below)
              (IsRun-snoc ms sorted m (ground arith) rest)
        | inr f ↦ rw (p, far, f) (IsRun-skip ms sorted m (ground arith) rest)
      ]
