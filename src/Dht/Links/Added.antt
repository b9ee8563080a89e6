-- ===== src/Dht/Links/Added.antt =====
-- dht.go: what `link` does when it succeeds.
use holochain.Base.{Bytes, ℕ, ◌≡◌, some}
use holochain.Base.Result.{ok, ◌>>=◌, >>=-eq-ok}
use holochain.Hash.{Hash}
use holochain.Dht.Store.{Db, Codec, Message, inc_idx, add_link, get_value, status_live}
use holochain.Dht.Links.{none_or_err, links_of, link_tx}

-- The link is recorded, then the message is counted.
pub link_tx-added :
    (x : Codec) (m : Message) (base link tag : Bytes) (status : ℕ) (db : Db) {d : Db}
    → link_tx x m base link tag status db ≡ ok d
    → (db1 : Db) × (leh : Hash) × (add_link x base link tag m.from status leh db ≡ ok db1)
      × (inc_idx x (some m) db1 ≡ ok d)
unfolding link_tx
link_tx-added x m base link tag status db h =
    let count = inc_idx x (some m) in
    let join = λ (leh : Hash). add_link x base link tag m.from status leh db in
    let (found, a, p) =
      >>=-eq-ok (get_value base status_live db)
        (λ found. none_or_err found.1 >>= λ u. links_of m.body >>= λ leh. join leh >>= count) h in
    let (u, b, q) =
      >>=-eq-ok (none_or_err found.1) (λ u. links_of m.body >>= λ leh. join leh >>= count) p in
    let (leh, c, r) = >>=-eq-ok (links_of m.body) (λ leh. join leh >>= count) q in
    let (db1, e, s) = >>=-eq-ok (join leh) count r in (db1, leh, e, s)
