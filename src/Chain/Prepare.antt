-- ===== src/Chain/Prepare.antt =====
-- `newHeader` and `prepareHeader`: the header that is made for the next entry of a chain.
use holochain.Base.{Bytes, ℕ, ◌≡◌, Option, arith, length}
use holochain.Base.Result.{ok, >>=-eq-ok}
use holochain.Platform.{Platform, Content}
use holochain.Hash.{Hash}
use holochain.Entry.{entry_sum}
use holochain.Header.{Header, StatusChange, header_sum, new_header, change_or_none}
use holochain.Chain.{Chain, previous_hash, previous_of_type, prepare_header}

-- What `newHeader` promises of the header that it makes.
pub record Made (p : Platform) (now t : Bytes) (e : Content) (prev prev_type : Hash)
    (change : Option StatusChange) (h : Hash) (hd : Header) : Type 0 where
  pub hash : header_sum p hd ≡ ok h
  pub entry_link : entry_sum p e ≡ ok hd.entry_link
  pub header_link : hd.header_link ≡ prev
  pub type_link : hd.type_link ≡ prev_type
  pub type : hd.type ≡ t
  pub time : hd.time ≡ now
  pub status : hd.change ≡ change_or_none change

pub new_header-Made :
    (p : Platform) (now t : Bytes) (e : Content) (prev prev_type : Hash)
    (change : Option StatusChange) (h : Hash) (hd : Header)
    → new_header p now t e prev prev_type change ≡ ok (h, hd)
    → Made p now t e prev prev_type change h hd
unfolding new_header
new_header-Made p now t e prev prev_type change h hd q = ground arith

-- What `prepareHeader` promises: the next index, and a header that is made for the chain.
pub record Prepared (p : Platform) (now t : Bytes) (e : Content) (c : Chain) (i : ℕ) (h : Hash)
    (hd : Header) : Type 0 where
  pub at : i ≡ length c.hashes
  pub previous : previous_hash c.hashes ≡ ok hd.header_link
  pub previous_type : previous_of_type t c ≡ ok hd.type_link
  pub hash : header_sum p hd ≡ ok h
  pub entry_link : entry_sum p e ≡ ok hd.entry_link
  pub type : hd.type ≡ t

pub prepare_header-Prepared :
    (p : Platform) (now t : Bytes) (e : Content) (s : Option StatusChange) (c : Chain) (i : ℕ)
    (h : Hash) (hd : Header)
    → prepare_header p now t e s c ≡ ok (i, h, hd)
    → Prepared p now t e c i h hd
unfolding prepare_header
prepare_header-Prepared p now t e s c i h hd q =
    let (ph, eph, q1) = >>=-eq-ok (previous_hash c.hashes) _ q in
    let (pth, epth, q2) = >>=-eq-ok (previous_of_type t c) _ q1 in
    let ((h', hd'), made, q3) = >>=-eq-ok (new_header p now t e ph pth s) _ q2 in
    let m = new_header-Made p now t e ph pth s h' hd' made in
    record {
      at = ground arith;
      previous = ground (arith, m.header_link);
      previous_type = ground (arith, m.type_link);
      hash = ground (arith, m.hash);
      entry_link = ground (arith, m.entry_link);
      type = ground (arith, m.type);
    }
