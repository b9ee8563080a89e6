-- ===== src/Warrant/RoundTrip.antt =====
-- revocation.go: the verification of a new revocation.
use holochain.Base.{
  Bytes, ℕ, ◌+◌, ◌*◌, ◌-◌, ◌%◌, ◌<◌, ◌≡◌, refl, [], ◌∷◌, ◌++◌, true, false, some, arith, ap, le→ltb,
  ltb, length, length-append, take-append, drop-append,
}
use holochain.Base.Result.{ok}
use holochain.Warrant.{
  Keys, SelfRevocation, slice, new_self_revocation, get_old_key, get_new_key, verify_revocation,
}

-- What a key pair with the marshalled public key `b` promises: it is read back, and the signatures
-- are made and accepted.
pub record IsKey (c : Keys) (key b : Bytes) : Type 0 where
  pub marshalled : c.marshal_public_key key ≡ some b
  pub public : Bytes
  pub unmarshalled : c.unmarshal_public_key b ≡ some public
  pub verify-sign :
      (data_bytes : Bytes)
      → (sig : Bytes) × (c.sign key data_bytes ≡ some sig)
        × (c.verify public data_bytes sig ≡ some true)

slice-middle :
    (a b c : Bytes) (from to : ℕ)
    → from ≡ length a
    → to ≡ length a + length b
    → slice from to (a ++ (b ++ c)) ≡ ok b
unfolding slice
slice-middle a b c from to p q =
    let inside : ltb (length (a ++ (b ++ c))) to ≡ false =
      le→ltb (length (a ++ (b ++ c))) to
        (omega (arith, length-append a (b ++ c), length-append b c)) in
    rw (inside, drop-append a (b ++ c) from p) (ap ok (take-append b c (to - from) (omega arith)))

-- A revocation by two lawful keys, whose marshalled forms have one length under 256, can be made,
-- and is verified.
pub verify_revocation-new :
    (c : Keys) (old new old_bytes new_bytes payload : Bytes)
    → IsKey c old old_bytes
    → IsKey c new new_bytes
    → length new_bytes ≡ length old_bytes
    → length old_bytes < 256
    → (r : SelfRevocation) × (new_self_revocation c old new payload ≡ ok r)
      × (verify_revocation c r ≡ ok tt)
unfolding verify_revocation new_self_revocation get_old_key get_new_key
verify_revocation-new c old new old_bytes new_bytes payload o n same short =
    let l = length old_bytes % 256 in
    let text = l ∷ (old_bytes ++ (new_bytes ++ payload)) in
    let (old_sig, old_signs, old_verifies) = o.verify-sign text in
    let (new_sig, new_signs, new_verifies) = n.verify-sign text in
    let first =
      slice-middle (l ∷ []) old_bytes (new_bytes ++ payload) 1 (l + 1) refl (omega arith) in
    let second : slice (l + 1) (l * 2 + 1) text ≡ ok new_bytes =
      slice-middle (l ∷ old_bytes) new_bytes payload (l + 1) (l * 2 + 1) (omega arith)
        (omega arith) in
    (
      record { data_bytes = text; old_sig = old_sig; new_sig = new_sig },
      rw (o.marshalled, n.marshalled, old_signs, new_signs) refl,
      rw (first, o.unmarshalled, old_verifies, second, n.unmarshalled, new_verifies) refl,
    )
