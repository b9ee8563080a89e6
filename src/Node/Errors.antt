-- ===== src/Node/Errors.antt =====
-- node.go: what an error is on the other node.
use holochain.Base.{Bytes, ◌≡◌, refl, Bool, true, false, if◌then◌else◌}
use holochain.Base.Result.{
  Error, hash_not_found, hash_deleted, hash_modified, hash_rejected, link_not_found,
  entry_type_mismatch, blocked_listed,
}
use holochain.Node.{known, unknown, new_error_response, decode_response_error}

-- The errors that have a code of their own.
unfoldable pub is_standard : Error → Bool
is_standard hash_not_found = true
is_standard hash_deleted = true
is_standard hash_modified = true
is_standard hash_rejected = true
is_standard link_not_found = true
is_standard entry_type_mismatch = true
is_standard blocked_listed = true
is_standard e = false

-- The seven errors with a code arrive on the other node as themselves, and every other error as a
-- new one with its text.
pub decode_response_error-new_error_response :
    (error_text : Error → Bytes) (e : Error)
    → decode_response_error (new_error_response error_text e)
      ≡ (if is_standard e then known e else unknown (error_text e))
unfolding decode_response_error new_error_response is_standard
decode_response_error-new_error_response error_text hash_not_found = refl
decode_response_error-new_error_response error_text hash_deleted = refl
decode_response_error-new_error_response error_text hash_modified = refl
decode_response_error-new_error_response error_text hash_rejected = refl
decode_response_error-new_error_response error_text link_not_found = refl
decode_response_error-new_error_response error_text entry_type_mismatch = refl
decode_response_error-new_error_response error_text blocked_listed = refl
decode_response_error-new_error_response error_text e = refl
