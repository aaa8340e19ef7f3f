-- ===== src/Proto/Errors.antt =====
-- crates/alloyfs-proto/src/error.rs: errors that travel over the wire, and errors of the codec.
use alloyfs.Base.{ℕ}
use alloyfs.Base.Text.{Text}

pub data ErrorCode : Type 0 where
  not_found permission_denied already_exists not_a_directory is_a_directory not_empty : ErrorCode
  invalid_path bad_handle read_only no_such_export would_block conflict : ErrorCode
  version_mismatch not_attached too_old io cross_device auth_required : ErrorCode

-- The outcome of a request handler: `Result<A, ErrorCode>`.
pub data Result {ℓ} (A : Type ℓ) : Type ℓ where
  ok : A → Result A
  err : ErrorCode → Result A

-- Errors in the codec itself, which end a connection. `Malformed` and `Io` carry an error of a
-- library, which no code looks into.
pub data ProtoError : Type 0 where
  frame_too_large : ℕ → ProtoError
  malformed : ProtoError
  compression : Text → ProtoError
  io : ProtoError
