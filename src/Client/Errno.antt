-- ===== src/Client/Errno.antt =====
-- crates/alloyfs-client/src/error.rs: the errors of the client, and their Linux numbers.
use alloyfs.Base.{ℕ}
use alloyfs.Proto.Errors.{ErrorCode}

-- The error of a broken connection is that of the transport, which no code here looks into.
pub data FsError : Type 0 where
  remote : ErrorCode → FsError
  transport : FsError

pub errno_of : ErrorCode → ℕ
errno_of ErrorCode.not_found = 2
errno_of ErrorCode.no_such_export = 2
errno_of ErrorCode.permission_denied = 13
errno_of ErrorCode.already_exists = 17
errno_of ErrorCode.not_a_directory = 20
errno_of ErrorCode.is_a_directory = 21
errno_of ErrorCode.not_empty = 39
errno_of ErrorCode.invalid_path = 22
errno_of ErrorCode.bad_handle = 9
errno_of ErrorCode.read_only = 30
errno_of ErrorCode.would_block = 11
errno_of ErrorCode.cross_device = 18
errno_of ErrorCode.version_mismatch = 95
errno_of _ = 5

pub posix_errno : FsError → ℕ
posix_errno (remote code) = errno_of code
posix_errno transport = 5
