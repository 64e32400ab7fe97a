-- ===== src/Runner/Errno.antt =====
-- src/runner/errno.rs: error codes. Reading `errno` itself is part of the kernel's reply.
use sys_tester.Base.{suc, zero, Option, none, some}
use sys_tester.Base.Signed.{ℤ, pos, negsuc, neg_i32}

-- `normalize`; `eio` is `libc::EIO`.
unfoldable pub normalize : ℤ → ℤ → ℤ
normalize eio (pos zero) = eio
normalize eio (pos (suc n)) = pos (suc n)
normalize eio (negsuc n) = neg_i32 (negsuc n)

-- `from_io`, of the code that `raw_os_error` gives.
unfoldable pub from_io : ℤ → Option ℤ → ℤ
from_io eio none = eio
from_io eio (some code) = code
