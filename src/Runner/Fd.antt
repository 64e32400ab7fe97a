-- ===== src/Runner/Fd.antt =====
-- src/runner/fd.rs: the table of a child's files, once as a range of numbers and once as a map.
pub mod Range
pub mod Mapped
mod Tests
use sys_tester.Base.{
  ℕ, zero, suc, ◌+◌, ◌-◌, ◌^◌, Bool, true, false, Option, none, some, List, [], ◌∷◌, ltb, leb,
  if◌then◌else◌,
}
use sys_tester.Base.Signed.{ℤ, pos, negsuc, cast_u64, same}
use sys_tester.Base.Result.{Result, done, failed}
use sys_tester.Model.{MockFd, mock_fd, u32_max}
use sys_tester.Runner.Tracker.{
  Notif, Host, Calls, Action, respond, respond_errno, add_fd, add_fd_at,
}

pub data ChildFile : Type 0 where
  real : ChildFile
  mock : MockFd → ChildFile

-- `MOCK_FD_BASE` of src/lib.rs.
abbrev pub mock_fd_base : ℕ
mock_fd_base = 2 ^ 20

-- `action?`: what follows a call, or its error.
abbrev pub and_then : {A B : Type 0} → Action A → (A → Calls → Action B) → Action B
and_then (done a, calls) f = f a calls
and_then (failed e, calls) f = (failed e, calls)
