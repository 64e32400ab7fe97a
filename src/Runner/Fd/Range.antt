-- ===== src/Runner/Fd/Range.antt =====
-- src/runner/fd.rs, `RangeFileSpace`, which has no field: descriptors from `MOCK_FD_BASE` on are mocks.
pub mod Correct
pub mod Answers
use sys_tester.Base.{
  ℕ, ◌+◌, ◌-◌, ◌^◌, Bool, true, false, Option, none, some, ltb, leb, if◌then◌else◌,
}
use sys_tester.Base.Signed.{ℤ, pos, negsuc, cast_u64}
use sys_tester.Base.Result.{failed}
use sys_tester.Model.{MockFd, mock_fd, u32_max}
use sys_tester.Runner.Tracker.{
  Notif, Host, Calls, Action, respond, respond_errno, add_fd, add_fd_at,
}
use sys_tester.Runner.Fd.{ChildFile, real, mock, mock_fd_base, and_then}

-- `mock_fd`; `none` is `CantAllocate`. The sum is that of a `u64`, which is checked.
unfoldable pub raw_fd : MockFd → Option ℤ
raw_fd (mock_fd m) =
    if ltb (mock_fd_base + m) (2 ^ 64)
    then if ltb (mock_fd_base + m) (2 ^ 31) then some (pos (mock_fd_base + m)) else none
    else none

unfoldable pub decode_mock : ℤ → Option MockFd
decode_mock (negsuc n) = none
decode_mock (pos n) =
    if ltb n mock_fd_base
    then none
    else if leb (n - mock_fd_base) u32_max
    then some (mock_fd (n - mock_fd_base))
    else none

unfoldable pub lookup_fd : ℤ → Option ChildFile
unfolding decode_mock
lookup_fd (negsuc n) = none
lookup_fd (pos n) = elim (decode_mock (pos n)) [ none ↦ some real | some m ↦ some (mock m) ]

unfoldable pub remove_file : ℤ → Option ChildFile
remove_file fd = lookup_fd fd

module _ (h : Host) where
  unfoldable pub respond_real : ℤ → Notif → Calls → Action (Unit {0})
  respond_real backing req calls = and_then (add_fd h req backing false calls) (λ fd calls'.
      if leb mock_fd_base (cast_u64 fd)
      then respond_errno h req h.emfile calls'
      else respond h req fd calls')

  unfoldable pub respond_mock : MockFd → ℤ → Notif → Calls → Action (Unit {0})
  respond_mock m backing req calls = elim (raw_fd m) [
    | none ↦ (failed h.emfile, calls)
    | some target_fd ↦
        and_then (add_fd_at h req backing target_fd false calls)
          (λ _ calls'. respond h req target_fd calls')
  ]
