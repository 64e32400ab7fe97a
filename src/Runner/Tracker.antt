-- ===== src/Runner/Tracker.antt =====
-- src/runner/tracker.rs: the calls on the seccomp listener. The kernel is a parameter: it answers each
-- call in view of the calls before it. The state of a tracker is the list of its calls, the last one
-- first.
pub mod Correct
use sys_tester.Base.{
  ℕ, zero, suc, Bool, true, false, Option, none, some, List, [], ◌∷◌, if◌then◌else◌,
}
use sys_tester.Base.Signed.{ℤ, pos, negsuc, is_negative, cast_u32, neg_i32, same}
use sys_tester.Base.Result.{Result, done, failed}
use sys_tester.Runner.Errno.{normalize}

-- `seccomp_notif`: its id, the only field that the code reads here.
pub record Notif : Type 0 where
  pub id : ℕ

-- `seccomp_notif_resp`
pub record Response : Type 0 where
  pub id : ℕ
  pub val : ℤ
  pub error : ℤ
  pub flags : ℕ

-- `seccomp_notif_addfd`
pub record AddFd : Type 0 where
  pub id : ℕ
  pub flags : ℕ
  pub srcfd : ℕ
  pub newfd : ℕ
  pub newfd_flags : ℕ

pub data Ioctl : Type 0 where
  notif_recv : Ioctl
  notif_send : Response → Ioctl
  notif_addfd : AddFd → Ioctl
  notif_id_valid : ℕ → Ioctl

-- What a call leaves behind: its return code, `errno`, and the request for `notif_recv`.
pub record Reply : Type 0 where
  pub rc : ℤ
  pub errno : ℤ
  pub notif : Notif

-- The kernel, and the constants of `libc` that the code uses.
pub record Host : Type 0 where
  pub ioctl : List Ioctl → Ioctl → Reply
  pub eintr : ℤ
  pub eio : ℤ
  pub emfile : ℤ
  pub o_cloexec : ℕ
  pub addfd_flag_setfd : ℕ
  pub addfd_flag_send : ℕ
  pub user_notif_flag_continue : ℕ

abbrev pub Calls : Type 0
Calls = List Ioctl

-- The result of an operation and the calls made by then.
abbrev pub Action : Type 0 → Type 0
Action A = Result A ℤ × Calls

module _ (h : Host) where
  -- `if rc < 0 { Err(errno::get()) } else { Ok(rc) }`
  unfoldable pub checked : Reply → Result ℤ ℤ
  checked reply = if is_negative reply.rc then failed reply.errno else done reply.rc

  unfoldable pub unit_checked : Reply → Result (Unit {0}) ℤ
  unit_checked reply = if is_negative reply.rc then failed reply.errno else done tt

  -- `recv`. Each round makes a call; `none` is fuel that has run out.
  unfoldable pub recv : ℕ → Calls → Option (Action Notif)
  recv zero calls = none
  recv (suc fuel) calls =
      let reply = h.ioctl calls notif_recv in
      let retried = recv fuel (notif_recv ∷ calls) in
      if same reply.rc (pos 0)
      then some (done reply.notif, notif_recv ∷ calls)
      else if same reply.errno h.eintr
      then retried
      else some (failed reply.errno, notif_recv ∷ calls)

  unfoldable pub send_response : Response → Calls → Action (Unit {0})
  unfolding unit_checked
  send_response resp calls =
      (unit_checked (h.ioctl calls (notif_send resp)), notif_send resp ∷ calls)

  unfoldable pub respond : Notif → ℤ → Calls → Action (Unit {0})
  respond req value = send_response record { id = req.id; val = value; error = pos 0; flags = 0 }

  unfoldable pub respond_errno : Notif → ℤ → Calls → Action (Unit {0})
  respond_errno req error =
      send_response
        record { id = req.id; val = pos 0; error = neg_i32 (normalize h.eio error); flags = 0 }

  unfoldable pub continue_syscall : Notif → Calls → Action (Unit {0})
  continue_syscall req =
      send_response
        record { id = req.id; val = pos 0; error = pos 0; flags = h.user_notif_flag_continue }

  -- The call that the three `add_fd` functions share.
  unfoldable pub add_fd_call : AddFd → Calls → Action ℤ
  unfolding checked
  add_fd_call addfd calls = (checked (h.ioctl calls (notif_addfd addfd)), notif_addfd addfd ∷ calls)

  unfoldable pub add_fd : Notif → ℤ → Bool → Calls → Action ℤ
  add_fd req src cloexec = add_fd_call record {
    id = req.id;
    flags = 0;
    srcfd = cast_u32 src;
    newfd = 0;
    newfd_flags = if cloexec then h.o_cloexec else 0;
  }

  unfoldable pub add_fd_and_respond : Notif → ℤ → Bool → Calls → Action ℤ
  add_fd_and_respond req src cloexec = add_fd_call record {
    id = req.id;
    flags = h.addfd_flag_send;
    srcfd = cast_u32 src;
    newfd = 0;
    newfd_flags = if cloexec then h.o_cloexec else 0;
  }

  -- Without the assertion of a debug build that `target_fd` is not negative.
  unfoldable pub add_fd_at : Notif → ℤ → ℤ → Bool → Calls → Action ℤ
  add_fd_at req src target_fd cloexec = add_fd_call record {
    id = req.id;
    flags = h.addfd_flag_setfd;
    srcfd = cast_u32 src;
    newfd = cast_u32 target_fd;
    newfd_flags = if cloexec then h.o_cloexec else 0;
  }

  unfoldable pub id_valid : Notif → Calls → Action (Unit {0})
  unfolding unit_checked
  id_valid req calls =
      (unit_checked (h.ioctl calls (notif_id_valid req.id)), notif_id_valid req.id ∷ calls)
