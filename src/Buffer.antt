-- ===== src/Buffer.antt =====
-- src/buffer.rs: the page buffer, and the copies from the memory of another process. A buffer is its
-- number of pages and its bytes up to `len`; what lies behind them is not initialised, and is not
-- read before it is written.
pub mod Read
pub mod Copied
pub mod Paths
pub mod Crossing
pub mod Pages
mod Tests
use sys_tester.Base.{
  ℕ, zero, suc, ◌+◌, ◌-◌, ◌*◌, ◌/◌, Bool, true, false, Option, none, some, List, [], ◌∷◌, length,
  take, leb, ltb, ◌==◌, if◌then◌else◌,
}
use sys_tester.Base.Result.{Result, done, failed}

abbrev pub max_path : ℕ
max_path = 4096

pub data PathTooLong : Type 0 where
  path_too_long : PathTooLong

pub record PageBuffer : Type 0 where
  pub pages : ℕ
  pub contents : List ℕ

abbrev pub new_buffer : PageBuffer
new_buffer = record { pages = 1; contents = [] }

unfoldable pub capacity : PageBuffer → ℕ
capacity b = b.pages * max_path

unfoldable pub truncate : ℕ → PageBuffer → PageBuffer
truncate len b =
    if leb (length b.contents) len then b else record b { contents = take len b.contents }

unfoldable pub clear : PageBuffer → PageBuffer
unfolding truncate
clear b = truncate 0 b

-- `capacity.div_ceil(MAX_PATH)`
unfoldable pub ensure_capacity : ℕ → PageBuffer → PageBuffer
unfolding capacity
ensure_capacity wanted b =
    if leb wanted (capacity b) then b else record b { pages = (wanted + (max_path - 1)) / max_path }

unfoldable pub set_path : List ℕ → PageBuffer → Result PageBuffer PathTooLong
unfolding clear
set_path path b =
    if ltb max_path (length path)
    then failed path_too_long
    else done (record (clear b) { contents = path })

unfoldable pub set_bytes : List ℕ → PageBuffer → PageBuffer
unfolding clear ensure_capacity
set_bytes bytes b = record (ensure_capacity (length bytes) (clear b)) { contents = bytes }

-- `position(|&byte| byte == 0)`
abbrev pub position_of_nul : List ℕ → Option ℕ
position_of_nul [] = none
position_of_nul (zero ∷ bytes) = some 0
position_of_nul (suc byte ∷ bytes) = elim (position_of_nul bytes) [
  | none ↦ none
  | some n ↦ some (suc n)
]

unfoldable pub truncate_at_nul : PageBuffer → PageBuffer
unfolding truncate
truncate_at_nul b = elim (position_of_nul b.contents) [ none ↦ b | some nul ↦ truncate nul b ]
