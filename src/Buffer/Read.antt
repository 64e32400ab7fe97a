-- ===== src/Buffer/Read.antt =====
-- src/buffer.rs: reading the memory of another process. The kernel is a parameter: it answers a call of
-- `process_vm_readv` in view of the calls before it, with the bytes copied or with `errno`. An
-- operation has the list of the calls made so far, the last one first. The loops run on fuel, one unit
-- for each call; `none` is fuel that has run out.
use sys_tester.Base.{
  ℕ, zero, suc, ◌+◌, ◌-◌, ◌%◌, ◌^◌, min, true, false, ◌&&◌, Option, none, some, List, [], ◌∷◌, ◌++◌,
  length, take, leb, ltb, ◌==◌, if◌then◌else◌,
}
use sys_tester.Base.Result.{Result, done, failed}
use sys_tester.Buffer.{max_path, position_of_nul, PageBuffer, clear, ensure_capacity}

-- The failures of `process_vm_readv` other than `EFAULT`, and a copy of no bytes.
pub data IoError : Type 0 where
  os_error : ℕ → IoError
  unexpected_eof : IoError

pub data ProcessCopyError : Type 0 where
  errno : ℕ → ProcessCopyError
  io : IoError → ProcessCopyError

pub record ReadCall : Type 0 where
  pub pid : ℕ
  pub address : ℕ
  pub len : ℕ

pub data Answer : Type 0 where
  bytes_read : List ℕ → Answer
  refused : ℕ → Answer

pub record Kernel : Type 0 where
  pub process_vm_readv : List ReadCall → ReadCall → Answer
  pub efault : ℕ
  pub enametoolong : ℕ

abbrev pub Calls : Type 0
Calls = List ReadCall

abbrev pub Action : Type 0 → Type 0
Action A = Result A ProcessCopyError × Calls

abbrev pub usize_max : ℕ
usize_max = 2 ^ 64 - 1

-- The buffer and the result of an operation on it.
abbrev pub BufferAction : Type 0
BufferAction = (Result (Unit {0}) ProcessCopyError × PageBuffer) × Calls

-- The length of a read of a path: up to the end of the page and of the buffer.
abbrev pub page_len : ℕ → ℕ → ℕ
page_len address offset = min (max_path - (address + offset) % max_path) (max_path - offset)

module _ (k : Kernel) (pid address : ℕ) where
  -- What the result of a call with a given length means.
  unfoldable pub classify_read : ℕ → Answer → Result (List ℕ) ProcessCopyError
  classify_read len (refused e) =
      if e == k.efault then failed (errno k.efault) else failed (io (os_error e))
  classify_read len (bytes_read []) = if len == 0 then done [] else failed (io unexpected_eof)
  classify_read len (bytes_read (byte ∷ bytes)) = done (byte ∷ bytes)

  abbrev pub call_at : ℕ → ℕ → ReadCall
  call_at offset len = record { pid = pid; address = address + offset; len = len }

  unfoldable pub read_process_memory_once : ℕ → ℕ → Calls → Action (List ℕ)
  read_process_memory_once offset len calls =
      if leb (address + offset) usize_max && leb (address + offset + len) usize_max
      then (
        classify_read len (k.process_vm_readv calls (call_at offset len)),
        call_at offset len ∷ calls,
      )
      else (failed (errno k.efault), calls)

  -- How a loop goes on after a call.
  unfoldable pub go_on :
      (List ℕ → Calls → Option (Action (List ℕ))) → Action (List ℕ) → Option (Action (List ℕ))
  go_on next (done bytes, calls) = next bytes calls
  go_on next (failed e, calls) = some (failed e, calls)

  -- The bytes copied so far are those at the destination.
  unfoldable pub read_process_memory : ℕ → ℕ → List ℕ → Calls → Option (Action (List ℕ))
  read_process_memory zero len copied calls =
      if ltb (length copied) len then none else some (done copied, calls)
  read_process_memory (suc fuel) len copied calls = elim (ltb (length copied) len) [
    | true ↦
        go_on (λ bytes calls'. read_process_memory fuel len (copied ++ bytes) calls')
          (read_process_memory_once (length copied) (len - length copied) calls)
    | false ↦ some (done copied, calls)
  ]

  -- The path is returned without its NUL.
  unfoldable pub read_process_c_path : ℕ → List ℕ → Calls → Option (Action (List ℕ))
  read_process_c_path zero copied calls =
      if ltb (length copied) max_path then none else some (failed (errno k.enametoolong), calls)
  read_process_c_path (suc fuel) copied calls = elim (ltb (length copied) max_path) [
    | true ↦ elim (leb (address + length copied) usize_max) [
      | true ↦
          go_on
            (λ bytes calls'. elim (position_of_nul bytes) [
              | none ↦ read_process_c_path fuel (copied ++ bytes) calls'
              | some nul ↦ some (done (copied ++ take nul bytes), calls')
            ])
            (read_process_memory_once (length copied) (page_len address (length copied)) calls)
      | false ↦ some (failed (errno k.efault), calls)
    ]
    | false ↦ some (failed (errno k.enametoolong), calls)
  ]

  -- What `copy_process_memory` leaves in a buffer that has been cleared and has room.
  unfoldable pub stored : PageBuffer → Action (List ℕ) → BufferAction
  stored b (done bytes, calls) = ((done tt, record b { contents = bytes }), calls)
  stored b (failed e, calls) = ((failed e, record b { contents = [] }), calls)

  unfoldable pub stored_if : PageBuffer → Option (Action (List ℕ)) → Option BufferAction
  stored_if b none = none
  stored_if b (some r) = some (stored b r)

  unfoldable pub copy_from_process_path_with_len : ℕ → PageBuffer → Calls → Option BufferAction
  copy_from_process_path_with_len len b calls =
      if ltb max_path len
      then some ((failed (errno k.enametoolong), b), calls)
      else stored_if (clear b) (read_process_memory len len [] calls)

  unfoldable pub copy_from_process_bytes : ℕ → PageBuffer → Calls → Option BufferAction
  copy_from_process_bytes len b calls =
      stored_if (ensure_capacity len (clear b)) (read_process_memory len len [] calls)

  unfoldable pub copy_from_process_c_path : PageBuffer → Calls → Option BufferAction
  copy_from_process_c_path b calls = stored_if (clear b) (read_process_c_path max_path [] calls)
