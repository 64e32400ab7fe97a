-- ===== src/Buffer/Pages.antt =====
-- The operations on a page buffer keep its bytes within its pages, of which there is one at least.
use sys_tester.Base.{
  leb→le, ℕ, ◌*◌, ◌≤◌, ◌<◌, Bool, true, false, Option, none, some, List, [], ◌≡◌, refl, ap, inl,
  inr, arith, length, length-take, leb, Bool-cases, if◌then◌else◌,
}
use sys_tester.Base.Result.{done, failed}
use sys_tester.Buffer.{max_path, PageBuffer, capacity, truncate, clear, ensure_capacity}
use sys_tester.Buffer.Read.{
  ReadCall, Kernel, Calls, Action, BufferAction, stored, stored_if, copy_from_process_bytes,
}
use sys_tester.Buffer.Copied.{
  bytes_at, length-bytes_at, IsPrefix, IsExact, read_process_memory-IsExact,
}

pub record IsValid (b : PageBuffer) : Type 0 where
  pub owns : 1 ≤ b.pages
  pub fits : length b.contents ≤ b.pages * max_path

with_contents :
    (pages : ℕ) (bytes : List ℕ)
    → 1 ≤ pages
    → length bytes ≤ pages * max_path
    → IsValid (record { pages = pages; contents = bytes })
with_contents pages bytes h h' = record { owns = h; fits = h' }

pub truncate-IsValid : (len : ℕ) (b : PageBuffer) → IsValid b → IsValid (truncate len b)
unfolding truncate
truncate-IsValid len b v = elim (Bool-cases (leb (length b.contents) len)) [
  | inl e ↦ rw (truncate, e) v
  | inr e ↦
      rw (truncate, e)
        (record { owns = v.owns; fits = omega (arith, v.fits, length-take len b.contents) })
]

clear_pages : (b : PageBuffer) → (clear b).pages ≡ b.pages
unfolding clear truncate
clear_pages b = by_test (leb (length b.contents) 0)
  where
    by_test : (t : Bool) → (if t then b else record b { contents = [] }).pages ≡ b.pages
    by_test true = refl
    by_test false = refl

-- Enough pages for the bytes wanted.
ensure_capacity-enough :
    (wanted : ℕ) (b : PageBuffer)
    → 1 ≤ b.pages
    → (1 ≤ (ensure_capacity wanted b).pages)
      × (wanted ≤ (ensure_capacity wanted b).pages * max_path)
unfolding ensure_capacity capacity
ensure_capacity-enough wanted b h = elim (Bool-cases (leb wanted (b.pages * max_path))) [
  | inl e ↦ rw (ensure_capacity, e) (h, leb→le wanted (b.pages * max_path) e)
  | inr e ↦
      let more : b.pages * max_path < wanted = ground (arith, e) in
      rw (ensure_capacity, e) (omega (arith, h, more), omega arith)
]

-- A buffer that holds the bytes asked for, or none after a failure.
abbrev pub IsCopy : (ℕ → ℕ) → ℕ → ℕ → Option BufferAction → Type 0
IsCopy mem address len none = ⊥
IsCopy mem address len (some ((done _, b), calls)) =
    IsValid b × (b.contents ≡ bytes_at mem address len)
IsCopy mem address len (some ((failed e, b), calls)) = IsValid b × (b.contents ≡ [])

stored_if-IsCopy :
    (k : Kernel) (pid address len : ℕ) (mem : ℕ → ℕ) (b : PageBuffer) (o : Option (Action (List ℕ)))
    → 1 ≤ b.pages
    → len ≤ b.pages * max_path
    → IsExact mem address len o
    → IsCopy mem address len (stored_if k pid address b o)
unfolding stored_if stored
stored_if-IsCopy k pid address len mem b none owns room h = h
stored_if-IsCopy k pid address len mem b (some (failed e, calls)) owns room h =
    (record { owns = owns; fits = omega (arith, owns) }, refl)
stored_if-IsCopy k pid address len mem b (some (done bytes, calls)) owns room h = (
  record { owns = owns; fits = omega (arith, room, ap length h, length-bytes_at mem address len) },
  h,
)

-- If the kernel's answers are parts of a memory that does not change, then `copy_from_process_bytes` on a
-- valid buffer returns and leaves a valid one: with exactly the bytes asked for if it succeeds, and
-- with none if it fails.
pub copy_from_process_bytes-IsCopy :
    (k : Kernel) (pid address len : ℕ) (mem : ℕ → ℕ) (b : PageBuffer) (calls : Calls)
    → ((calls' : Calls) (call : ReadCall) → IsPrefix mem call (k.process_vm_readv calls' call))
    → IsValid b
    → IsCopy mem address len (copy_from_process_bytes k pid address len b calls)
unfolding copy_from_process_bytes
copy_from_process_bytes-IsCopy k pid address len mem b calls memory v =
    let owns : 1 ≤ (clear b).pages = omega (arith, v.owns, clear_pages b) in
    let (enough, room) = ensure_capacity-enough len (clear b) owns in
    stored_if-IsCopy k pid address len mem (ensure_capacity len (clear b)) _ enough room
      (read_process_memory-IsExact k pid address len mem calls memory)
