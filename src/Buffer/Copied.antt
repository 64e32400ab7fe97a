-- ===== src/Buffer/Copied.antt =====
-- What the loops copy from the memory of another process.
use sys_tester.Base.{
  ==→eq, ℕ, zero, suc, ◌+◌, ◌-◌, ◌≤◌, ◌<◌, Bool, true, false, ◌&&◌, Option, none, some, List, [],
  ◌∷◌, ◌++◌, ◌≡◌, ◌≢◌, refl, sym, ap, ◌∙◌, inl, inr, arith, length, length-append, leb, ltb, ltb→lt,
  ◌==◌, if◌then◌else◌, Bool-cases,
}
use sys_tester.Base.Result.{done, failed}
use sys_tester.Buffer.Read.{
  ProcessCopyError, errno, ReadCall, Answer, bytes_read, refused, Kernel, Calls, Action, usize_max,
  classify_read, call_at, read_process_memory_once, go_on, read_process_memory,
}

-- `n` bytes of a memory from an address on.
abbrev pub bytes_at : (ℕ → ℕ) → ℕ → ℕ → List ℕ
bytes_at mem a zero = []
bytes_at mem a (suc n) = mem a ∷ bytes_at mem (suc a) n

-- What an answer of `process_vm_readv` may be: a part of the bytes asked for, from the first one on.
abbrev pub IsPrefix : (ℕ → ℕ) → ReadCall → Answer → Type 0
IsPrefix mem call (refused e) = Unit
IsPrefix mem call (bytes_read bytes) =
    (length bytes ≤ call.len) × (bytes ≡ bytes_at mem call.address (length bytes))

pub length-bytes_at : (mem : ℕ → ℕ) (a n : ℕ) → length (bytes_at mem a n) ≡ n
length-bytes_at mem a zero = refl
length-bytes_at mem a (suc n) = ap suc (length-bytes_at mem (suc a) n)

bytes_at-append :
    (mem : ℕ → ℕ) (a b n m : ℕ)
    → b ≡ a + n
    → bytes_at mem a n ++ bytes_at mem b m ≡ bytes_at mem a (n + m)
bytes_at-append mem a b zero m e =
    let here : b ≡ a = omega (arith, e) in
    let size : m ≡ 0 + m = omega arith in ap (λ x. bytes_at mem x m) here ∙ ap (bytes_at mem a) size
bytes_at-append mem a b (suc n) m e =
    let size : suc (n + m) ≡ suc n + m = omega arith in
    ap (λ l. mem a ∷ l) (bytes_at-append mem (suc a) b n m (omega (arith, e)))
    ∙ ap (bytes_at mem a) size

-- What one call ends with.
abbrev pub IsPart : (ℕ → ℕ) → ℕ → ℕ → ℕ → Action (List ℕ) → Type 0
IsPart mem address offset len (failed e, calls) = Unit
IsPart mem address offset len (done bytes, calls) =
    (0 < length bytes)
    × (length bytes ≤ len)
    × (bytes ≡ bytes_at mem (address + offset) (length bytes))

-- The loop returns: the bytes asked for, all of them, or an error.
abbrev pub IsExact : (ℕ → ℕ) → ℕ → ℕ → Option (Action (List ℕ)) → Type 0
IsExact mem address len none = ⊥
IsExact mem address len (some (failed e, calls)) = Unit
IsExact mem address len (some (done bytes, calls)) = bytes ≡ bytes_at mem address len

module _ (k : Kernel) (pid address : ℕ) (mem : ℕ → ℕ)
    (memory : (calls : Calls) (call : ReadCall)
      → IsPrefix mem call (k.process_vm_readv calls call)) where
  pub once-IsPart :
      (offset len : ℕ) (calls : Calls)
      → 0 < len
      → IsPart mem address offset len (read_process_memory_once k pid address offset len calls)
  unfolding read_process_memory_once classify_read
  once-IsPart offset len calls some_left =
      by_range (leb (address + offset) usize_max && leb (address + offset + len) usize_max)
    where
      either :
          (b : Bool) (x y : ProcessCopyError) (cs : Calls)
          → IsPart mem address offset len ((if b then failed x else failed y), cs)
      either true x y cs = tt
      either false x y cs = tt

      empty :
          (b : Bool) (x : ProcessCopyError) (cs : Calls)
          → b ≢ true
          → IsPart mem address offset len ((if b then done [] else failed x), cs)
      empty true x cs h = absurd (h refl)
      empty false x cs h = tt

      by_answer :
          (answer : Answer)
          → IsPrefix mem (call_at k pid address offset len) answer
          → IsPart mem address offset len
              (classify_read k pid address len answer, call_at k pid address offset len ∷ calls)
      by_answer (refused e) h = either (e == k.efault) _ _ _
      by_answer (bytes_read []) h =
          empty (len == 0) _ _ (λ e. omega (arith, ==→eq len 0 e, some_left))
      by_answer (bytes_read (byte ∷ bytes)) h = (omega arith, h.0, h.1)

      by_range :
          (b : Bool)
          → IsPart mem address offset len (
              if b
              then (
                classify_read k pid address len
                    (k.process_vm_readv calls (call_at k pid address offset len)),
                call_at k pid address offset len ∷ calls,
              )
              else (failed (errno k.efault), calls))
      by_range true =
          by_answer (k.process_vm_readv calls (call_at k pid address offset len))
            (memory calls (call_at k pid address offset len))
      by_range false = tt

  -- A loop goes on with the bytes of the call, or fails with it.
  pub on_part :
      (P : Option (Action (List ℕ)) → Type 0) (next : List ℕ → Calls → Option (Action (List ℕ)))
      (offset len : ℕ) (r : Action (List ℕ))
      → ((e : ProcessCopyError) (calls : Calls) → P (some (failed e, calls)))
      → ((bytes : List ℕ) (calls : Calls)
          → IsPart mem address offset len (done bytes, calls)
          → P (next bytes calls))
      → IsPart mem address offset len r
      → P (go_on k pid address next r)
  unfolding go_on
  on_part P next offset len (failed e, calls) fails goes h = fails e calls
  on_part P next offset len (done bytes, calls) fails goes h = goes bytes calls h

  -- The bytes copied so far, and those of the next call.
  pub joined :
      (acc bytes : List ℕ)
      → acc ≡ bytes_at mem address (length acc)
      → bytes ≡ bytes_at mem (address + length acc) (length bytes)
      → acc ++ bytes ≡ bytes_at mem address (length (acc ++ bytes))
  joined acc bytes h h' =
      ap (λ l. l ++ bytes) h
      ∙ ap (λ l. bytes_at mem address (length acc) ++ l) h'
      ∙ bytes_at-append mem address (address + length acc) (length acc) (length bytes) refl
      ∙ ap (bytes_at mem address) (sym (length-append acc bytes))

  read_process_memory_lem :
      (fuel len : ℕ) (acc : List ℕ) (calls : Calls)
      → len ≤ fuel + length acc
      → length acc ≤ len
      → acc ≡ bytes_at mem address (length acc)
      → IsExact mem address len (read_process_memory k pid address fuel len acc calls)
  unfolding read_process_memory
  read_process_memory_lem zero len acc calls enough below h =
      elim (Bool-cases (ltb (length acc) len)) [
        | inl e ↦ absurd (omega (arith, ltb→lt (length acc) len e, enough))
        | inr e ↦
            let same : length acc ≡ len = omega (arith, enough, below) in
            rw e (h ∙ ap (bytes_at mem address) same)
      ]
  read_process_memory_lem (suc fuel) len acc calls enough below h =
      elim (Bool-cases (ltb (length acc) len)) [
        | inl e ↦
            let less = ltb→lt (length acc) len e in
            rw (read_process_memory, e)
              (on_part (IsExact mem address len) _ (length acc) (len - length acc) _ (λ _ _. tt)
                (λ bytes calls' part.
                  read_process_memory_lem fuel len (acc ++ bytes) calls'
                    (omega (arith, enough, length-append acc bytes, part.0))
                    (omega (arith, length-append acc bytes, part.1, less))
                    (joined acc bytes h part.2))
                (once-IsPart (length acc) (len - length acc) calls (omega (arith, less))))
        | inr e ↦
            let same : length acc ≡ len = ground (arith, e, below) in
            rw (read_process_memory, e) (h ∙ ap (bytes_at mem address) same)
      ]

-- If the kernel's answers are parts of a memory that does not change, then the loop of
-- `read_process_memory` returns, and what it returns is exactly the `len` bytes from the address on, or
-- an error.
pub read_process_memory-IsExact :
    (k : Kernel) (pid address len : ℕ) (mem : ℕ → ℕ) (calls : Calls)
    → ((calls' : Calls) (call : ReadCall) → IsPrefix mem call (k.process_vm_readv calls' call))
    → IsExact mem address len (read_process_memory k pid address len len [] calls)
read_process_memory-IsExact k pid address len mem calls memory =
    read_process_memory_lem k pid address mem memory len len [] calls (omega arith) (omega arith)
      refl
