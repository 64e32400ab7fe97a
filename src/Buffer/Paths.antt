-- ===== src/Buffer/Paths.antt =====
-- What `read_process_c_path` returns: the bytes before the first NUL.
use sys_tester.Base.{
  ℕ, zero, suc, ◌+◌, ◌≤◌, ◌<◌, Option, none, some, some_injective, List, [], ◌∷◌, ◌++◌, ◌≡◌, refl,
  sym, ap, ◌∙◌, ◌⊎◌, inl, inr, arith, length, length-append, take, leb, ltb, ltb→lt, Bool-cases,
  Option-cases, subst,
}
use sys_tester.Base.Result.{done, failed}
use sys_tester.Buffer.{max_path, position_of_nul}
use sys_tester.Buffer.Read.{
  ReadCall, Kernel, Calls, Action, usize_max, page_len, read_process_c_path,
}
use sys_tester.Buffer.Copied.{bytes_at, length-bytes_at, IsPrefix, once-IsPart, on_part, joined}

ℕ-cases : (n : ℕ) → (n ≡ 0) ⊎ ((p : ℕ) × (n ≡ suc p))
ℕ-cases zero = inl refl
ℕ-cases (suc p) = inr (p, refl)

abbrev next : Option ℕ → Option ℕ
next none = none
next (some n) = some (suc n)

-- The first NUL among the bytes of a memory.
record IsFirstNul (mem : ℕ → ℕ) (a len n : ℕ) : Type 0 where
  below : n < len
  nul : mem (a + n) ≡ 0
  before : take n (bytes_at mem a len) ≡ bytes_at mem a n
  clean : position_of_nul (bytes_at mem a n) ≡ none

position-IsFirstNul :
    (mem : ℕ → ℕ) (a len n : ℕ)
    → position_of_nul (bytes_at mem a len) ≡ some n
    → IsFirstNul mem a len n
position-IsFirstNul mem a zero n h = absurd cc
position-IsFirstNul mem a (suc len) n h = elim (ℕ-cases (mem a)) [
  | inl e ↦
      let same : 0 ≡ n =
        some_injective 0 n (ap (λ x. position_of_nul (x ∷ bytes_at mem (suc a) len)) (sym e) ∙ h) in
      let here : a + 0 ≡ a = omega arith in
      subst (IsFirstNul mem a (suc len)) same
        (record { below = omega arith; nul = ap mem here ∙ e; before = refl; clean = refl })
  | inr (p, e) ↦
      let step = ap (λ x. position_of_nul (x ∷ bytes_at mem (suc a) len)) (sym e) ∙ h in
      elim (Option-cases (position_of_nul (bytes_at mem (suc a) len))) [
        | inl q ↦ absurd (cc (ap next (sym q) ∙ step))
        | inr (m, q) ↦
            let f = position-IsFirstNul mem (suc a) len m q in
            let there : a + suc m ≡ suc a + m = omega arith in
            subst (IsFirstNul mem a (suc len)) (some_injective (suc m) n (ap next (sym q) ∙ step))
              (record {
                below = omega (arith, f.below);
                nul = ap mem there ∙ f.nul;
                before = ap (λ l. mem a ∷ l) f.before;
                clean = ap (λ x. position_of_nul (x ∷ bytes_at mem (suc a) m)) e ∙ ap next f.clean;
              })
      ]
]

position-append :
    (xs ys : List ℕ)
    → position_of_nul xs ≡ none
    → position_of_nul ys ≡ none
    → position_of_nul (xs ++ ys) ≡ none
position-append [] ys h h' = h'
position-append (zero ∷ xs) ys h h' = absurd cc
position-append (suc x ∷ xs) ys h h' = elim (Option-cases (position_of_nul xs)) [
  | inl e ↦ rw (position-append xs ys e h') refl
  | inr (n, e) ↦ absurd (cc (ap next (sym e) ∙ h))
]

page_len_pos : (address offset : ℕ) → offset < max_path → 0 < page_len address offset
page_len_pos address offset h = omega (arith, h)

-- The loop returns: a path with the bytes up to the first NUL, which is in the first page's length, or
-- an error.
abbrev pub IsPath : (ℕ → ℕ) → ℕ → Option (Action (List ℕ)) → Type 0
IsPath mem address none = ⊥
IsPath mem address (some (failed e, calls)) = Unit
IsPath mem address (some (done path, calls)) =
    (length path < max_path)
    × (path ≡ bytes_at mem address (length path))
    × (mem (address + length path) ≡ 0)
    × (position_of_nul path ≡ none)

module _ (k : Kernel) (pid address : ℕ) (mem : ℕ → ℕ)
    (memory : (calls : Calls) (call : ReadCall)
      → IsPrefix mem call (k.process_vm_readv calls call)) where
  -- The path ends within the bytes of a call.
  found_nul :
      (acc bytes : List ℕ) (nul : ℕ) (calls : Calls)
      → acc ≡ bytes_at mem address (length acc)
      → position_of_nul acc ≡ none
      → length acc < max_path
      → length bytes ≤ page_len address (length acc)
      → bytes ≡ bytes_at mem (address + length acc) (length bytes)
      → position_of_nul bytes ≡ some nul
      → IsPath mem address (some (done (acc ++ take nul bytes), calls))
  found_nul acc bytes nul calls h clean less fits h' at =
      let f =
        position-IsFirstNul mem (address + length acc) (length bytes) nul
          (ap position_of_nul (sym h') ∙ at) in
      let part : take nul bytes ≡ bytes_at mem (address + length acc) nul =
        ap (take nul) h' ∙ f.before in
      let size : length (take nul bytes) ≡ nul =
        ap length part ∙ length-bytes_at mem (address + length acc) nul in
      let total : length (acc ++ take nul bytes) ≡ length acc + nul =
        omega (arith, length-append acc (take nul bytes), size) in
      let place : address + length (acc ++ take nul bytes) ≡ address + length acc + nul =
        omega (arith, total) in
      (
        omega (arith, total, f.below, fits, less),
        joined k pid address mem memory acc (take nul bytes) h
            (part ∙ ap (bytes_at mem (address + length acc)) (sym size)),
        ap mem place ∙ f.nul,
        position-append acc (take nul bytes) clean (ap position_of_nul part ∙ f.clean),
      )

  read_process_c_path_lem :
      (fuel : ℕ) (acc : List ℕ) (calls : Calls)
      → max_path ≤ fuel + length acc
      → acc ≡ bytes_at mem address (length acc)
      → position_of_nul acc ≡ none
      → IsPath mem address (read_process_c_path k pid address fuel acc calls)
  unfolding read_process_c_path
  read_process_c_path_lem zero acc calls enough h clean =
      elim (Bool-cases (ltb (length acc) max_path)) [
        | inl e ↦ absurd (omega (arith, ltb→lt (length acc) max_path e, enough))
        | inr e ↦ rw e tt
      ]
  read_process_c_path_lem (suc fuel) acc calls enough h clean =
      elim (Bool-cases (ltb (length acc) max_path)) [
        | inl e ↦ elim (Bool-cases (leb (address + length acc) usize_max)) [
          | inl e' ↦
              let less = ltb→lt (length acc) max_path e in
              rw (read_process_c_path, e, e')
                (on_part k pid address mem memory (IsPath mem address) _ (length acc)
                  (page_len address (length acc)) _ (λ _ _. tt)
                  (λ bytes calls' part. elim (Option-cases (position_of_nul bytes)) [
                    | inl q ↦ rw q (
                        read_process_c_path_lem fuel (acc ++ bytes) calls'
                          (omega (arith, enough, length-append acc bytes, part.0))
                          (joined k pid address mem memory acc bytes h part.2)
                          (position-append acc bytes clean q))
                    | inr (nul, q) ↦
                        rw q (found_nul acc bytes nul calls' h clean less part.1 part.2 q)
                  ])
                  (once-IsPart k pid address mem memory (length acc) (page_len address (length acc))
                    calls (page_len_pos address (length acc) less)))
          | inr e' ↦ rw (read_process_c_path, e, e') tt
        ]
        | inr e ↦ rw (read_process_c_path, e) tt
      ]

-- If the kernel's answers are parts of a memory that does not change, then the loop of
-- `read_process_c_path` returns, and what it returns is an error or the bytes from the address up to the
-- first NUL, which are fewer than `PATH_MAX`.
pub read_process_c_path-IsPath :
    (k : Kernel) (pid address : ℕ) (mem : ℕ → ℕ) (calls : Calls)
    → ((calls' : Calls) (call : ReadCall) → IsPrefix mem call (k.process_vm_readv calls' call))
    → IsPath mem address (read_process_c_path k pid address max_path [] calls)
read_process_c_path-IsPath k pid address mem calls memory =
    read_process_c_path_lem k pid address mem memory max_path [] calls (omega arith) refl refl
