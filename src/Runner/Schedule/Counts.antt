-- ===== src/Runner/Schedule/Counts.antt =====
-- Counting in lists of atoms: occurrences, and the atoms that are not done yet.
use sys_tester.Base.{
  ℕ, suc, ◌+◌, ◌≤◌, ◌<◌, ◌≡◌, refl, ◌↔◌, inl, inr, Bool, true, false, List, [], ◌∷◌, length, ◌==◌,
  Bool-cases, if◌then◌else◌, ◌∈◌, arith,
}

abbrev pub count : ℕ → List ℕ → ℕ
count a [] = 0
count a (x ∷ xs) = if a == x then suc (count a xs) else count a xs

abbrev pub memb : ℕ → List ℕ → Bool
memb a [] = false
memb a (x ∷ xs) = if a == x then true else memb a xs

-- How many of the atoms are not in `done`.
abbrev pub pending : List ℕ → List ℕ → ℕ
pending done [] = 0
pending done (p ∷ ps) = if memb p done then pending done ps else suc (pending done ps)

pub memb_iff : (a : ℕ) (xs : List ℕ) → (memb a xs ≡ true) ↔ (a ∈ xs)
memb_iff a [] = (λ h. cc, λ m. absurd m)
memb_iff a (x ∷ xs) = ground (arith, memb_iff a xs)

pub mem_of_count : (a : ℕ) (xs : List ℕ) → 0 < count a xs → a ∈ xs
mem_of_count a [] h = absurd (omega arith)
mem_of_count a (x ∷ xs) h = ground (arith, mem_of_count a xs)

pub count_pos_of_mem : (a : ℕ) (xs : List ℕ) → a ∈ xs → 0 < count a xs
count_pos_of_mem a (x ∷ xs) m = ground (arith, count_pos_of_mem a xs)
count_pos_of_mem a [] m = absurd m

-- An atom that gets done is waited for no more, as often as it stands in the list.
pub pending-cons :
    (id : ℕ) (done ps : List ℕ)
    → ¬ (id ∈ done)
    → pending (id ∷ done) ps + count id ps ≡ pending done ps
pending-cons id done [] off = refl
pending-cons id done (p ∷ ps) off = ground (arith, pending-cons id done ps off, memb_iff id done)

pub pending-nil : (ps : List ℕ) → pending [] ps ≡ length ps
pending-nil [] = refl
pending-nil (p ∷ ps) = omega (arith, pending-nil ps)

pub pending-le-length : (done ps : List ℕ) → pending done ps ≤ length ps
pending-le-length done [] = omega arith
pending-le-length done (p ∷ ps) = ground (arith, pending-le-length done ps)

-- Nothing is pending if all is done, and the other way round.
pub done_of_pending_zero : (done ps : List ℕ) (p : ℕ) → pending done ps ≡ 0 → p ∈ ps → p ∈ done
done_of_pending_zero done [] p h m = absurd m
done_of_pending_zero done (x ∷ ps) p h m =
    ground (arith, done_of_pending_zero done ps p, memb_iff x done)

pub pending_zero_of_done : (done ps : List ℕ) → ((p : ℕ) → p ∈ ps → p ∈ done) → pending done ps ≡ 0
pending_zero_of_done done [] h = refl
pending_zero_of_done done (p ∷ ps) h =
    rw ((memb_iff p done).1 (h p (inl refl))) (pending_zero_of_done done ps (λ q m. h q (inr m)))

-- If something is pending, one of the atoms is not done.
pub pending_one : (done ps : List ℕ) → 0 < pending done ps → (p : ℕ) × (p ∈ ps) × (¬ (p ∈ done))
pending_one done [] h = absurd (omega arith)
pending_one done (p ∷ ps) h = elim (Bool-cases (memb p done)) [
  | inl e ↦ let (q, m, off) = pending_one done ps (ground (arith, h, e)) in (q, inr m, off)
  | inr e ↦ (p, inl refl, λ d. absurd (cc (e, (memb_iff p done).1 d)))
]
