-- ===== src/Runner/Fd/Mapped/Correct.antt =====
-- What the map of `MappedFileSpace` holds after an answered request.
use sys_tester.Base.{
  ◌≡◌, ◌≢◌, refl, inl, inr, sym, subst, ◌∙◌, ap, true, false, none, some, List, [], ◌∷◌, Bool-cases,
  ==→eq, ==_self,
}
use sys_tester.Base.Signed.{ℤ, pos, negsuc, same, is_negative}
use sys_tester.Base.Result.{Result, done, failed}
use sys_tester.Runner.Tracker.{
  Notif, Host, Calls, Reply, Action, notif_send, notif_addfd, checked, add_fd, add_fd_call, respond,
  send_response,
}
use sys_tester.Runner.Fd.{ChildFile, real, mock}
use sys_tester.Runner.Fd.Range.Answers.{returns, added_fd, checked-done}
use sys_tester.Model.{MockFd}
use sys_tester.Runner.Fd.Mapped.{
  Files, get, without, lookup_fd, insert, remove_file, recorded, respond_real, respond_mock,
}

same_self : (fd : ℤ) → same fd fd ≡ true
same_self (pos n) = ==_self n
same_self (negsuc n) = ==_self n

same→eq : (a b : ℤ) → same a b ≡ true → a ≡ b
same→eq (pos a) (pos b) h = ap pos (==→eq a b h)
same→eq (negsuc a) (negsuc b) h = ap negsuc (==→eq a b h)
same→eq (pos a) (negsuc b) h = absurd cc
same→eq (negsuc a) (pos b) h = absurd cc

get-without_self : (files : List (ℤ × ChildFile)) (fd : ℤ) → get (without files fd) fd ≡ none
unfolding get without
get-without_self [] fd = refl
get-without_self ((key, file) ∷ rest) fd = elim (Bool-cases (same key fd)) [
  | inl e ↦ rw e (get-without_self rest fd)
  | inr e ↦ rw (e, get, e) (get-without_self rest fd)
]

get-without_other :
    (files : List (ℤ × ChildFile)) (fd other : ℤ)
    → other ≢ fd
    → get (without files fd) other ≡ get files other
unfolding get without
get-without_other [] fd other ne = refl
get-without_other ((key, file) ∷ rest) fd other ne = elim (Bool-cases (same key fd)) [
  | inl e ↦ elim (Bool-cases (same key other)) [
    | inl e' ↦ absurd (ne (sym (same→eq key other e') ∙ same→eq key fd e))
    | inr e' ↦ rw (e, e') (get-without_other rest fd other ne)
  ]
  | inr e ↦ elim (Bool-cases (same key other)) [
    | inl e' ↦ rw (e, get, e') refl
    | inr e' ↦ rw (e, get, e') (get-without_other rest fd other ne)
  ]
]

-- After an `insert` the descriptor has the file, `remove_file` then gives it back and leaves the
-- descriptor without one, and neither changes what any other descriptor has.
insert-remove_file :
    (s : Files) (fd other : ℤ) (file : ChildFile)
    → (lookup_fd (insert s fd file) fd ≡ some file)
      × ((remove_file (insert s fd file) fd).0 ≡ some file)
      × (lookup_fd (remove_file (insert s fd file) fd).1 fd ≡ none)
      × (other ≢ fd → lookup_fd (insert s fd file) other ≡ lookup_fd s other)
      × (other ≢ fd → lookup_fd (remove_file s fd).1 other ≡ lookup_fd s other)
unfolding lookup_fd insert remove_file
insert-remove_file s fd other file =
    let here : get ((fd, file) ∷ without s.files fd) fd ≡ some file = rw (get, same_self fd) refl in
    (
      here,
      here,
      get-without_self ((fd, file) ∷ without s.files fd) fd,
      away,
      get-without_other s.files fd other,
    )
  where
    away : other ≢ fd → get ((fd, file) ∷ without s.files fd) other ≡ get s.files other
    away ne = elim (Bool-cases (same fd other)) [
      | inl e ↦ absurd (ne (sym (same→eq fd other e)))
      | inr e ↦ rw (get, e) (get-without_other s.files fd other ne)
    ]

-- The kernel's answer to the call that puts the backing file into the child.
abbrev pub added : Host → ℤ → Notif → Calls → Reply
added h backing req calls = h.ioctl calls (notif_addfd (added_fd req backing))

-- The file is under the descriptor until it is removed, the request is answered with this descriptor,
-- and all other descriptors have what they had.
abbrev pub RecordedAt : ChildFile → Files → ℤ → Notif → Calls → Calls → Files → ℤ → Type 0
RecordedAt file s backing req calls calls' s' fd =
    (lookup_fd s' fd ≡ some file)
    × ((remove_file s' fd).0 ≡ some file)
    × (lookup_fd (remove_file s' fd).1 fd ≡ none)
    × (calls' ≡ notif_send (returns req fd) ∷ notif_addfd (added_fd req backing) ∷ calls)
    × ((other : ℤ) → other ≢ fd → lookup_fd s' other ≡ lookup_fd s other)

-- This for the descriptor that the kernel chose.
abbrev pub Recorded : Host → ChildFile → Files → ℤ → Notif → Calls → Calls → Files → Type 0
Recorded h file s backing req calls calls' s' =
    RecordedAt file s backing req calls calls' s' (added h backing req calls).rc

module _ (h : Host) (file : ChildFile) (s : Files) (backing : ℤ) (req : Notif) (calls : Calls) where
  recorded-Recorded :
      (calls' : Calls) (s' : Files)
      → recorded h (λ fd. insert s fd file) s req (add_fd h req backing false calls)
        ≡ ((done tt, calls'), s')
      → Recorded h file s backing req calls calls' s'
  unfolding recorded add_fd add_fd_call respond send_response
  recorded-Recorded calls' s' e = by_result (checked h (added h backing req calls)) refl e
    where
      by_result :
          (r : Result ℤ ℤ)
          → checked h (added h backing req calls) ≡ r
          → recorded h
              (λ fd. insert s fd file)
              s
              req
              (r, notif_addfd (added_fd req backing) ∷ calls)
            ≡ ((done tt, calls'), s')
          → Recorded h file s backing req calls calls' s'
      by_result (failed x) at same = absurd (cc same)
      by_result (done fd) at same =
          let rc = (checked-done h (added h backing req calls) fd at).0 in
          let sent = ap (λ (x : Action (Unit {0}) × Files). x.0.1) same in
          let stored = ap (λ (x : Action (Unit {0}) × Files). x.1) same in
          let laws = insert-remove_file s fd fd file in
          let here : RecordedAt file s backing req calls calls' s' fd = (
            subst (λ t. lookup_fd t fd ≡ some file) stored laws.0,
            subst (λ t. (remove_file t fd).0 ≡ some file) stored laws.1,
            subst (λ t. lookup_fd (remove_file t fd).1 fd ≡ none) stored laws.2,
            sym sent,
            λ other ne.
                subst (λ t. lookup_fd t other ≡ lookup_fd s other) stored
                  ((insert-remove_file s fd other file).3 ne),
          ) in
          subst (RecordedAt file s backing req calls calls' s') (sym rc) here

  recorded-refused :
      is_negative (added h backing req calls).rc ≡ true
      → recorded h (λ fd. insert s fd file) s req (add_fd h req backing false calls) ≡ (
        (failed (added h backing req calls).errno, notif_addfd (added_fd req backing) ∷ calls),
        s,
      )
  unfolding recorded add_fd add_fd_call checked
  recorded-refused e = rw e refl

-- If `respond_real` or `respond_mock m` succeeds, then the map has the real file, or the mock `m`, under
-- the descriptor that the kernel chose for the backing file, until `remove_file` gives it back; every
-- other descriptor has what it had; and the request was answered with this descriptor, with no
-- further call. If the kernel refuses the descriptor, both fail with its error after this one call
-- and leave the map as it was.
pub respond-Recorded :
    (h : Host) (m : MockFd) (s : Files) (backing : ℤ) (req : Notif) (calls : Calls)
    → ((calls' : Calls) (s' : Files)
        → respond_real h s backing req calls ≡ ((done tt, calls'), s')
        → Recorded h real s backing req calls calls' s')
      × ((calls' : Calls) (s' : Files)
          → respond_mock h m s backing req calls ≡ ((done tt, calls'), s')
          → Recorded h (mock m) s backing req calls calls' s')
      × (is_negative (added h backing req calls).rc ≡ true
          → (respond_real h s backing req calls ≡ (
            (failed (added h backing req calls).errno, notif_addfd (added_fd req backing) ∷ calls),
            s,
          ))
            × (respond_mock h m s backing req calls ≡ (
              (
                failed (added h backing req calls).errno,
                notif_addfd (added_fd req backing) ∷ calls,
              ),
              s,
            )))
unfolding respond_real respond_mock
respond-Recorded h m s backing req calls = (
  recorded-Recorded h real s backing req calls,
  recorded-Recorded h (mock m) s backing req calls,
  λ e. (
    recorded-refused h real s backing req calls e,
    recorded-refused h (mock m) s backing req calls e,
  ),
)
