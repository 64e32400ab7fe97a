-- ===== src/Runner/Fd/Range/Answers.antt =====
-- What a child can do with the descriptors that `RangeFileSpace` answers with.
use sys_tester.Base.{
  ℕ, suc, ◌-◌, ◌%◌, ◌^◌, ◌≤◌, ◌<◌, ◌≡◌, ◌≢◌, refl, ◌⊎◌, inl, inr, Bool, false, none, some, ◌∷◌, leb,
  leb→le, if◌then◌else◌, Bool-cases, Option-cases, ap, sym, ◌∙◌, subst, arith,
}
use sys_tester.Base.Signed.{ℤ, pos, negsuc, IsNegative, IsI32, cast_u32, cast_u64, is_negative}
use sys_tester.Base.Result.{Result, done, failed}
use sys_tester.Model.{MockFd, mock_fd, u32_max}
use sys_tester.Runner.Tracker.{
  Notif, Response, AddFd, Reply, Host, Calls, Action, Ioctl, notif_send, notif_addfd, checked,
  respond, respond_errno, send_response, add_fd, add_fd_at, add_fd_call,
}
use sys_tester.Runner.Tracker.Correct.{respond_errno-IsNegative}
use sys_tester.Runner.Fd.{real, mock, mock_fd_base, and_then}
use sys_tester.Runner.Fd.Range.{raw_fd, lookup_fd, respond_real, respond_mock}
use sys_tester.Runner.Fd.Range.Correct.{
  raw_fd_iff_lookup_fd, lookup_fd-real, lookup_fd-mock, raw_fd-IsI32,
}

-- The response that makes the system call return `value`.
abbrev pub returns : Notif → ℤ → Response
returns req value = record { id = req.id; val = value; error = pos 0; flags = 0 }

and_then-done :
    {A B : Type 0} (x : Action A) (f : A → Calls → Action B) (b : B) (calls' : Calls)
    → and_then x f ≡ (done b, calls')
    → (a : A) × (c : Calls) × (x ≡ (done a, c)) × (f a c ≡ (done b, calls'))
and_then-done (done a, c) f b calls' e = (a, c, refl, e)
and_then-done (failed e', c) f b calls' e = absurd (cc e)

module _ (h : Host) (m : MockFd) (backing : ℤ) (req : Notif) (calls : Calls) where
  respond_mock-none :
      raw_fd m ≡ none → respond_mock h m backing req calls ≡ (failed h.emfile, calls)
  unfolding respond_mock
  respond_mock-none e = rw (respond_mock, e) refl

  respond_mock-some :
      (fd : ℤ)
      → raw_fd m ≡ some fd
      → respond_mock h m backing req calls
        ≡ and_then (add_fd_at h req backing fd false calls) (λ _ c. respond h req fd c)
  unfolding respond_mock
  respond_mock-some fd e = rw (respond_mock, e) refl

-- If `respond_mock` succeeds, then it has put the backing file into the child under a descriptor that
-- `lookup_fd` takes for the mock, and has answered the request with this descriptor, in this order and
-- with no other call. If the mock has no descriptor, it makes no call and fails with `EMFILE`.
pub respond_mock-lookup_fd :
    (h : Host) (m : ℕ) (backing : ℤ) (req : Notif) (calls : Calls)
    → m ≤ u32_max
    → ((calls' : Calls)
        → respond_mock h (mock_fd m) backing req calls ≡ (done tt, calls')
        → (fd : ℤ) × (lookup_fd fd ≡ some (mock (mock_fd m)))
          × (calls'
              ≡ notif_send (returns req fd)
                ∷ notif_addfd (record {
                  id = req.id;
                  flags = h.addfd_flag_setfd;
                  srcfd = cast_u32 backing;
                  newfd = cast_u32 fd;
                  newfd_flags = 0;
                })
                ∷ calls))
      × (raw_fd (mock_fd m) ≡ none
          → respond_mock h (mock_fd m) backing req calls ≡ (failed h.emfile, calls))
unfolding respond send_response add_fd_at add_fd_call
respond_mock-lookup_fd h m backing req calls small = (answered, refused)
  where
    refused :
        raw_fd (mock_fd m) ≡ none
        → respond_mock h (mock_fd m) backing req calls ≡ (failed h.emfile, calls)
    refused = respond_mock-none h (mock_fd m) backing req calls

    answered :
        (calls' : Calls)
        → respond_mock h (mock_fd m) backing req calls ≡ (done tt, calls')
        → (fd : ℤ) × (lookup_fd fd ≡ some (mock (mock_fd m)))
          × (calls'
              ≡ notif_send (returns req fd)
                ∷ notif_addfd (record {
                  id = req.id;
                  flags = h.addfd_flag_setfd;
                  srcfd = cast_u32 backing;
                  newfd = cast_u32 fd;
                  newfd_flags = 0;
                })
                ∷ calls)
    answered calls' e = elim (Option-cases (raw_fd (mock_fd m))) [
      | inl none_left ↦ absurd (cc (e, refused none_left))
      | inr (fd, found) ↦
          let (a, c, added, sent) =
            and_then-done (add_fd_at h req backing fd false calls) (λ _ c. respond h req fd c) tt
              calls' (sym (respond_mock-some h (mock_fd m) backing req calls fd found) ∙ e) in
          (
            fd,
            (raw_fd_iff_lookup_fd fd m (raw_fd-IsI32 m fd found) small).0.0 found,
            sym (ap (λ (x : Action (Unit {0})). x.1) sent)
                ∙ ap (λ l. notif_send (returns req fd) ∷ l)
                    (sym (ap (λ (x : Action ℤ). x.1) added)),
          )
    ]

-- The call that puts a backing file into the child under a number that the kernel chooses.
abbrev pub added_fd : Notif → ℤ → AddFd
added_fd req backing = record {
  id = req.id;
  flags = 0;
  srcfd = cast_u32 backing;
  newfd = 0;
  newfd_flags = 0;
}

pub checked-done :
    (h : Host) (reply : Reply) (fd : ℤ)
    → checked h reply ≡ done fd
    → (reply.rc ≡ fd) × (is_negative reply.rc ≡ false)
unfolding checked
checked-done h reply fd e = elim (Bool-cases (is_negative reply.rc)) [
  | inl neg ↦
      absurd (cc (subst (λ b. (if b then failed reply.errno else done reply.rc) ≡ done fd) neg e))
  | inr neg ↦ (
    ap (value reply.rc)
        (subst (λ b. (if b then failed reply.errno else done reply.rc) ≡ done fd) neg e),
    neg,
  )
]
  where
    value : ℤ → Result ℤ ℤ → ℤ
    value d (done v) = v
    value d (failed _) = d

-- What `respond_real` does with a descriptor of the kernel.
module _ (h : Host) (k : ℕ) (req : Notif) (calls calls' : Calls)
    (positive : h.eio ≡ pos (suc k)) where
  settle :
      (fd : ℤ)
      → IsI32 fd
      → is_negative fd ≡ false
      → (if leb mock_fd_base (cast_u64 fd)
          then respond_errno h req h.emfile calls
          else respond h req fd calls)
        ≡ (done tt, calls')
      → (r : Response) × (calls' ≡ notif_send r ∷ calls)
        × (((r ≡ returns req fd) × (lookup_fd fd ≡ some real))
            ⊎ ((lookup_fd fd ≢ some real) × IsNegative r.error))
  unfolding respond send_response
  settle (negsuc n) fits plain e = absurd (cc plain)
  settle (pos n) fits plain e = elim (Bool-cases (leb mock_fd_base (n % 2 ^ 64))) [
    | inl big ↦
        let (r, runs, _, _, neg) = respond_errno-IsNegative h k req h.emfile calls positive in
        let at_base : mock_fd_base ≤ n =
          omega (arith, leb→le mock_fd_base (n % 2 ^ 64) big, fits) in
        (
          r,
          sym (
                ap (λ (x : Action (Unit {0})). x.1)
                  (subst (λ b. chosen b n ≡ (done tt, calls')) big e))
              ∙ runs,
          inr (λ s. absurd (cc (s, lookup_fd-mock n at_base fits)), neg),
        )
    | inr low ↦ (
      returns req (pos n),
      sym (ap (λ (x : Action (Unit {0})). x.1) (subst (λ b. chosen b n ≡ (done tt, calls')) low e)),
      inl (refl, lookup_fd-real n (below n fits low)),
    )
  ]
    where
      chosen : Bool → ℕ → Action (Unit {0})
      chosen b n = if b then respond_errno h req h.emfile calls else respond h req (pos n) calls

      below : (n : ℕ) → n ≤ 2 ^ 31 - 1 → leb mock_fd_base (n % 2 ^ 64) ≡ false → n < mock_fd_base
      below n fits low = ground (arith, fits, low)

-- Let `EIO` be positive and let the kernel's return codes fit an `i32`. If `respond_real` succeeds, then it
-- has put the backing file into the child under a descriptor, and has either answered with this
-- descriptor, which `lookup_fd` takes for a real file, or, if `lookup_fd` would not take it for one,
-- with an error. It has made these two calls and no other.
pub respond_real-lookup_fd :
    (h : Host) (k : ℕ) (backing : ℤ) (req : Notif) (calls calls' : Calls)
    → h.eio ≡ pos (suc k)
    → ((cs : Calls) (c : Ioctl) → IsI32 (h.ioctl cs c).rc)
    → respond_real h backing req calls ≡ (done tt, calls')
    → (r : Response) × (calls' ≡ notif_send r ∷ notif_addfd (added_fd req backing) ∷ calls)
      × (((r ≡ returns req (h.ioctl calls (notif_addfd (added_fd req backing))).rc)
            × (lookup_fd (h.ioctl calls (notif_addfd (added_fd req backing))).rc ≡ some real))
          ⊎ ((lookup_fd (h.ioctl calls (notif_addfd (added_fd req backing))).rc ≢ some real)
              × IsNegative r.error))
unfolding respond_real add_fd add_fd_call
respond_real-lookup_fd h k backing req calls calls' positive fits e =
    let (fd, c, added, sent) =
      and_then-done (add_fd h req backing false calls)
        (λ fd calls'.
          if leb mock_fd_base (cast_u64 fd)
          then respond_errno h req h.emfile calls'
          else respond h req fd calls')
        tt calls' e in
    let (same, plain) =
      checked-done h (h.ioctl calls (notif_addfd (added_fd req backing))) fd
        (ap (λ (x : Action ℤ). x.0) added) in
    let (r, sent', how) =
      settle h k req c calls' positive fd (subst IsI32 same (fits calls _))
        (subst (λ x. is_negative x ≡ false) same plain) sent in
    (
      r,
      sent' ∙ ap (λ l. notif_send r ∷ l) (sym (ap (λ (x : Action ℤ). x.1) added)),
      subst
          (λ x.
            ((r ≡ returns req x) × (lookup_fd x ≡ some real))
            ⊎ ((lookup_fd x ≢ some real) × IsNegative r.error))
          (sym same) how,
    )
