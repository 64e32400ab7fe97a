-- ===== src/Runner/Tracker/Correct.antt =====
-- What the kernel is told when the tracker answers a notification with an error.
use sys_tester.Base.{
  ℕ, zero, suc, ◌-◌, ◌^◌, ◌≡◌, refl, inl, inr, Bool-cases, ◌==◌, if◌then◌else◌, ◌∷◌, ◌<◌, some,
  arith, true, false,
}
use sys_tester.Base.Signed.{ℤ, pos, negsuc, same, IsNegative, neg_i32}
use sys_tester.Base.Result.{done, failed}
use sys_tester.Runner.Errno.{normalize}
use sys_tester.Runner.Tracker.{
  Notif, Response, Reply, Host, Calls, notif_send, notif_recv, recv, respond_errno, send_response,
}

IsNegative-normalize :
    (eio : ℤ) (k : ℕ) (error : ℤ) → eio ≡ pos (suc k) → IsNegative (neg_i32 (normalize eio error))
unfolding normalize
IsNegative-normalize eio k (pos zero) e = rw e tt
IsNegative-normalize eio k (pos (suc n)) e = tt
IsNegative-normalize eio k (negsuc n) e = elim (Bool-cases (n == 2 ^ 31 - 1)) [
  | inl h ↦ rw (h, h) tt
  | inr h ↦ rw h tt
]

-- If `EIO` is positive, as it is, then `respond_errno` with any code, positive, negative or 0, makes
-- one call: it sends a response with the id of the request and a negative error, which the program
-- sees as a failed system call.
pub respond_errno-IsNegative :
    (h : Host) (k : ℕ) (req : Notif) (error : ℤ) (calls : Calls)
    → h.eio ≡ pos (suc k)
    → (r : Response) × ((respond_errno h req error calls).1 ≡ notif_send r ∷ calls)
      × (r.id ≡ req.id)
      × (r.flags ≡ 0)
      × IsNegative r.error
unfolding respond_errno send_response
respond_errno-IsNegative h k req error calls e =
    (_, refl, refl, refl, IsNegative-normalize h.eio k error e)

-- The calls after `n` more `notif_recv`.
abbrev pub received : ℕ → Calls → Calls
received zero calls = calls
received (suc n) calls = received n (notif_recv ∷ calls)

abbrev pub IsInterrupted : Host → Reply → Type 0
IsInterrupted h reply = (same reply.rc (pos 0) ≡ false) × (same reply.errno h.eintr ≡ true)

-- If the kernel interrupts the first `n` calls of `recv` and not the next one, then `recv` returns after
-- `n + 1` calls: the notification if the last call returned 0, otherwise its error.
pub recv_retries :
    (h : Host) (n : ℕ) (calls : Calls)
    → ((i : ℕ) → i < n → IsInterrupted h (h.ioctl (received i calls) notif_recv))
    → ¬ IsInterrupted h (h.ioctl (received n calls) notif_recv)
    → recv h (suc n) calls
      ≡ some (
        (if same (h.ioctl (received n calls) notif_recv).rc (pos 0)
            then done (h.ioctl (received n calls) notif_recv).notif
            else failed (h.ioctl (received n calls) notif_recv).errno),
        received (suc n) calls,
      )
unfolding recv
recv_retries h zero calls busy free =
    elim (Bool-cases (same (h.ioctl calls notif_recv).rc (pos 0))) [
      | inl e ↦ rw e refl
      | inr e ↦ elim (Bool-cases (same (h.ioctl calls notif_recv).errno h.eintr)) [
        | inl e' ↦ absurd (free (e, e'))
        | inr e' ↦ rw (e, e') refl
      ]
    ]
recv_retries h (suc n) calls busy free =
    let (e, e') = busy 0 (omega arith) in
    rw (recv, e, e')
      (recv_retries h n (notif_recv ∷ calls) (λ i l. busy (suc i) (omega (arith, l))) free)
