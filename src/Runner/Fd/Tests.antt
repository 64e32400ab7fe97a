-- ===== src/Runner/Fd/Tests.antt =====
-- A kernel that hands out descriptor 7 and interrupts the first call, and the theorems on the
-- tracker and the file tables there.
use sys_tester.Base.{
  ℕ, zero, suc, ◌+◌, ◌^◌, ◌≤◌, ◌<◌, ◌≡◌, ◌≢◌, refl, ◌⊎◌, ◌↔◌, true, none, some, List, [], ◌∷◌,
  arith,
}
use sys_tester.Base.Signed.{ℤ, pos, negsuc, IsNegative, IsI32, cast_u32, is_negative}
use sys_tester.Base.Result.{done, failed}
use sys_tester.Model.{mock_fd}
use sys_tester.Runner.Tracker.{
  Notif, Response, Reply, Host, Calls, Ioctl, notif_recv, notif_send, notif_addfd, notif_id_valid,
  recv, respond, respond_errno, add_fd, add_fd_call, send_response, checked, unit_checked,
}
use sys_tester.Runner.Tracker.Correct.{
  respond_errno-IsNegative, received, IsInterrupted, recv_retries,
}
use sys_tester.Runner.Fd.{real, mock, mock_fd_base}
use sys_tester.Runner.Fd.Range.{raw_fd, lookup_fd, respond_real, respond_mock}
use sys_tester.Runner.Fd.Range.Correct.{raw_fd_iff_lookup_fd}
use sys_tester.Runner.Fd.Range.Answers.{
  returns, added_fd, respond_mock-lookup_fd, respond_real-lookup_fd,
}
use sys_tester.Runner.Fd.Mapped.{
  Files, empty, insert, respond_real as respond_real_mapped, respond_mock as respond_mock_mapped,
}
use sys_tester.Runner.Fd.Mapped.Correct.{added, Recorded, respond-Recorded}

abbrev request_9 : Notif
request_9 = record { id = 9 }

-- `EINTR` is 4; the first `notif_recv` fails with it.
abbrev answer : List Ioctl → Ioctl → Reply
answer [] notif_recv = record { rc = negsuc 0; errno = pos 4; notif = request_9 }
answer (c ∷ cs) notif_recv = record { rc = pos 0; errno = pos 4; notif = request_9 }
answer cs (notif_addfd a) = record { rc = pos 7; errno = pos 0; notif = request_9 }
answer cs (notif_send r) = record { rc = pos 0; errno = pos 0; notif = request_9 }
answer cs (notif_id_valid id) = record { rc = pos 0; errno = pos 0; notif = request_9 }

abbrev host : Host
host = record {
  ioctl = answer;
  eintr = pos 4;
  eio = pos 5;
  emfile = pos 24;
  o_cloexec = 524288;
  addfd_flag_setfd = 1;
  addfd_flag_send = 2;
  user_notif_flag_continue = 1;
}

abbrev no_calls : Calls
no_calls = []

answer-IsI32 : (cs : Calls) (c : Ioctl) → IsI32 (answer cs c).rc
answer-IsI32 [] notif_recv = omega arith
answer-IsI32 (c ∷ cs) notif_recv = omega arith
answer-IsI32 [] (notif_addfd a) = omega arith
answer-IsI32 (c ∷ cs) (notif_addfd a) = omega arith
answer-IsI32 [] (notif_send r) = omega arith
answer-IsI32 (c ∷ cs) (notif_send r) = omega arith
answer-IsI32 [] (notif_id_valid id) = omega arith
answer-IsI32 (c ∷ cs) (notif_id_valid id) = omega arith

respond_errno-IsNegative_example :
    (r : Response) × ((respond_errno host request_9 (pos 2) no_calls).1 ≡ notif_send r ∷ no_calls)
    × (r.id ≡ 9)
    × (r.flags ≡ 0)
    × IsNegative r.error
respond_errno-IsNegative_example = respond_errno-IsNegative host 4 request_9 (pos 2) no_calls refl

IsInterrupted-once :
    (i : ℕ) → i < 1 → IsInterrupted host (host.ioctl (received i no_calls) notif_recv)
IsInterrupted-once zero l = (refl, refl)
IsInterrupted-once (suc i) l = absurd (omega (arith, l))

recv_retries_example :
    recv host 2 no_calls ≡ some (done request_9, notif_recv ∷ notif_recv ∷ no_calls)
recv_retries_example = recv_retries host 1 no_calls IsInterrupted-once (λ b. absurd (cc (b.0)))

raw_fd_iff_lookup_fd_example :
    ((raw_fd (mock_fd 3) ≡ some (pos 1048579))
      ↔ (lookup_fd (pos 1048579) ≡ some (mock (mock_fd 3))))
    × ((raw_fd (mock_fd 3) ≡ none) ↔ (2 ^ 31 ≤ mock_fd_base + 3))
raw_fd_iff_lookup_fd_example = raw_fd_iff_lookup_fd (pos 1048579) 3 (omega arith) (omega arith)

respond_mock-lookup_fd_example :
    ((calls' : Calls)
      → respond_mock host (mock_fd 3) (pos 5) request_9 no_calls ≡ (done tt, calls')
      → (fd : ℤ) × (lookup_fd fd ≡ some (mock (mock_fd 3)))
        × (calls'
            ≡ notif_send (returns request_9 fd)
              ∷ notif_addfd (record {
                id = 9;
                flags = 1;
                srcfd = cast_u32 (pos 5);
                newfd = cast_u32 fd;
                newfd_flags = 0;
              })
              ∷ no_calls))
    × (raw_fd (mock_fd 3) ≡ none
        → respond_mock host (mock_fd 3) (pos 5) request_9 no_calls ≡ (failed (pos 24), no_calls))
respond_mock-lookup_fd_example =
    respond_mock-lookup_fd host 3 (pos 5) request_9 no_calls (omega arith)

answers_real : respond_real host (pos 5) request_9 no_calls ≡ (
  done tt,
  notif_send (returns request_9 (pos 7)) ∷ notif_addfd (added_fd request_9 (pos 5)) ∷ no_calls,
)
unfolding respond_real add_fd add_fd_call checked respond send_response unit_checked
answers_real = refl

respond_real-lookup_fd_example :
    (r : Response) × ((notif_send (returns request_9 (pos 7))
        ∷ notif_addfd (added_fd request_9 (pos 5))
        ∷ no_calls)
      ≡ notif_send r ∷ notif_addfd (added_fd request_9 (pos 5)) ∷ no_calls)
    × (((r ≡ returns request_9 (pos 7)) × (lookup_fd (pos 7) ≡ some real))
        ⊎ ((lookup_fd (pos 7) ≢ some real) × IsNegative r.error))
respond_real-lookup_fd_example =
    respond_real-lookup_fd host 4 (pos 5) request_9 no_calls
      (notif_send (returns request_9 (pos 7)) ∷ notif_addfd (added_fd request_9 (pos 5)) ∷ no_calls)
      refl answer-IsI32 answers_real

respond-Recorded_example :
    ((calls' : Calls) (s' : Files)
      → respond_real_mapped host empty (pos 5) request_9 no_calls ≡ ((done tt, calls'), s')
      → Recorded host real empty (pos 5) request_9 no_calls calls' s')
    × ((calls' : Calls) (s' : Files)
        → respond_mock_mapped host (mock_fd 3) empty (pos 5) request_9 no_calls
          ≡ ((done tt, calls'), s')
        → Recorded host (mock (mock_fd 3)) empty (pos 5) request_9 no_calls calls' s')
    × (is_negative (added host (pos 5) request_9 no_calls).rc ≡ true
        → (respond_real_mapped host empty (pos 5) request_9 no_calls
            ≡ ((failed (pos 0), notif_addfd (added_fd request_9 (pos 5)) ∷ no_calls), empty))
          × (respond_mock_mapped host (mock_fd 3) empty (pos 5) request_9 no_calls
              ≡ ((failed (pos 0), notif_addfd (added_fd request_9 (pos 5)) ∷ no_calls), empty)))
respond-Recorded_example = respond-Recorded host (mock_fd 3) empty (pos 5) request_9 no_calls

-- Both answers of the map, for a descriptor 7 of the kernel.
answers_mapped :
    (respond_real_mapped host empty (pos 5) request_9 no_calls ≡ (
      (
        done tt,
        notif_send (returns request_9 (pos 7))
            ∷ notif_addfd (added_fd request_9 (pos 5))
            ∷ no_calls,
      ),
      insert empty (pos 7) real,
    ))
    × (respond_mock_mapped host (mock_fd 3) empty (pos 5) request_9 no_calls ≡ (
      (
        done tt,
        notif_send (returns request_9 (pos 7))
            ∷ notif_addfd (added_fd request_9 (pos 5))
            ∷ no_calls,
      ),
      insert empty (pos 7) (mock (mock_fd 3)),
    ))
unfolding respond_real_mapped respond_mock_mapped add_fd add_fd_call checked respond send_response
    unit_checked
answers_mapped = (refl, refl)
