-- ===== src/Pstest/Pulling/Room.antt =====
-- The goroutines of a stream do not wait for room in `errc` (gcpapi/pubsub/pstest/fake.go).
use gcp_emulator_pool.Common.{
  ℕ, ◌+◌, ◌≤◌, ◌≡◌, ◌≢◌, refl, sym, ap, subst, ◌∙◌, arith, Bool, true, false, Option, some, [], ◌∷◌,
  length, length-append,
}
use gcp_emulator_pool.Pstest.Pulling.{
  StreamError, SendPc, selecting, sending, send_reports, send_ended, RecvPc, recv_ended, PullPc,
  waits, returned, panicked, Pull, errc_capacity, close_done, Move, takes_message, sees_done, sends,
  send_fails, reports_send, recv_fails, reports_recv, gets_error, times_out, closes, new_pull, Runs,
  here, then_move,
}

-- A goroutine that has still to send its result.
abbrev pub owes_send : SendPc → ℕ
owes_send send_ended = 0
owes_send pc = 1

abbrev pub owes_recv : RecvPc → ℕ
owes_recv recv_ended = 0
owes_recv pc = 1

-- Whether `pull` has closed `done`.
abbrev pub has_closed : PullPc → Bool
has_closed (returned err) = true
has_closed panicked = true
has_closed pc = false

pub owes_send_le : (pc : SendPc) → owes_send pc ≤ 1
owes_send_le selecting = omega arith
owes_send_le (sending rm) = omega arith
owes_send_le (send_reports x) = omega arith
owes_send_le send_ended = omega arith

-- There is room for what is still to be sent, and `done` is closed by the end of `pull`, once.
pub record Fits (s : Pull) : Type 0 where
  pub room : length s.errc + owes_send s.send + owes_recv s.recv ≤ errc_capacity
  pub queued : s.main ≡ waits → length s.errc + owes_send s.send + owes_recv s.recv ≡ errc_capacity
  pub closed_once : s.is_done ≡ has_closed s.main
  pub no_panic : s.main ≢ panicked

pub closing :
    (s : Pull) (err : Option StreamError)
    → s.is_done ≡ false
    → close_done err s ≡ record s { main = returned err; is_done = true }
unfolding close_done
closing s err h = rw (h, close_done) refl

pub Move-Fits : {has_timeout : Bool} {s t : Pull} → Move has_timeout s t → Fits s → Fits t
Move-Fits (takes_message rm h) inv = record {
  room = omega (arith, inv.room, ap owes_send h);
  queued = λ m. omega (arith, inv.queued m, ap owes_send h);
  closed_once = inv.closed_once;
  no_panic = inv.no_panic;
}
Move-Fits (sees_done h d) inv = record {
  room = omega (arith, inv.room, ap owes_send h);
  queued = λ m. omega (arith, inv.queued m, ap owes_send h);
  closed_once = inv.closed_once;
  no_panic = inv.no_panic;
}
Move-Fits (sends rm h) inv = record {
  room = omega (arith, inv.room, ap owes_send h);
  queued = λ m. omega (arith, inv.queued m, ap owes_send h);
  closed_once = inv.closed_once;
  no_panic = inv.no_panic;
}
Move-Fits (send_fails rm e h) inv = record {
  room = omega (arith, inv.room, ap owes_send h);
  queued = λ m. omega (arith, inv.queued m, ap owes_send h);
  closed_once = inv.closed_once;
  no_panic = inv.no_panic;
}
Move-Fits {s = s} (reports_send r h lt) inv = record {
  room = omega (arith, inv.room, ap owes_send h, length-append s.errc (r ∷ []));
  queued = λ m. omega (arith, inv.queued m, ap owes_send h, length-append s.errc (r ∷ []));
  closed_once = inv.closed_once;
  no_panic = inv.no_panic;
}
Move-Fits (recv_fails e h) inv = record {
  room = omega (arith, inv.room, ap owes_recv h);
  queued = λ m. omega (arith, inv.queued m, ap owes_recv h);
  closed_once = inv.closed_once;
  no_panic = inv.no_panic;
}
Move-Fits {s = s} (reports_recv e h lt) inv = record {
  room = omega (arith, inv.room, ap owes_recv h, length-append s.errc (some e ∷ []));
  queued = λ m. omega (arith, inv.queued m, ap owes_recv h, length-append s.errc (some e ∷ []));
  closed_once = inv.closed_once;
  no_panic = inv.no_panic;
}
Move-Fits (gets_error r rest h q) inv = record {
  room = omega (arith, inv.room, ap length q);
  queued = λ m. absurd (cc);
  closed_once = inv.closed_once ∙ ap has_closed h;
  no_panic = λ p. cc;
}
Move-Fits (times_out h q) inv = record {
  room = inv.room;
  queued = λ m. absurd (cc);
  closed_once = inv.closed_once ∙ ap has_closed h;
  no_panic = λ p. cc;
}
Move-Fits {s = s} (closes err h) inv =
    subst Fits (sym (closing s err (inv.closed_once ∙ ap has_closed h))) (record {
      room = inv.room;
      queued = λ m. absurd (cc);
      closed_once = refl;
      no_panic = λ p. cc;
    })

pub Runs-Fits : {has_timeout : Bool} {s t : Pull} → Fits s → Runs has_timeout s t → Fits t
Runs-Fits inv here = inv
Runs-Fits inv (then_move r m) = Move-Fits m (Runs-Fits inv r)

pub new-Fits : Fits new_pull
new-Fits = record { room = omega arith; queued = λ m. refl; closed_once = refl; no_panic = λ p. cc }

-- In every state that the goroutines reach, in any order of their steps, no goroutine waits for room
-- in `errc`: beside the results that stand there, there is room for one of each of `sendLoop` and
-- `recvLoop` that has not sent its own. And `done` is closed at most once: the state `panicked` is
-- not reached, and `done` is closed just when `pull` has returned.
pub errors_have_room :
    {has_timeout : Bool} {s : Pull}
    → Runs has_timeout new_pull s
    → (length s.errc + owes_send s.send + owes_recv s.recv ≤ errc_capacity)
      × (s.main ≢ panicked)
      × (s.is_done ≡ has_closed s.main)
errors_have_room run = let inv = Runs-Fits new-Fits run in (inv.room, inv.no_panic, inv.closed_once)
