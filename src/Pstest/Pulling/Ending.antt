-- ===== src/Pstest/Pulling/Ending.antt =====
-- The goroutines of a stream can end (gcpapi/pubsub/pstest/fake.go).
use gcp_emulator_pool.Common.{
  ◌≡◌, refl, ap, subst, ◌∙◌, arith, Bool, true, Option, none, some, List, [], ◌∷◌, length,
}
use gcp_emulator_pool.Pstest.Pulling.{
  StreamError, eof, SendPc, selecting, sending, send_reports, send_ended, RecvPc, receiving,
  recv_reports, recv_ended, PullPc, waits, stops, returned, panicked, Pull, without_eof, Move,
  sees_done, send_fails, reports_send, recv_fails, reports_recv, gets_error, closes, new_pull, Runs,
  here, then_move,
}
use gcp_emulator_pool.Pstest.Pulling.Room.{
  owes_send, owes_recv, owes_send_le, has_closed, Fits, closing, Move-Fits, Runs-Fits, new-Fits,
}

module _ (b : Bool) where
  join : {s t u : Pull} → Runs b s t → Runs b t u → Runs b s u
  join r here = r
  join r (then_move q m) = then_move (join r q) m

  -- A state that can be reached from `s`, and where `P` holds.
  abbrev Reaches : Pull → (Pull → Type 0) → Type 0
  Reaches s P = (t : Pull) × Runs b s t × Fits t × P t

  -- One more move in front.
  after_move :
      {s t : Pull} (P : Pull → Type 0) → Move b s t → Fits s → (Fits t → Reaches t P) → Reaches s P
  after_move P m inv go =
      let (u, r, fits, p) = go (Move-Fits m inv) in (u, join (then_move here m) r, fits, p)

  abbrev RecvEnded : Pull → Type 0
  RecvEnded t = t.recv ≡ recv_ended

  recv_report_ends :
      (s : Pull) (e : StreamError) → Fits s → s.recv ≡ recv_reports e → Reaches s RecvEnded
  recv_report_ends s e inv h =
      after_move RecvEnded (reports_recv e h (omega (arith, inv.room, ap owes_recv h))) inv
        λ fits. (_, here, fits, refl)

  recv_ends_from : (s : Pull) (pc : RecvPc) → Fits s → s.recv ≡ pc → Reaches s RecvEnded
  recv_ends_from s receiving inv h =
      after_move RecvEnded (recv_fails eof h) inv λ fits. recv_report_ends _ eof fits refl
  recv_ends_from s (recv_reports e) inv h = recv_report_ends s e inv h
  recv_ends_from s recv_ended inv h = (s, here, inv, h)

  -- `recvLoop` has ended and `pull` has returned.
  abbrev PullEnded : Pull → Type 0
  PullEnded t = (t.recv ≡ recv_ended) × (t.is_done ≡ true)

  stop_ends :
      (s : Pull) (err : Option StreamError)
      → Fits s
      → s.recv ≡ recv_ended
      → s.main ≡ stops err
      → Reaches s PullEnded
  stop_ends s err inv r h =
      let same = closing s err (inv.closed_once ∙ ap has_closed h) in
      after_move PullEnded (subst (Move b s) same (closes err h)) inv
        λ fits. (_, here, fits, (r, refl))

  pull_ends_from :
      (s : Pull) (pc : PullPc) → Fits s → s.recv ≡ recv_ended → s.main ≡ pc → Reaches s PullEnded
  pull_ends_from s waits inv r h = queue s.errc refl
    where
      queue : (es : List (Option StreamError)) → s.errc ≡ es → Reaches s PullEnded
      queue [] e =
          absurd (omega (arith, inv.queued h, ap length e, ap owes_recv r, owes_send_le s.send))
      queue (x ∷ es) e =
          after_move PullEnded (gets_error x es h e) inv
            λ fits. stop_ends _ (without_eof x) fits r refl
  pull_ends_from s (stops err) inv r h = stop_ends s err inv r h
  pull_ends_from s (returned err) inv r h = (s, here, inv, (r, inv.closed_once ∙ ap has_closed h))
  pull_ends_from s panicked inv r h = absurd (inv.no_panic h)

  -- All three have ended.
  abbrev AllEnded : Pull → Type 0
  AllEnded t = (t.recv ≡ recv_ended) × (t.is_done ≡ true) × (t.send ≡ send_ended)

  send_report_ends :
      (s : Pull) (x : Option StreamError)
      → Fits s
      → PullEnded s
      → s.send ≡ send_reports x
      → Reaches s AllEnded
  send_report_ends s x inv p h =
      after_move AllEnded (reports_send x h (omega (arith, inv.room, ap owes_send h))) inv
        λ fits. (_, here, fits, (p.0, p.1, refl))

  send_ends_from :
      (s : Pull) (pc : SendPc) → Fits s → PullEnded s → s.send ≡ pc → Reaches s AllEnded
  send_ends_from s selecting inv p h =
      after_move AllEnded (sees_done h p.1) inv λ fits. send_report_ends _ none fits p refl
  send_ends_from s (sending rm) inv p h =
      after_move AllEnded (send_fails rm eof h) inv
        λ fits. send_report_ends _ (some eof) fits p refl
  send_ends_from s (send_reports x) inv p h = send_report_ends s x inv p h
  send_ends_from s send_ended inv p h = (s, here, inv, (p.0, p.1, h))

  ends_from : (s : Pull) → Fits s → Reaches s AllEnded
  ends_from s inv =
      let (t, r, fits, h) = recv_ends_from s s.recv inv refl in
      let (u, q, fits', k) = pull_ends_from t t.main fits h refl in
      let (v, o, fits'', l) = send_ends_from u u.send fits' k refl in
      (v, join (join r q) o, fits'', l)

  -- From every state that the goroutines reach they can all end, if the client's stream fails when
  -- it is read or written: no order of their steps leaves one of them waiting for another for ever.
  pub pull_can_end :
      (s : Pull)
      → Runs b new_pull s
      → (t : Pull) × Runs b s t × (t.recv ≡ recv_ended) × (t.is_done ≡ true) × (t.send ≡ send_ended)
  pull_can_end s run =
      let (t, r, fits, e) = ends_from s (Runs-Fits new-Fits run) in (t, r, e.0, e.1, e.2)
