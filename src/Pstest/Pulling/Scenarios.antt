-- ===== src/Pstest/Pulling/Scenarios.antt =====
-- A stream whose client goes away (gcpapi/pubsub/pstest/fake.go).
use gcp_emulator_pool.Common.{◌+◌, ◌≤◌, ◌≡◌, ◌≢◌, refl, true, false, none, some, [], length}
use gcp_emulator_pool.Pstest.Pb.{ReceivedMessage}
use gcp_emulator_pool.Pstest.Pulling.{
  eof, send_reports, send_ended, recv_ended, panicked, Pull, errc_capacity, new_pull, Runs, here,
  then_move, takes_message, send_fails,
}
use gcp_emulator_pool.Pstest.Pulling.Room.{owes_send, owes_recv, has_closed, errors_have_room}
use gcp_emulator_pool.Pstest.Pulling.Ending.{pull_can_end}

abbrev a_message : ReceivedMessage
a_message = record { ack_id = []; message = none }

abbrev failed : Pull
failed = record new_pull { send = send_reports (some eof) }

failing : Runs false new_pull failed
failing = then_move (then_move here (takes_message a_message refl)) (send_fails a_message eof refl)

errors_have_room_example :
    (length failed.errc + owes_send failed.send + owes_recv failed.recv ≤ errc_capacity)
    × (failed.main ≢ panicked)
    × (failed.is_done ≡ has_closed failed.main)
errors_have_room_example = errors_have_room failing

pull_can_end_example :
    (t : Pull) × Runs false failed t
    × (t.recv ≡ recv_ended)
    × (t.is_done ≡ true)
    × (t.send ≡ send_ended)
pull_can_end_example = pull_can_end false failed failing
