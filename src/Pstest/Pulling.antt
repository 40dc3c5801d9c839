-- ===== src/Pstest/Pulling.antt =====
-- `pull`, `sendLoop` and `recvLoop` of a stream (gcpapi/pubsub/pstest/fake.go): three goroutines,
-- interleaved in any order, that share the channel `errc`, which has room for two errors, and the
-- channel `done`. What `recvLoop` does with a request is `handle_streaming_pull_request` of Streams.
pub mod Room
pub mod Ending
pub mod Scenarios
use gcp_emulator_pool.Common.{
  ℕ, ◌<◌, ◌≡◌, Bool, true, false, Option, none, some, List, [], ◌∷◌, ◌++◌, length,
}
use gcp_emulator_pool.Pstest.Pb.{ReceivedMessage}

-- `io.EOF`, or another error.
pub data StreamError : Type 0 where
  eof : StreamError
  other : ℕ → StreamError

-- `sendLoop` at its select, within `Send`, about to send its result to `errc`, and done with that.
pub data SendPc : Type 0 where
  selecting : SendPc
  sending : ReceivedMessage → SendPc
  send_reports : Option StreamError → SendPc
  send_ended : SendPc

-- `recvLoop` within `Recv`, about to send its error to `errc`, and done with that.
pub data RecvPc : Type 0 where
  receiving : RecvPc
  recv_reports : StreamError → RecvPc
  recv_ended : RecvPc

-- `pull` at its select, about to close `done`, returned, or in the panic of a second close.
pub data PullPc : Type 0 where
  waits : PullPc
  stops : Option StreamError → PullPc
  returned : Option StreamError → PullPc
  panicked : PullPc

pub record Pull : Type 0 where
  pub send : SendPc
  pub recv : RecvPc
  pub main : PullPc
  pub errc : List (Option StreamError)
  pub is_done : Bool

abbrev pub errc_capacity : ℕ
errc_capacity = 2

-- `if err == io.EOF { err = nil }`
abbrev pub without_eof : Option StreamError → Option StreamError
without_eof none = none
without_eof (some eof) = none
without_eof (some (other n)) = some (other n)

-- `close(st.done)` and the return, or a panic if it is closed.
unfoldable pub close_done : Option StreamError → Pull → Pull
close_done err s = elim s.is_done [
  | true ↦ record s { main = panicked }
  | false ↦ record s { main = returned err; is_done = true }
]

-- A step of one goroutine. `has_timeout` says whether `tchan` is there.
pub data Move (has_timeout : Bool) (s : Pull) : Pull → Type 0 where
  takes_message :
      (rm : ReceivedMessage)
      → s.send ≡ selecting
      → Move has_timeout s (record s { send = sending rm })
  sees_done :
      s.send ≡ selecting
      → s.is_done ≡ true
      → Move has_timeout s (record s { send = send_reports none })
  sends :
      (rm : ReceivedMessage)
      → s.send ≡ sending rm
      → Move has_timeout s (record s { send = selecting })
  send_fails :
      (rm : ReceivedMessage) (e : StreamError)
      → s.send ≡ sending rm
      → Move has_timeout s (record s { send = send_reports (some e) })
  reports_send :
      (r : Option StreamError)
      → s.send ≡ send_reports r
      → length s.errc < errc_capacity
      → Move has_timeout s (record s { send = send_ended; errc = s.errc ++ r ∷ [] })
  recv_fails :
      (e : StreamError)
      → s.recv ≡ receiving
      → Move has_timeout s (record s { recv = recv_reports e })
  reports_recv :
      (e : StreamError)
      → s.recv ≡ recv_reports e
      → length s.errc < errc_capacity
      → Move has_timeout s (record s { recv = recv_ended; errc = s.errc ++ some e ∷ [] })
  gets_error :
      (r : Option StreamError) (rest : List (Option StreamError))
      → s.main ≡ waits
      → s.errc ≡ r ∷ rest
      → Move has_timeout s (record s { main = stops (without_eof r); errc = rest })
  times_out :
      s.main ≡ waits → has_timeout ≡ true → Move has_timeout s (record s { main = stops none })
  closes : (err : Option StreamError) → s.main ≡ stops err → Move has_timeout s (close_done err s)

abbrev pub new_pull : Pull
new_pull = record { send = selecting; recv = receiving; main = waits; errc = []; is_done = false }

pub data Runs (has_timeout : Bool) (s : Pull) : Pull → Type 0 where
  here : Runs has_timeout s s
  then_move : {t u : Pull} → Runs has_timeout s t → Move has_timeout t u → Runs has_timeout s u
