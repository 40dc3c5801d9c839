-- ===== src/Dstest/Startup.antt =====
-- gcpapi/datastore/dstest/datastore_emulator.go, `checkEmulatorConnection` and `waitForStartup`. The
-- loop has fuel for one poll more than fit into `startupTimeout`.
pub mod Polling
use gcp_emulator_pool.Common.{
  ℕ, zero, suc, ◌+◌, inl, inr, Bool, true, false, Option, none, some, List, [], ◌∷◌, ◌++◌,
  if◌then◌else◌, ite, ℤ, pos, ℤ-discrete, Str, bytes,
}
use gcp_emulator_pool.Strconv.{itoa}
use gcp_emulator_pool.Testutil.Paging.{itoa_ℤ}
use gcp_emulator_pool.Dstest.Os.{Os}
use gcp_emulator_pool.Dstest.Calls.{Try, fail, done, hangs, contains}

-- Durations in milliseconds.
abbrev pub startup_timeout : ℕ
startup_timeout = 100000

abbrev pub polling_interval : ℕ
polling_interval = 100

abbrev pub max_polls : ℕ
max_polls = 1001

module _ (os : Os) where
  open os use {
    World, Error, internal, with_stack, error_text, is_deadline_exceeded, open_file, read_all,
    close_file, new_request, request, now, await, context_error,
  }

  -- `checkEmulatorConnection`: whether to try again, and the error.
  unfoldable pub check_emulator_connection : Str → World → (Bool × Option Error) × World
  check_emulator_connection addr w =
      let url = bytes "http://" ++ addr in
      elim (new_request (bytes "GET") url) [
        | inl e ↦ ((false, some (with_stack e)), w)
        | inr _ ↦
            let (response, w) = request (bytes "GET") url w in
            elim response [
              | inr status_code ↦ (
                (
                  false,
                  ite (ℤ-discrete status_code (pos 200)) none (
                      some (
                        internal (bytes "Got wrong status code connecting") none
                          ((bytes "statusCode", itoa_ℤ status_code) ∷ []))),
                ),
                w,
              )
              | inl e ↦
                  if contains (error_text e) (bytes "connection refused")
                  then ((true, none), w)
                  else ((false, some (with_stack e)), w)
            ]
      ]

  abbrev pub returned : Option Error → World → Try Error Unit × World
  returned none w = (done tt, w)
  returned (some e) w = (fail e, w)

  -- The loop of `waitForStartup`.
  unfoldable pub poll : ℕ → ℕ → Str → World → Try Error Unit × World
  unfolding check_emulator_connection
  poll zero deadline addr w = (hangs, w)
  poll (suc n) deadline addr w =
      let (timer, w) = await polling_interval deadline w in
      let ((try_again, err), checked) = check_emulator_connection addr w in
      let rest = poll n deadline addr checked in
      if timer
      then if try_again then rest else returned err checked
      else (fail (with_stack (context_error w)), w)

  unfoldable pub connect : Str → World → Try Error Unit × World
  unfolding check_emulator_connection poll
  connect addr w =
      let deadline = now w + startup_timeout in
      let ((try_again, err), w) = check_emulator_connection addr w in
      if try_again then poll max_polls deadline addr w else returned err w

  -- The deferred function: the logs are attached to an error.
  unfoldable pub attach_logs : Str → Error → World → Error × World
  attach_logs logfile_name e w =
      let message =
        if is_deadline_exceeded e
        then bytes "Timed out trying to connect to datastore emulator"
        else bytes "Error trying to connect to datastore emulator" in
      let with_output : Str → Error = λ output.
        internal message (some e) (
          (bytes "startupTimeout", itoa startup_timeout) ∷ (bytes "emulatorOutput", output) ∷ []) in
      let (opened, w) = open_file logfile_name w in
      elim opened [
        | inl _ ↦ (with_output (bytes "<unknown>"), w)
        | inr logfile ↦
            let (read, w) = read_all logfile w in
            let w = close_file logfile w in
            elim read [ inl _ ↦ (with_output [], w) | inr output ↦ (with_output output, w) ]
      ]

  -- `waitForStartup`.
  unfoldable pub wait_for_startup : Str → Str → World → Try Error Unit × World
  unfolding connect attach_logs
  wait_for_startup addr logfile_name w =
      let (result, w) = connect addr w in
      elim result [
        | hangs ↦ (hangs, w)
        | done _ ↦ (done tt, w)
        | fail e ↦ let (e, w) = attach_logs logfile_name e w in (fail e, w)
      ]
