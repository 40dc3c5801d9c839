-- ===== src/Dstest/Startup/Polling.antt =====
-- `waitForStartup` returns (gcpapi/datastore/dstest/datastore_emulator.go).
use gcp_emulator_pool.Common.{
  ℕ, zero, suc, ◌+◌, ◌*◌, ◌≤◌, ◌≢◌, arith, inl, inr, Option, none, some, Str, bytes, Bool-cases,
  ◌++◌,
}
use gcp_emulator_pool.Dstest.Os.{Os, Timers}
use gcp_emulator_pool.Dstest.Calls.{hangs, Try-cases}
use gcp_emulator_pool.Dstest.Startup.{
  check_emulator_connection, poll, connect, wait_for_startup, returned, startup_timeout,
  polling_interval,
}

module _ (os : Os) (timers : Timers os) where
  open os use {World, now, await, request}

  check_later : (addr : Str) (w : World) → now w ≤ now (check_emulator_connection os addr w).1
  unfolding check_emulator_connection
  check_later addr w =
      ground (arith, timers.request_later w (bytes "GET") (bytes "http://" ++ addr))

  answers : (err : Option os.Error) (w : World) → (returned os err w).0 ≢ hangs
  answers none w h = cc
  answers (some e) w h = cc

  poll_ends :
      (n deadline : ℕ) (addr : Str) (w : World)
      → deadline ≤ now w + 100 * n
      → (poll os (suc n) deadline addr w).0 ≢ hangs
  unfolding poll
  poll_ends zero deadline addr w h =
      rw (timers.await_done w polling_interval deadline (omega arith)) (λ e. cc)
  poll_ends (suc n) deadline addr w h = elim (Bool-cases (await polling_interval deadline w).0) [
    | inr e ↦ rw e (λ e. cc)
    | inl e ↦
        let ticked = (await polling_interval deadline w).1 in
        let checked = check_emulator_connection os addr ticked in
        elim (Bool-cases checked.0.0) [
          | inr stop ↦ rw (e, stop) (answers checked.0.1 checked.1)
          | inl again ↦
              rw (e, again)
                (poll_ends n deadline addr checked.1 (
                  omega (
                    arith,
                    h,
                    timers.await_timer w polling_interval deadline e,
                    check_later addr ticked,
                  )))
        ]
  ]

  connect_ends : (addr : Str) (w : World) → (connect os addr w).0 ≢ hangs
  unfolding connect
  connect_ends addr w =
      let checked = check_emulator_connection os addr w in
      elim (Bool-cases checked.0.0) [
        | inr stop ↦ rw stop (answers checked.0.1 checked.1)
        | inl again ↦ rw again (
            poll_ends 1000 (now w + startup_timeout) addr checked.1
              (omega (arith, check_later addr w)))
      ]

  -- The wait for an emulator ends, with an error or without: whatever the emulator answers, the
  -- polls that fit into the timeout are enough for the loop, where timers take their interval, a
  -- context that is done is noticed, and a request returns, at the end of its context at the latest.
  pub wait_for_startup_ends :
      (addr logfile_name : Str) (w : World) → (wait_for_startup os addr logfile_name w).0 ≢ hangs
  unfolding wait_for_startup
  wait_for_startup_ends addr logfile_name w = elim (Try-cases (connect os addr w).0) [
    | inl (e, failed) ↦ rw (failed, wait_for_startup) (λ h. cc)
    | inr (inl (a, ready)) ↦ rw (ready, wait_for_startup) (λ h. cc)
    | inr (inr stuck) ↦ λ h. connect_ends addr w stuck
  ]
