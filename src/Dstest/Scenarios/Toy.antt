-- ===== src/Dstest/Scenarios/Toy.antt =====
-- A small system for gcpapi/datastore/dstest: every descriptor is a file of its own, and descriptors
-- from `next` on are not open.
use mathlib.Core.Logic.{ite}
use gcp_emulator_pool.Common.{
  ℕ, suc, ◌+◌, ◌≡◌, ◌≢◌, refl, inl, inr, arith, str_discrete, Bool, true, false, Option, none, some,
  [], ◌∷◌, ◌++◌, if◌then◌else◌, ltb, ℤ, pos, Str, bytes, update,
}
use gcp_emulator_pool.Dstest.Os.{Os, Flocks, Timers, EmulatorConfig, Index}

pub record World : Type 0 where
  pub next : ℕ
  pub taken : ℕ → Bool
  pub clock : ℕ

abbrev pub opens : World → World
opens w = record w { next = suc w.next; taken = update w.taken w.next false }

abbrev pub holding : World → ℕ → Option ℕ
holding w f = if ltb f w.next then (if w.taken f then some f else none) else none

abbrev pub config : EmulatorConfig
config = record {
  addr = bytes "localhost:8081";
  pid = pos 7;
  lock_expiration_time = pos 0;
  log_filename = bytes "e.out";
}

abbrev pub used : Index
used = record {
  kind = bytes "User";
  ancestor = [];
  property = (bytes "a", bytes "asc") ∷ (bytes "b", []) ∷ [];
}

-- A request with POST is answered with `status`.
abbrev pub toy : ℤ → Os
toy status = record {
  World = World;
  Error = Str;
  internal = λ m c f. m;
  service = λ m c f. m;
  transient_khan_service = λ c f. bytes "transient";
  wrap = λ e m. m;
  wrap_with_fields = λ e f. e;
  with_stack = λ e. e;
  error_text = λ e. e;
  is_transient = λ e. true;
  is_would_block = λ e. false;
  is_deadline_exceeded = λ e. false;
  join = λ d n. d ++ bytes "/" ++ n;
  marshal = λ c. inr [];
  unmarshal = λ s. inr config;
  unmarshal_xml = λ s. inr (used ∷ []);
  lock_dir_path = bytes "locks";
  read_dir = λ d w. (inr (bytes "e.lockfile.json" ∷ []), w);
  open_file = λ p w. (inr w.next, opens w);
  create_file = λ p w. (inr w.next, opens w);
  temp_file = λ d p w. (inr (w.next, p), opens w);
  read_all = λ f w. (inr [], w);
  write_file = λ f s w. (inr tt, w);
  close_file = λ f w. record w { taken = update w.taken f false };
  remove_file = λ p w. w;
  make_dirs = λ p w. (inr tt, w);
  try_flock = λ f w.
      if ltb f w.next
      then (inr tt, record w { taken = update w.taken f true })
      else (inl (bytes "bad descriptor"), w);
  flock = λ f w.
      if ltb f w.next
      then (inr tt, record w { taken = update w.taken f true })
      else (inl (bytes "bad descriptor"), w);
  unlock = λ f w. (inr tt, record w { taken = update w.taken f false });
  kill = λ p w. (inr tt, w);
  look_path = λ n w. (inr n, w);
  start_command = λ c args f w. (inr (pos 7), w);
  listen = λ w. (inr (pos 8081), w);
  close_listener = λ w. (inr tt, w);
  new_request = λ m u. inr tt;
  request = λ m u w. (inr (ite (str_discrete m (bytes "GET")) (pos 200) status), w);
  request_blocks = λ m u w. false;
  flock_blocks = λ f w. false;
  now = λ w. w.clock;
  await = λ i d w. if ltb w.clock d then (true, record w { clock = w.clock + i }) else (false, w);
  context_error = λ w. bytes "deadline exceeded";
}

holding-opens : (w : World) (g : ℕ) → holding (opens w) g ≡ holding w g
unfolding update
holding-opens w g = ground arith

sets_others :
    (w : World) (f g : ℕ) (b : Bool)
    → f ≢ g
    → holding (record w { taken = update w.taken f b }) g ≡ holding w g
unfolding update
sets_others w f g b ne = ground arith

drops : (w : World) (f : ℕ) → holding (record w { taken = update w.taken f false }) f ≡ none
unfolding update
drops w f = ground arith

holding_self : (w : World) (f n : ℕ) → holding w f ≡ some n → f ≡ n
holding_self w f n h = ground arith

takes :
    (status : ℤ) (w : World) (f : ℕ)
    → ((toy status).try_flock f w).0 ≡ inr tt
    → holding ((toy status).try_flock f w).1 f ≡ some f
unfolding update
takes status w f h = ground arith

fresh_at : (w : World) (f : ℕ) → w.next ≡ f → holding w f ≡ none
fresh_at w f e = ground arith

flock_others_lem :
    (status : ℤ) (w : World) (f g : ℕ)
    → f ≢ g
    → holding ((toy status).try_flock f w).1 g ≡ holding w g
unfolding update
flock_others_lem status w f g ne = ground arith

pub toy_locks : (status : ℤ) → Flocks (toy status)
toy_locks status = record {
  holds = holding;
  exclusive = λ w f g n h k. omega (arith, holding_self w f n h, holding_self w g n k);
  try_flock_takes = λ w f h. (f, takes status w f h);
  try_flock_others = flock_others_lem status;
  flock_takes = λ w f h. (f, takes status w f h);
  flock_others = flock_others_lem status;
  unlock_others = λ w f g ne. sets_others w f g false ne;
  close_drops = drops;
  close_others = λ w f g ne. sets_others w f g false ne;
  open_fresh = λ w p f h. fresh_at w f (cc);
  create_fresh = λ w p f h. fresh_at w f (cc);
  temp_fresh = λ w d p f h. fresh_at w f.0 (cc);
  open_keeps = λ w p g. holding-opens w g;
  create_keeps = λ w p g. holding-opens w g;
  temp_keeps = λ w d p g. holding-opens w g;
  read_dir_keeps = λ w p g. refl;
  read_keeps = λ w f g. refl;
  write_keeps = λ w f s g. refl;
  remove_keeps = λ w p g. refl;
  make_dirs_keeps = λ w p g. refl;
  kill_keeps = λ w p g. refl;
  look_path_keeps = λ w p g. refl;
  start_keeps = λ w p args f g. refl;
  listen_keeps = λ w g. refl;
  close_listener_keeps = λ w g. refl;
  request_keeps = λ w m u g. refl;
  await_keeps = λ w i d g. ground arith;
}

pub toy_timers : (status : ℤ) → Timers (toy status)
toy_timers status = record {
  await_timer = λ w i d h. ground arith;
  await_done = λ w i d h. ground arith;
  request_later = λ w m u. omega arith;
}
