-- ===== src/Dstest/Os.antt =====
-- What gcpapi/datastore/dstest calls and does not implement: the file system, locks on files,
-- signals, HTTP, time, the codecs and the errors package, over an unknown state of the world. A
-- descriptor is an open file, numbered across the processes.
use gcp_emulator_pool.Common.{
  ℕ, ◌+◌, ◌≤◌, ◌≡◌, ◌≢◌, ◌⊎◌, inr, Bool, true, false, Option, none, some, List, ℤ, Str,
}

-- The fields of `DatastoreEmulator` that JSON carries.
pub record EmulatorConfig : Type 0 where
  pub addr : Str
  pub pid : ℤ
  pub lock_expiration_time : ℤ
  pub log_filename : Str

-- `_index`; a property is its name and its direction.
pub record Index : Type 0 where
  pub kind : Str
  pub ancestor : Str
  pub property : List (Str × Str)

-- An error, or the result of a call that succeeded.
abbrev pub Answer : Type 0 → Type 0 → Type 0
Answer E A = E ⊎ A

pub record Os : Type 1 where
  pub World : Type 0
  pub Error : Type 0
  -- The errors package: a message, the error that is the cause, and fields.
  pub internal : Str → Option Error → List (Str × Str) → Error
  pub service : Str → Option Error → List (Str × Str) → Error
  pub transient_khan_service : Option Error → List (Str × Str) → Error
  pub wrap : Error → Str → Error
  pub wrap_with_fields : Error → List (Str × Str) → Error
  pub with_stack : Error → Error
  pub error_text : Error → Str
  pub is_transient : Error → Bool
  pub is_would_block : Error → Bool
  pub is_deadline_exceeded : Error → Bool
  -- Paths and codecs.
  pub join : Str → Str → Str
  pub marshal : EmulatorConfig → Answer Error Str
  pub unmarshal : Str → Answer Error EmulatorConfig
  pub unmarshal_xml : Str → Answer Error (List Index)
  -- Files.
  pub lock_dir_path : Str
  pub read_dir : Str → World → Answer Error (List Str) × World
  pub open_file : Str → World → Answer Error ℕ × World
  pub create_file : Str → World → Answer Error ℕ × World
  pub temp_file : Str → Str → World → Answer Error (ℕ × Str) × World
  pub read_all : ℕ → World → Answer Error Str × World
  pub write_file : ℕ → Str → World → Answer Error Unit × World
  pub close_file : ℕ → World → World
  pub remove_file : Str → World → World
  pub make_dirs : Str → World → Answer Error Unit × World
  -- `Flock` with LOCK_EX|LOCK_NB, with LOCK_EX, and with LOCK_UN.
  pub try_flock : ℕ → World → Answer Error Unit × World
  pub flock : ℕ → World → Answer Error Unit × World
  pub unlock : ℕ → World → Answer Error Unit × World
  -- Processes, ports and HTTP; a response is its status code.
  pub kill : ℤ → World → Answer Error Unit × World
  pub look_path : Str → World → Answer Error Str × World
  pub start_command : Str → List Str → ℕ → World → Answer Error ℤ × World
  pub listen : World → Answer Error ℤ × World
  pub close_listener : World → Answer Error Unit × World
  pub new_request : Str → Str → Answer Error Unit
  pub request : Str → Str → World → Answer Error ℤ × World
  -- Whether the response to a request whose context has no deadline, or the lock of a `Flock` that
  -- waits, never comes.
  pub request_blocks : Str → Str → World → Bool
  pub flock_blocks : ℕ → World → Bool
  -- The time in milliseconds. `await interval deadline` is the select of a timer (true) and of the
  -- context being done (false).
  pub now : World → ℕ
  pub await : ℕ → ℕ → World → Bool × World
  pub context_error : World → Error

-- What flock(2) and open(2) promise about the locks that descriptors hold.
pub record Flocks (os : Os) : Type 1 where
  -- The file that a descriptor holds the lock of.
  pub holds : os.World → ℕ → Option ℕ
  pub exclusive : (w : os.World) (f g n : ℕ) → holds w f ≡ some n → holds w g ≡ some n → f ≡ g
  pub try_flock_takes :
      (w : os.World) (f : ℕ)
      → (os.try_flock f w).0 ≡ inr tt
      → (n : ℕ) × (holds (os.try_flock f w).1 f ≡ some n)
  pub try_flock_others : (w : os.World) (f g : ℕ) → f ≢ g → holds (os.try_flock f w).1 g ≡ holds w g
  pub flock_takes :
      (w : os.World) (f : ℕ)
      → (os.flock f w).0 ≡ inr tt
      → (n : ℕ) × (holds (os.flock f w).1 f ≡ some n)
  pub flock_others : (w : os.World) (f g : ℕ) → f ≢ g → holds (os.flock f w).1 g ≡ holds w g
  pub unlock_others : (w : os.World) (f g : ℕ) → f ≢ g → holds (os.unlock f w).1 g ≡ holds w g
  pub close_drops : (w : os.World) (f : ℕ) → holds (os.close_file f w) f ≡ none
  pub close_others : (w : os.World) (f g : ℕ) → f ≢ g → holds (os.close_file f w) g ≡ holds w g
  -- A file is opened under a descriptor that holds no lock.
  pub open_fresh :
      (w : os.World) (p : Str) (f : ℕ) → (os.open_file p w).0 ≡ inr f → holds w f ≡ none
  pub create_fresh :
      (w : os.World) (p : Str) (f : ℕ) → (os.create_file p w).0 ≡ inr f → holds w f ≡ none
  pub temp_fresh :
      (w : os.World) (d p : Str) (f : ℕ × Str) → (os.temp_file d p w).0 ≡ inr f → holds w f.0 ≡ none
  -- The other calls leave all locks as they are.
  pub open_keeps : (w : os.World) (p : Str) (g : ℕ) → holds (os.open_file p w).1 g ≡ holds w g
  pub create_keeps : (w : os.World) (p : Str) (g : ℕ) → holds (os.create_file p w).1 g ≡ holds w g
  pub temp_keeps : (w : os.World) (d p : Str) (g : ℕ) → holds (os.temp_file d p w).1 g ≡ holds w g
  pub read_dir_keeps : (w : os.World) (p : Str) (g : ℕ) → holds (os.read_dir p w).1 g ≡ holds w g
  pub read_keeps : (w : os.World) (f g : ℕ) → holds (os.read_all f w).1 g ≡ holds w g
  pub write_keeps :
      (w : os.World) (f : ℕ) (s : Str) (g : ℕ) → holds (os.write_file f s w).1 g ≡ holds w g
  pub remove_keeps : (w : os.World) (p : Str) (g : ℕ) → holds (os.remove_file p w) g ≡ holds w g
  pub make_dirs_keeps : (w : os.World) (p : Str) (g : ℕ) → holds (os.make_dirs p w).1 g ≡ holds w g
  pub kill_keeps : (w : os.World) (p : ℤ) (g : ℕ) → holds (os.kill p w).1 g ≡ holds w g
  pub look_path_keeps : (w : os.World) (p : Str) (g : ℕ) → holds (os.look_path p w).1 g ≡ holds w g
  pub start_keeps :
      (w : os.World) (p : Str) (args : List Str) (f g : ℕ)
      → holds (os.start_command p args f w).1 g ≡ holds w g
  pub listen_keeps : (w : os.World) (g : ℕ) → holds (os.listen w).1 g ≡ holds w g
  pub close_listener_keeps : (w : os.World) (g : ℕ) → holds (os.close_listener w).1 g ≡ holds w g
  pub request_keeps : (w : os.World) (m u : Str) (g : ℕ) → holds (os.request m u w).1 g ≡ holds w g
  pub await_keeps : (w : os.World) (i d g : ℕ) → holds (os.await i d w).1 g ≡ holds w g

-- What `select`, timers and contexts promise about time.
pub record Timers (os : Os) : Type 1 where
  -- The timer takes at least its interval, and a context that is done is noticed at once.
  pub await_timer :
      (w : os.World) (i d : ℕ)
      → (os.await i d w).0 ≡ true
      → os.now w + i ≤ os.now (os.await i d w).1
  pub await_done : (w : os.World) (i d : ℕ) → d ≤ os.now w → (os.await i d w).0 ≡ false
  pub request_later : (w : os.World) (m u : Str) → os.now w ≤ os.now (os.request m u w).1
