-- ===== src/Dsmock/Scenarios.antt =====
-- A small client, on which the theorems are applied (gcpapi/datastore/dsmock/dsmock.go). A value is
-- the text that it marshals to.
use gcp_emulator_pool.Common.{
  ℕ, ◌≡◌, refl, inr, ◌⊎◌, Bool, false, Option, none, some, List, [], ◌∷◌, map, if◌then◌else◌, pos,
  ℤ-discrete, ℕ_discrete, str_discrete, Str, bytes,
}
use gcp_emulator_pool.Dsmock.Keys.{Key, valid, valid_upto, valid_key}
use gcp_emulator_pool.Dsmock.{
  GoType, Mock, pointer, struct, slice, any_error, validate_datastore_entity, check_multi_arg,
  is_invalid, multi, get_multi, key_error,
}
use gcp_emulator_pool.Dsmock.Refinement.{
  Op, Reply, put_op, get_op, delete_op, run, replay, contents, run-replay,
}
use gcp_emulator_pool.Dsmock.Batches.{get_each, get_multi-get_each}

abbrev a_key : Str → Key
a_key n = record { kind = bytes "User"; id = pos 0; name = n; parent = none; namespace = [] }

abbrev type_of : Str → GoType
type_of v = pointer (struct (bytes "User"))

abbrev marshal : Str → Str ⊎ Str
marshal v = inr v

abbrev unmarshal : Str → Str → Str × Option Str
unmarshal s v = (s, none)

abbrev empty : Mock
empty = record { maps = λ r. []; next_map = 1; objects = 0 }

abbrev stored : Mock
stored = record { maps = λ r. (a_key (bytes "a"), bytes "x") ∷ []; next_map = 1; objects = 0 }

abbrev visit : List (Op Str)
visit =
    put_op (a_key (bytes "a")) (bytes "x")
    ∷ get_op (a_key (bytes "a")) []
    ∷ delete_op (a_key (bytes "a"))
    ∷ get_op (a_key (bytes "a")) []
    ∷ []

run-replay_example :
    ◌≡◌ {A = List (Reply Str Str) × (Key → Option Str)}
      (
        (run type_of marshal unmarshal visit empty).0,
        contents type_of marshal unmarshal (run type_of marshal unmarshal visit empty).1,
      )
      (replay type_of marshal unmarshal visit (contents type_of marshal unmarshal empty))
run-replay_example = run-replay type_of marshal unmarshal visit empty

abbrev heap : ℕ → Key
heap r = a_key (bytes "a")

abbrev never : GoType → Bool
never t = false

abbrev complete : Key → Bool
complete k = false

abbrev no_nil : Str → Bool
no_nil v = false

abbrev users : GoType
users = slice (pointer (struct (bytes "User")))

abbrev dst : List Str
dst = [] ∷ [] ∷ []

abbrev show_key : Key → Str
show_key k = k.name

keys_clean :
    any_error {J = Str} (map (key_error complete show_key heap) (some 0 ∷ some 1 ∷ [])) ≡ false
unfolding key_error valid valid_upto valid_key str_discrete ℕ_discrete ℤ-discrete
keys_clean = refl

users_taken : is_invalid (check_multi_arg never never users).0 ≡ false
unfolding check_multi_arg validate_datastore_entity
users_taken = refl

get_multi-get_each_example :
    get_multi type_of marshal unmarshal never never complete show_key no_nil [] heap
      (map some (0 ∷ 1 ∷ []))
      users
      dst
      stored
    ≡ (
      if any_error (get_each type_of marshal unmarshal stored (map heap (0 ∷ 1 ∷ [])) dst).0
          then some
              (multi (get_each type_of marshal unmarshal stored (map heap (0 ∷ 1 ∷ [])) dst).0)
          else none,
      (get_each type_of marshal unmarshal stored (map heap (0 ∷ 1 ∷ [])) dst).1,
    )
unfolding check_multi_arg validate_datastore_entity
get_multi-get_each_example =
    get_multi-get_each type_of marshal unmarshal never never complete show_key no_nil [] heap
      (0 ∷ 1 ∷ []) users dst stored users_taken refl keys_clean ((refl, refl), ((refl, refl), tt))
