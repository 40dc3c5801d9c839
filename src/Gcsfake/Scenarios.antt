-- ===== src/Gcsfake/Scenarios.antt =====
-- The theorems on a small store.
use gcp_emulator_pool.Common.{
  true, ℕ, suc, ◌≡◌, refl, false, none, some, [], ◌∷◌, bytes, str_discrete, lookup, length, ◌==◌,
}
use gcp_emulator_pool.Gcsfake.{
  Store, Query, write, wrote, read, new_writer, object_named, objects_of,
}
use gcp_emulator_pool.Gcsfake.Writing.{write-read}
use gcp_emulator_pool.Gcsfake.Listing.{with_prefix, drain, drain-objects_of}

-- Two empty buckets, the second of which refuses writes, with a list of attributes.
abbrev disk : Store
disk = record {
  objects = λ _. record {
    name = [];
    bucket = 0;
    contents = [];
    writes_must_fail = false;
    closes_must_fail = false;
  };
  next_object = 0;
  buckets = λ i. record {
    obj_attrs =
        record { name = bytes "log/a"; dir_prefix = [] }
        ∷ record { name = bytes "b"; dir_prefix = [] }
        ∷ [];
    objs = [];
    has_objs = true;
    writes_must_fail = i == 1;
    closes_must_fail = false;
  };
  next_bucket = 2;
}

empty_disk : lookup {V = ℕ} str_discrete (bytes "o") [] ≡ none
unfolding lookup
empty_disk = refl

abbrev logs : Query
logs = record { name_prefix = bytes "log/"; delimiter = [] }

write-read_example :
    (o : ℕ) × (s1 : Store) × (t : Store) × (object_named (bytes "o") 0 disk ≡ (o, s1))
    × (write (new_writer o s1) (bytes "hello") s1 ≡ (wrote (length (bytes "hello")), t))
    × (object_named (bytes "o") 0 t ≡ (o, t))
    × ((read (length (bytes "hello")) o t).0 ≡ some (bytes "hello"))
    × ((n : ℕ) → (read (suc n) o (read (length (bytes "hello")) o t).1).0 ≡ none)
write-read_example = write-read (bytes "o") (bytes "hello") 0 disk empty_disk refl refl

drain-objects_of_example :
    drain
      (suc (length (with_prefix logs.name_prefix (disk.buckets 0).obj_attrs)))
      (objects_of logs 0 disk)
    ≡ some (with_prefix logs.name_prefix (disk.buckets 0).obj_attrs)
drain-objects_of_example = drain-objects_of logs 0 disk refl
