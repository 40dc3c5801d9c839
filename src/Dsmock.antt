-- ===== src/Dsmock.antt =====
-- gcpapi/datastore/dsmock/dsmock.go: a Datastore client over a map in memory. A key holds a pointer
-- to its parent, so keys stand on a heap, and the map compares keys as Go compares structs, parents
-- by pointer. Maps stand on a heap as well. Reflection shows the types of values (`GoType`); values
-- and their JSON are parameters. A key that is nil where the code reads through it panics: such
-- calls are left out.
pub mod Keys
pub mod Refinement
pub mod Batches
pub mod Scenarios
use gcp_emulator_pool.Common.{
  ℕ, suc, ◌+◌, ◌⊎◌, inl, inr, Bool, true, false, ◌||◌, not, Option, none, some, List, [], ◌∷◌, ◌++◌,
  map, if◌then◌else◌, ite, ◌==◌, Str, bytes, lookup, insert, delete, update, length,
}
use gcp_emulator_pool.Dsmock.Keys.{Key, Key-discrete, valid}

-- The errors of the client: those of the datastore package, texts, those of JSON, and MultiError.
pub data Error (J : Type 0) : Type 0 where
  no_such_entity invalid_entity_type invalid_key not_implemented : Error J
  text : Str → Error J
  json : J → Error J

-- A `reflect.Type`; a struct and an interface by name. For a value, `nil_pointer` says that it is a
-- pointer of that type which is nil: what is behind it has no kind.
pub data GoType : Type 0 where
  slice pointer nil_pointer : GoType → GoType
  struct interface : Str → GoType
  other : GoType

pub data MultiArgType : Type 0 where
  invalid property_load_saver struct_arg struct_ptr interface_arg : MultiArgType

abbrev pub Entities : Type 0
Entities = List (Key × Str)

-- `Client` is the reference `objects` to its map.
pub record Mock : Type 0 where
  pub maps : ℕ → Entities
  pub next_map : ℕ
  pub objects : ℕ

abbrev pub objects_of : Mock → Entities
objects_of c = c.maps c.objects

abbrev pub write_map : ℕ → Entities → Mock → Mock
write_map r m c = record c { maps = update c.maps r m }

-- `NewClient`, within a test.
unfoldable pub new_client : (ℕ → Entities) → ℕ → Mock
new_client maps next = record { maps = update maps next []; next_map = suc next; objects = next }

-- `GetKeys`; the order is that of the map.
unfoldable pub get_keys : Mock → List Key
get_keys c = map (λ e. e.0) (objects_of c)

-- The loop of `GetMap`.
unfoldable pub copy_entries : Entities → Entities → Entities
copy_entries [] m = m
copy_entries ((k, v) ∷ es) m = copy_entries es (insert Key-discrete k v m)

-- `GetMap`: the copy is made, and the map itself is returned.
unfoldable pub get_map : Mock → ℕ × Mock
unfolding copy_entries
get_map c = (
  c.objects,
  record c {
    maps = update c.maps c.next_map (copy_entries (objects_of c) []);
    next_map = suc c.next_map;
  },
)

-- `Delete`.
unfoldable pub delete_entity : {J : Type 0} → Key → Mock → Option (Error J) × Mock
delete_entity k c = elim (lookup Key-discrete k (objects_of c)) [
  | none ↦ (some Error.no_such_entity, c)
  | some o ↦ (none, write_map c.objects (delete Key-discrete k (objects_of c)) c)
]

-- `checkMultiArg`, with the two tests that need more than the shape of the type.
unfoldable pub check_elem : GoType → MultiArgType × Option GoType
check_elem (struct s) = (struct_arg, some (struct s))
check_elem (interface i) = (interface_arg, some (interface i))
check_elem (pointer (struct s)) = (struct_ptr, some (struct s))
check_elem t = (invalid, none)

unfoldable pub check_multi_arg :
    (GoType → Bool) → (GoType → Bool) → GoType → MultiArgType × Option GoType
unfolding check_elem
check_multi_arg is_property_list implements_loader (slice t) =
    if is_property_list (slice t)
    then (invalid, none)
    else if implements_loader t
    then (property_load_saver, some t)
    else check_elem t
check_multi_arg is_property_list implements_loader t = (invalid, none)

abbrev pub is_invalid : MultiArgType → Bool
is_invalid invalid = true
is_invalid m = false

-- `validateDatastoreEntity`.
unfoldable pub validate_datastore_entity : {J : Type 0} → GoType → Option (Error J)
validate_datastore_entity (pointer (struct s)) = none
validate_datastore_entity t = some Error.invalid_entity_type

abbrev pub json_error : {J : Type 0} → Option J → Option (Error J)
json_error none = none
json_error (some e) = some (Error.json e)

-- The errors of the keys of `GetMulti`, before the map is read.
unfoldable pub key_error :
    {J : Type 0} → (Key → Bool) → (Key → Str) → (ℕ → Key) → Option ℕ → Option (Error J)
key_error incomplete show_key heap none = some Error.invalid_key
key_error incomplete show_key heap (some k) =
    if valid incomplete heap k
    then if incomplete (heap k)
      then some
          (Error.text (bytes "datastore: can't get the incomplete key: " ++ show_key (heap k)))
      else none
    else some Error.invalid_key

abbrev pub any_error : {J : Type 0} → List (Option (Error J)) → Bool
any_error [] = false
any_error (none ∷ es) = any_error es
any_error (some e ∷ es) = true

-- The keys that are not nil; behind the checks these are all.
abbrev pub pointers : List (Option ℕ) → List ℕ
pointers [] = []
pointers (none ∷ ks) = pointers ks
pointers (some k ∷ ks) = k ∷ pointers ks

-- The element of the slice that a value is decoded into; `fresh` is a new struct.
abbrev pub target : {V : Type 0} → MultiArgType → (V → Bool) → V → V → V
target struct_ptr is_nil fresh elem = if is_nil elem then fresh else elem
target m is_nil fresh elem = elem

-- The result of `GetMulti`: no error, one error, or a MultiError with an error per key.
pub data Failure (J : Type 0) : Type 0 where
  one : Error J → Failure J
  multi : List (Option (Error J)) → Failure J

-- `V` are the values behind pointers, `unmarshal` fills one, with an error or without.
module _ {V J : Type 0} (type_of : V → GoType) (marshal : V → J ⊎ Str)
    (unmarshal : Str → V → V × Option J) where
  -- `Get`: the error, and what `dst` holds then.
  unfoldable pub get : Key → V → Mock → Option (Error J) × V
  unfolding validate_datastore_entity
  get k dst c = elim (validate_datastore_entity (type_of dst)) [
    | some e ↦ (some e, dst)
    | none ↦ elim (lookup Key-discrete k (objects_of c)) [
      | none ↦ (some Error.no_such_entity, dst)
      | some o ↦ let (v, e) = unmarshal o dst in (json_error e, v)
    ]
  ]

  -- `Put`; the key is returned if there is no error.
  unfoldable pub put : Key → V → Mock → (Option Key × Option (Error J)) × Mock
  unfolding validate_datastore_entity
  put k src c = elim (validate_datastore_entity (type_of src)) [
    | some e ↦ ((none, some e), c)
    | none ↦ elim (marshal src) [
      | inl e ↦ ((none, some (Error.json e)), c)
      | inr js ↦ ((some k, none), write_map c.objects (insert Key-discrete k js (objects_of c)) c)
    ]
  ]

  -- The loop of `GetMulti`: the errors and the elements.
  unfoldable pub get_all :
      MultiArgType
      → (V → Bool)
      → V
      → Entities
      → List Key
      → List V
      → List (Option (Error J)) × List V
  get_all m is_nil fresh objects [] vs = ([], vs)
  get_all m is_nil fresh objects (k ∷ ks) [] = ([], [])
  get_all m is_nil fresh objects (k ∷ ks) (v ∷ vs) =
      let (errs, rest) = get_all m is_nil fresh objects ks vs in
      elim (lookup Key-discrete k objects) [
        | none ↦ (some Error.no_such_entity ∷ errs, v ∷ rest)
        | some value ↦
            let (w, e) = unmarshal value (target m is_nil fresh v) in
            (json_error e ∷ errs, w ∷ rest)
      ]

  -- `GetMulti`; `dst` is given by its type and its elements.
  unfoldable pub get_multi :
      (GoType → Bool)
      → (GoType → Bool)
      → (Key → Bool)
      → (Key → Str)
      → (V → Bool)
      → V
      → (ℕ → Key)
      → List (Option ℕ)
      → GoType
      → List V
      → Mock
      → Option (Failure J) × List V
  unfolding check_multi_arg key_error get_all
  get_multi is_property_list implements_loader incomplete show_key is_nil fresh heap keys t vs c =
      let m = (check_multi_arg is_property_list implements_loader t).0 in
      let errs = map (key_error incomplete show_key heap) keys in
      let (found, filled) = get_all m is_nil fresh (objects_of c) (map heap (pointers keys)) vs in
      if is_invalid m
      then (some (one (Error.text (bytes "datastore: dst has invalid type"))), vs)
      else if not (length keys == length vs)
      then (
        some (one (Error.text (bytes "datastore: keys and dst slices have different length"))),
        vs,
      )
      else elim keys [
        | [] ↦ (none, vs)
        | k ∷ ks ↦
            if any_error errs
            then (some (multi errs), vs)
            else (if any_error found then some (multi found) else none, filled)
      ]
