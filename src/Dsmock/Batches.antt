-- ===== src/Dsmock/Batches.antt =====
-- `GetMulti` against `Get`, and the map that `GetMap` returns (gcpapi/datastore/dsmock/dsmock.go).
use gcp_emulator_pool.Common.{
  ℕ, suc, ◌<◌, ◌≡◌, refl, ap, ◌∙◌, arith, inl, inr, ◌⊎◌, Bool, false, Option, none, some, List, [],
  ◌∷◌, map, ite, if◌then◌else◌, ==_iff, Str, length, lookup, insert, update_self, update_ne,
  lookup-insert, Option-cases, All,
}
use gcp_emulator_pool.Dsmock.Keys.{Key, Key-discrete}
use gcp_emulator_pool.Dsmock.{
  Error, GoType, MultiArgType, Mock, objects_of, write_map, get_map, validate_datastore_entity, get,
  json_error, any_error, pointers, target, get_all, key_error, get_multi, check_multi_arg,
  is_invalid, multi,
}

-- `GetMap` returns the client's own map: an entry that is written into the result is in the client.
pub get_map_shares :
    (c : Mock) (k j : Key) (js : Str)
    → c.objects < c.next_map
    → lookup Key-discrete j (
        objects_of (
          write_map
            (get_map c).0
            (insert Key-discrete k js ((get_map c).1.maps (get_map c).0))
            (get_map c).1))
      ≡ ite (Key-discrete k j) (some js) (lookup Key-discrete j (objects_of c))
unfolding get_map
get_map_shares c k j js lt =
    let there = update_self (get_map c).1.maps c.objects in
    ap (lookup Key-discrete j) (there (insert Key-discrete k js ((get_map c).1.maps c.objects)))
    ∙ lookup-insert Key-discrete k j js ((get_map c).1.maps c.objects)
    ∙ ap (λ m. ite (Key-discrete k j) (some js) (lookup Key-discrete j m))
        (update_ne c.maps c.next_map c.objects _ (λ e. omega (arith, lt, e)))

length-map : {A B : Type 0} (f : A → B) (xs : List A) → length (map f xs) ≡ length xs
length-map f [] = refl
length-map f (x ∷ xs) = ap suc (length-map f xs)

pointers_all : (ks : List ℕ) → pointers (map some ks) ≡ ks
pointers_all [] = refl
pointers_all (k ∷ ks) = ap (◌∷◌ k) (pointers_all ks)

module _ {V J : Type 0} (type_of : V → GoType) (marshal : V → J ⊎ Str)
    (unmarshal : Str → V → V × Option J) where
  -- `Get` for one key after the other.
  unfoldable pub get_each : Mock → List Key → List V → List (Option (Error J)) × List V
  get_each c [] vs = ([], vs)
  get_each c (k ∷ ks) [] = ([], [])
  get_each c (k ∷ ks) (v ∷ vs) =
      let (errs, rest) = get_each c ks vs in
      let (e, w) = get type_of marshal unmarshal k v c in (e ∷ errs, w ∷ rest)

  -- Elements that `Get` accepts, and that are decoded into as they are.
  abbrev pub Fillable : MultiArgType → (V → Bool) → V → V → Type 0
  Fillable m is_nil fresh v =
      (validate_datastore_entity {J = J} (type_of v) ≡ none) × (target m is_nil fresh v ≡ v)

  get_missing :
      (c : Mock) (k : Key) (v : V)
      → validate_datastore_entity {J = J} (type_of v) ≡ none
      → lookup Key-discrete k (objects_of c) ≡ none
      → get type_of marshal unmarshal k v c ≡ (some Error.no_such_entity, v)
  unfolding get
  get_missing c k v ok gone = rw (ok, gone, get) refl

  get_found :
      (c : Mock) (k : Key) (v : V) (o : Str)
      → validate_datastore_entity {J = J} (type_of v) ≡ none
      → lookup Key-discrete k (objects_of c) ≡ some o
      → get type_of marshal unmarshal k v c ≡ (json_error (unmarshal o v).1, (unmarshal o v).0)
  unfolding get
  get_found c k v o ok there = rw (ok, there, get) refl

  get_all-get_each :
      (m : MultiArgType) (is_nil : V → Bool) (fresh : V) (c : Mock) (ks : List Key) (vs : List V)
      → All (Fillable m is_nil fresh) vs
      → get_all type_of marshal unmarshal m is_nil fresh (objects_of c) ks vs ≡ get_each c ks vs
  unfolding get_all get_each
  get_all-get_each m is_nil fresh c [] vs h = refl
  get_all-get_each m is_nil fresh c (k ∷ ks) [] h = refl
  get_all-get_each m is_nil fresh c (k ∷ ks) (v ∷ vs) (ok, rest) =
      elim (Option-cases (lookup Key-discrete k (objects_of c))) [
        | inl gone ↦
            rw
              (
                get_missing c k v ok.0 gone,
                gone,
                get_all,
                get_all-get_each m is_nil fresh c ks vs rest,
              )
              refl
        | inr (o, there) ↦
            rw
              (
                get_found c k v o ok.0 there,
                there,
                get_all,
                ok.1,
                get_all-get_each m is_nil fresh c ks vs rest,
              )
              refl
      ]

  filled_each :
      (m : MultiArgType) (is_nil : V → Bool) (fresh : V) (heap : ℕ → Key) (c : Mock) (ks : List ℕ)
      (vs : List V)
      → All (Fillable m is_nil fresh) vs
      → get_all type_of marshal unmarshal m is_nil fresh
          (objects_of c)
          (map heap (pointers (map some ks)))
          vs
        ≡ get_each c (map heap ks) vs
  filled_each m is_nil fresh heap c ks vs h =
      ap (λ ps. get_all type_of marshal unmarshal m is_nil fresh (objects_of c) (map heap ps) vs)
        (pointers_all ks)
      ∙ get_all-get_each m is_nil fresh c (map heap ks) vs h

  -- GetMulti is Get for every key: with a slice of a type that it takes, as many elements as keys,
  -- keys that are all valid and complete, and elements that Get accepts, it fills the elements as
  -- Get does one after the other, and its MultiError, given if a Get fails, has the errors of the
  -- Gets in their places.
  pub get_multi-get_each :
      (is_property_list implements_loader : GoType → Bool) (incomplete : Key → Bool)
      (show_key : Key → Str) (is_nil : V → Bool) (fresh : V) (heap : ℕ → Key) (ks : List ℕ)
      (t : GoType) (vs : List V) (c : Mock)
      → is_invalid (check_multi_arg is_property_list implements_loader t).0 ≡ false
      → length ks ≡ length vs
      → any_error {J = J} (map (key_error incomplete show_key heap) (map some ks)) ≡ false
      → All (Fillable (check_multi_arg is_property_list implements_loader t).0 is_nil fresh) vs
      → get_multi type_of marshal unmarshal is_property_list implements_loader incomplete show_key
          is_nil fresh heap
          (map some ks)
          t
          vs
          c
        ≡ (
          if any_error (get_each c (map heap ks) vs).0
              then some (multi (get_each c (map heap ks) vs).0)
              else none,
          (get_each c (map heap ks) vs).1,
        )
  unfolding get_multi get_each
  get_multi-get_each is_property_list implements_loader incomplete show_key is_nil fresh heap [] t
        [] c ok same clean fillable =
      rw (get_multi, ok) refl
  get_multi-get_each is_property_list implements_loader incomplete show_key is_nil fresh heap [] t
        (v ∷ vs) c ok same clean fillable =
      absurd (omega (arith, same))
  get_multi-get_each is_property_list implements_loader incomplete show_key is_nil fresh heap
        (k ∷ ks) t vs c ok same clean fillable =
      rw
        (
          get_multi,
          ok,
          (==_iff (length (map some (k ∷ ks))) (length vs)).1 (length-map some (k ∷ ks) ∙ same),
          clean,
          filled_each (check_multi_arg is_property_list implements_loader t).0 is_nil fresh heap c
              (k ∷ ks) vs fillable,
        )
        refl
