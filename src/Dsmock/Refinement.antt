-- ===== src/Dsmock/Refinement.antt =====
-- What a client of the mock can observe over any sequence of calls
-- (gcpapi/datastore/dsmock/dsmock.go).
use gcp_emulator_pool.Common.{
  ◌≡◌, refl, ap, fun_ext, ◌∙◌, inl, inr, ◌⊎◌, Option, none, some, List, [], ◌∷◌, ite, Str, lookup,
  insert, delete, update_self, lookup-insert, lookup-delete, Option-cases, Sum-cases,
}
use gcp_emulator_pool.Dsmock.Keys.{Key, Key-discrete}
use gcp_emulator_pool.Dsmock.{
  Error, GoType, Mock, Entities, objects_of, write_map, delete_entity, validate_datastore_entity,
  get, put, json_error,
}

-- The calls of a client, and what they return.
pub data Op (V : Type 0) : Type 0 where
  put_op : Key → V → Op V
  get_op : Key → V → Op V
  delete_op : Key → Op V

pub data Reply (V J : Type 0) : Type 0 where
  put_reply : Option Key → Option (Error J) → Reply V J
  get_reply : Option (Error J) → V → Reply V J
  delete_reply : Option (Error J) → Reply V J

module _ {V J : Type 0} (type_of : V → GoType) (marshal : V → J ⊎ Str)
    (unmarshal : Str → V → V × Option J) where
  unfoldable pub apply : Op V → Mock → Reply V J × Mock
  apply (put_op k v) c =
      let ((key, e), d) = put type_of marshal unmarshal k v c in (put_reply key e, d)
  apply (get_op k v) c = let (e, w) = get type_of marshal unmarshal k v c in (get_reply e w, c)
  apply (delete_op k) c = let (e, d) = delete_entity k c in (delete_reply e, d)

  unfoldable pub run : List (Op V) → Mock → List (Reply V J) × Mock
  unfolding apply
  run [] c = ([], c)
  run (o ∷ os) c = let (reply, d) = apply o c in let (replies, e) = run os d in (reply ∷ replies, e)

  -- The specification: the contents are a function of the key, which Put and Delete change at
  -- their key alone.
  abbrev pub Contents : Type 0
  Contents = Key → Option Str

  abbrev pub set : Key → Option Str → Contents → Contents
  set k o f j = ite (Key-discrete k j) o (f j)

  unfoldable pub answer : Op V → Contents → Reply V J × Contents
  answer (put_op k v) f = elim (validate_datastore_entity (type_of v)) [
    | some e ↦ (put_reply none (some e), f)
    | none ↦ elim (marshal v) [
      | inl e ↦ (put_reply none (some (Error.json e)), f)
      | inr js ↦ (put_reply (some k) none, set k (some js) f)
    ]
  ]
  answer (get_op k v) f = elim (validate_datastore_entity (type_of v)) [
    | some e ↦ (get_reply (some e) v, f)
    | none ↦ elim (f k) [
      | none ↦ (get_reply (some Error.no_such_entity) v, f)
      | some o ↦ let (w, e) = unmarshal o v in (get_reply (json_error e) w, f)
    ]
  ]
  answer (delete_op k) f = elim (f k) [
    | none ↦ (delete_reply (some Error.no_such_entity), f)
    | some o ↦ (delete_reply none, set k none f)
  ]

  unfoldable pub replay : List (Op V) → Contents → List (Reply V J) × Contents
  unfolding answer
  replay [] f = ([], f)
  replay (o ∷ os) f =
      let (reply, g) = answer o f in let (replies, h) = replay os g in (reply ∷ replies, h)

  -- What the map holds.
  abbrev pub contents : Mock → Contents
  contents c k = lookup Key-discrete k (objects_of c)

  contents-write :
      (c : Mock) (m : Entities) (f : Contents)
      → ((j : Key) → lookup Key-discrete j m ≡ f j)
      → contents (write_map c.objects m c) ≡ f
  contents-write c m f h =
      fun_ext λ j. ap (λ n. lookup Key-discrete j n) (update_self c.maps c.objects m) ∙ h j

  step-put :
      (k : Key) (v : V) (c : Mock)
      → ◌≡◌ {A = Reply V J × Contents}
          ((apply (put_op k v) c).0, contents (apply (put_op k v) c).1)
          (answer (put_op k v) (contents c))
  unfolding apply answer put
  step-put k v c = elim (Option-cases (validate_datastore_entity {J = J} (type_of v))) [
    | inr (e, h) ↦ rw (h, put, answer) refl
    | inl h ↦ elim (Sum-cases (marshal v)) [
      | inl (e, m) ↦ rw (h, m, put, answer) refl
      | inr (js, m) ↦
          rw (h, m, put, answer)
            (ap (λ f. (put_reply (some k) none, f))
              (contents-write c (insert Key-discrete k js (objects_of c))
                (set k (some js) (contents c))
                λ j. lookup-insert Key-discrete k j js (objects_of c)))
    ]
  ]

  step-get :
      (k : Key) (v : V) (c : Mock)
      → ◌≡◌ {A = Reply V J × Contents}
          ((apply (get_op k v) c).0, contents (apply (get_op k v) c).1)
          (answer (get_op k v) (contents c))
  unfolding apply answer get
  step-get k v c = elim (Option-cases (validate_datastore_entity {J = J} (type_of v))) [
    | inr (e, h) ↦ rw (h, get, answer) refl
    | inl h ↦ elim (Option-cases (contents c k)) [
      | inl m ↦ rw (h, m, get, answer) refl
      | inr (o, m) ↦ rw (h, m, get, answer) refl
    ]
  ]

  step-delete :
      (k : Key) (c : Mock)
      → ◌≡◌ {A = Reply V J × Contents}
          ((apply (delete_op k) c).0, contents (apply (delete_op k) c).1)
          (answer (delete_op k) (contents c))
  unfolding apply answer delete_entity
  step-delete k c = elim (Option-cases (contents c k)) [
    | inl m ↦ rw (m, delete_entity, answer) refl
    | inr (o, m) ↦
        rw (m, delete_entity, answer)
          (ap (λ f. (delete_reply none, f))
            (contents-write c (delete Key-discrete k (objects_of c)) (set k none (contents c))
              λ j. lookup-delete Key-discrete k j (objects_of c)))
  ]

  step :
      (o : Op V) (c : Mock)
      → ◌≡◌ {A = Reply V J × Contents}
          ((apply o c).0, contents (apply o c).1)
          (answer o (contents c))
  step (put_op k v) c = step-put k v c
  step (get_op k v) c = step-get k v c
  step (delete_op k) c = step-delete k c

  -- A client of the map sees a function of the key: any sequence of Put, Get and Delete returns,
  -- call by call, what the specification returns, and leaves what the specification leaves.
  pub run-replay :
      (os : List (Op V)) (c : Mock)
      → ◌≡◌ {A = List (Reply V J) × Contents}
          ((run os c).0, contents (run os c).1)
          (replay os (contents c))
  unfolding run replay
  run-replay [] c = refl
  run-replay (o ∷ os) c =
      let (reply, d) = apply o c in
      ap (λ p. (reply ∷ p.0, p.1)) (run-replay os d)
      ∙ ap (λ p. (p.0 ∷ (replay os p.1).0, (replay os p.1).1)) (step o c)
