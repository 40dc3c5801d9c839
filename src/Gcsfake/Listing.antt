-- ===== src/Gcsfake/Listing.antt =====
-- What the iterator of `Objects` goes through (gcpapi/storage/storagetest/gcsfake.go).
use gcp_emulator_pool.Common.{
  ℕ, zero, suc, ◌+◌, ◌≡◌, ◌≤◌, refl, sym, ap, ◌∙◌, false, Option, none, some, List, [], ◌∷◌, arith,
  Str, str_discrete, has_prefix, length, get_elem?, drop, drop_all, inl, inr, Bool-cases,
  if◌then◌else◌, if_pos,
}
use gcp_emulator_pool.Testutil.Paging.Walk.{get_elem?-drop}
use gcp_emulator_pool.Gcsfake.{
  ObjectAttrs, Query, list_objects, ObjIt, objects_of, context_error, iterator_done, item,
  next_object, Store,
}

-- The objects whose names begin with the prefix.
unfoldable pub with_prefix : Str → List ObjectAttrs → List ObjectAttrs
with_prefix start [] = []
with_prefix start (a ∷ attrs) =
    if has_prefix a.name start then a ∷ with_prefix start attrs else with_prefix start attrs

list_objects-flat :
    (q : Query) (dir : Str) (attrs : List ObjectAttrs)
    → q.delimiter ≡ []
    → list_objects q dir attrs ≡ with_prefix q.name_prefix attrs
unfolding list_objects with_prefix
list_objects-flat q dir [] flat = refl
list_objects-flat q dir (a ∷ attrs) flat =
    let rest = list_objects-flat q dir attrs flat in
    elim (Bool-cases (has_prefix a.name q.name_prefix)) [
      | inl listed ↦
          rw (listed, list_objects)
            (if_pos (str_discrete q.delimiter []) flat _ _ ∙ ap (◌∷◌ a) rest)
      | inr other ↦ rw (other, list_objects) rest
    ]

-- A client that calls `Next` until it is done; `none` after as many calls as the fuel says, or if the
-- context has an error.
unfoldable pub drain : ℕ → ObjIt → Option (List ObjectAttrs)
drain zero it = none
drain (suc fuel) it =
    let (got, it') = next_object false it in
    let rest = drain fuel it' in
    elim got [
      | context_error ↦ none
      | iterator_done ↦ some []
      | item a ↦ elim rest [ none ↦ none | some attrs ↦ some (a ∷ attrs) ]
    ]

get_elem?_end : (objs : List ObjectAttrs) (i : ℕ) → length objs ≤ i → get_elem? objs i ≡ none
get_elem?_end [] i h = refl
get_elem?_end (a ∷ objs) zero h = absurd (omega arith)
get_elem?_end (a ∷ objs) (suc i) h = get_elem?_end objs i (omega arith)

next_end :
    (objs : List ObjectAttrs) (i : ℕ)
    → get_elem? objs i ≡ none
    → next_object false (record { objects = objs; next = i })
      ≡ (iterator_done, record { objects = objs; next = i })
unfolding next_object
next_end objs i h = rw h refl

next_item :
    (objs : List ObjectAttrs) (i : ℕ) {a : ObjectAttrs}
    → get_elem? objs i ≡ some a
    → next_object false (record { objects = objs; next = i })
      ≡ (item a, record { objects = objs; next = suc i })
unfolding next_object
next_item objs i h = rw h refl

drain_step :
    (n : ℕ) (it : ObjIt) {a : ObjectAttrs} {it' : ObjIt}
    → next_object false it ≡ (item a, it')
    → drain (suc n) it ≡ (elim (drain n it') [ none ↦ none | some attrs ↦ some (a ∷ attrs) ])
unfolding drain
drain_step n it h =
    ap
      (λ x. elim x.0 [
        | context_error ↦ none
        | iterator_done ↦ some []
        | item b ↦ elim (drain n x.1) [ none ↦ none | some attrs ↦ some (b ∷ attrs) ]
      ])
      h

drain_rest :
    (n : ℕ) (objs : List ObjectAttrs) (i : ℕ)
    → i + n ≡ length objs
    → drain (suc n) (record { objects = objs; next = i }) ≡ some (drop i objs)
unfolding drain
drain_rest zero objs i h =
    rw (next_end objs i (get_elem?_end objs i (omega arith)), drain)
      (ap some (sym (drop_all i objs (omega arith))))
drain_rest (suc n) objs i h =
    let (a, here, rest) = get_elem?-drop i objs (omega arith) in
    let ih = drain_rest n objs (suc i) (omega arith) in
    drain_step (suc n) _ (next_item objs i here)
    ∙ ap (λ o. elim o [ none ↦ none | some attrs ↦ some (a ∷ attrs) ]) ih
    ∙ ap some (sym rest)

-- Without a delimiter, a client that calls `Next` until it is done gets the objects whose names
-- begin with the prefix, each once and in the bucket's order, and then `iterator.Done`; one call more
-- than there are such objects suffices.
pub drain-objects_of :
    (q : Query) (b : ℕ) (s : Store)
    → q.delimiter ≡ []
    → drain (suc (length (with_prefix q.name_prefix (s.buckets b).obj_attrs))) (objects_of q b s)
      ≡ some (with_prefix q.name_prefix (s.buckets b).obj_attrs)
unfolding objects_of
drain-objects_of q b s flat =
    let attrs = with_prefix q.name_prefix (s.buckets b).obj_attrs in
    let flatly : list_objects q [] (s.buckets b).obj_attrs ≡ attrs =
      list_objects-flat q [] (s.buckets b).obj_attrs flat in
    rw flatly (drain_rest (length attrs) attrs 0 (omega arith))
