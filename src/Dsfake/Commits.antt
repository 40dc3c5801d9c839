-- ===== src/Dsfake/Commits.antt =====
-- What Lookup finds after Commit (gcpapi/datastore/dsfake/dsifake.go).
use gcp_emulator_pool.Common.{
  ◌≡◌, refl, sym, ap, ◌∙◌, Option, none, some, List, [], ◌∷◌, ◌++◌, arith, ite, ℤ, Str,
  str_discrete, lookup, lookup-insert, lookup-delete, if_pos, Option-cases, inl, inr, bytes,
}
use gcp_emulator_pool.Dsfake.{
  PathElement, IdOrName, PbKey, Entity, Objects, key_name, name_and_kind, upsert_op, delete_op,
  commit, find_entity, element_name, namespace_of,
}

name_and_kind_last :
    (n k : Str) (parents : List PathElement) (el : PathElement)
    → name_and_kind n k (parents ++ el ∷ []) ≡ (element_name el, el.kind)
unfolding name_and_kind
name_and_kind_last n k [] el = refl
name_and_kind_last n k (p ∷ parents) el = name_and_kind_last (element_name p) p.kind parents el

nameless :
    (kind : Str) (i j : ℤ)
    → element_name (record { kind = kind; id_or_name = IdOrName.id i })
      ≡ element_name (record { kind = kind; id_or_name = IdOrName.id j })
nameless kind i j =
    if_pos (str_discrete [] []) refl _ _ ∙ sym (if_pos (str_discrete [] []) refl _ _)

key_name_last :
    (namespace : Option Str) (parents : List PathElement) (el : PathElement)
    → key_name (record { namespace_id = namespace; path = parents ++ el ∷ [] })
      ≡ namespace_of namespace ++ bytes "/" ++ el.kind ++ bytes "/" ++ element_name el
unfolding key_name
key_name_last namespace parents el =
    ap (λ x. namespace_of namespace ++ bytes "/" ++ x.1 ++ bytes "/" ++ x.0)
      (name_and_kind_last [] [] parents el)

-- Neither an id nor the parents leave a trace in the name of a key: keys of one namespace and one
-- kind with ids have the same name, whatever their ids and their parents are.
pub key_name_ids :
    (namespace : Option Str) (parents parents' : List PathElement) (kind : Str) (i j : ℤ)
    → key_name (record {
      namespace_id = namespace;
      path = parents ++ record { kind = kind; id_or_name = IdOrName.id i } ∷ [];
    })
      ≡ key_name (record {
        namespace_id = namespace;
        path = parents' ++ record { kind = kind; id_or_name = IdOrName.id j } ∷ [];
      })
key_name_ids namespace parents parents' kind i j =
    key_name_last namespace parents (record { kind = kind; id_or_name = IdOrName.id i })
    ∙ ap (λ n. namespace_of namespace ++ bytes "/" ++ kind ++ bytes "/" ++ n) (nameless kind i j)
    ∙ sym (key_name_last namespace parents' (record { kind = kind; id_or_name = IdOrName.id j }))

module _ (marshal : Entity → Option Str) (unmarshal : Str → Option Entity)
    (round_trip : (e : Entity) (b : Str) → marshal e ≡ some b → unmarshal b ≡ some e) where
  -- If what is encoded decodes again, then an upsert of an entity that can be encoded answers its
  -- key, a look-up of a key of the same name finds the entity, and a look-up of any other is as it
  -- was.
  pub commit-find_entity :
      (e : Entity) (objs : Objects) {b : Str}
      → marshal e ≡ some b
      → ((commit marshal unmarshal (upsert_op e ∷ []) objs).0 ≡ e.key ∷ [])
        × ((k : PbKey)
            → find_entity marshal unmarshal k (commit marshal unmarshal (upsert_op e ∷ []) objs).1
              ≡ ite
                  (str_discrete (key_name e.key) (key_name k))
                  (some e)
                  (find_entity marshal unmarshal k objs))
  unfolding commit find_entity
  commit-find_entity e objs {b} encoded =
      rw (encoded, commit)
        (
          refl,
          λ k. ground (
            arith,
            lookup-insert str_discrete (key_name e.key) (key_name k) b objs,
            round_trip e b encoded,
          ),
        )

module _ (marshal : Entity → Option Str) (unmarshal : Str → Option Entity) where
  -- A delete of a key makes every look-up of its name miss, whether or not it was there, and no
  -- other.
  pub commit_delete :
      (k q : PbKey) (objs : Objects)
      → find_entity marshal unmarshal q (commit marshal unmarshal (delete_op k ∷ []) objs).1
        ≡ ite (str_discrete (key_name k) (key_name q)) none (find_entity marshal unmarshal q objs)
  unfolding commit find_entity
  commit_delete k q objs = elim (Option-cases (lookup str_discrete (key_name k) objs)) [
    | inl gone ↦
        ground (arith, gone, ap (λ x. lookup str_discrete x objs) {x = key_name k} {y = key_name q})
    | inr (b, there) ↦
        ground (arith, there, lookup-delete str_discrete (key_name k) (key_name q) objs)
  ]
