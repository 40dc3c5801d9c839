-- ===== src/Dsfake.antt =====
-- gcpapi/datastore/dsfake/dsifake.go: a fake Datastore server, as far as Commit and Lookup. The
-- encoding of entities by the protobuf library is a parameter. A key that a request leaves out, at
-- which the server panics, is not modelled: keys are there.
pub mod Commits
pub mod Keys
pub mod Scenarios
use gcp_emulator_pool.Common.{
  ℕ, Bool, true, false, not, ◌&&◌, Option, none, some, List, [], ◌∷◌, ◌++◌, if◌then◌else◌, ite, ℤ,
  pos, ℤ-discrete, Str, bytes, str_discrete, lookup, insert, delete,
}
use gcp_emulator_pool.Testutil.Paging.{itoa_ℤ}

-- The oneof of a path element.
pub data IdOrName : Type 0 where
  unset : IdOrName
  id : ℤ → IdOrName
  name : Str → IdOrName

pub record PathElement : Type 0 where
  pub kind : Str
  pub id_or_name : IdOrName

-- `namespace_id` is none without a partition.
pub record PbKey : Type 0 where
  pub namespace_id : Option Str
  pub path : List PathElement

pub record Entity : Type 0 where
  pub key : PbKey
  pub properties : Str

-- `GetName` and `GetId` of the protobuf library.
abbrev pub get_name : IdOrName → Str
get_name unset = []
get_name (id i) = []
get_name (name n) = n

abbrev pub get_id : IdOrName → ℤ
get_id unset = pos 0
get_id (id i) = i
get_id (name n) = pos 0

-- The body of the loop over the path: the name of one element.
abbrev pub element_name : PathElement → Str
element_name el = ite (str_discrete (get_name el.id_or_name) []) (get_name el.id_or_name) (
    ite (ℤ-discrete (get_id el.id_or_name) (pos 0)) (get_name el.id_or_name)
      (itoa_ℤ (get_id el.id_or_name)))

-- `getKeyNameAndKindFromPath`, from the name and the kind so far.
unfoldable pub name_and_kind : Str → Str → List PathElement → Str × Str
name_and_kind n k [] = (n, k)
name_and_kind n k (el ∷ path) = name_and_kind (element_name el) el.kind path

abbrev pub namespace_of : Option Str → Str
namespace_of none = []
namespace_of (some n) = n

-- `protoKeyToKeyName`.
unfoldable pub key_name : PbKey → Str
unfolding name_and_kind
key_name p =
    let (n, k) = name_and_kind [] [] p.path in
    namespace_of p.namespace_id ++ bytes "/" ++ k ++ bytes "/" ++ n

-- The operation of a mutation. An insert, or none at all, is passed over.
pub data Mutation : Type 0 where
  other : Mutation
  update_op : Entity → Mutation
  upsert_op : Entity → Mutation
  delete_op : PbKey → Mutation

-- The map from key names to encoded entities.
abbrev pub Objects : Type 0
Objects = List (Str × Str)

module _ (marshal : Entity → Option Str) (unmarshal : Str → Option Entity) where
  -- A put of an encoded entity, with the key of the result.
  abbrev pub put : PbKey → Option Str → Objects → List PbKey × Objects
  put k none objs = ([], objs)
  put k (some b) objs = (k ∷ [], insert str_discrete (key_name k) b objs)

  -- One round of the loop of `Commit`.
  unfoldable pub commit_one : Mutation → Objects → List PbKey × Objects
  commit_one other objs = ([], objs)
  commit_one (update_op e) objs = elim (lookup str_discrete (key_name e.key) objs) [
    | none ↦ ([], objs)
    | some _ ↦ put e.key (marshal e) objs
  ]
  commit_one (upsert_op e) objs = put e.key (marshal e) objs
  commit_one (delete_op k) objs = elim (lookup str_discrete (key_name k) objs) [
    | none ↦ ([], objs)
    | some _ ↦ (k ∷ [], delete str_discrete (key_name k) objs)
  ]

  -- `Commit`: the keys of its results.
  unfoldable pub commit : List Mutation → Objects → List PbKey × Objects
  unfolding commit_one
  commit [] objs = ([], objs)
  commit (mut ∷ muts) objs =
      let (ks, objs') = commit_one mut objs in
      let (rest, objs'') = commit muts objs' in (ks ++ rest, objs'')

  -- One round of the loop of `Lookup`: the entity that is found.
  unfoldable pub find_entity : PbKey → Objects → Option Entity
  find_entity k objs = elim (lookup str_discrete (key_name k) objs) [
    | none ↦ none
    | some b ↦ unmarshal b
  ]

  -- `Lookup`: the entities found, and the keys missing.
  unfoldable pub lookup_entities : List PbKey → Objects → List Entity × List PbKey
  unfolding find_entity
  lookup_entities [] objs = ([], [])
  lookup_entities (k ∷ ks) objs =
      let (found, missing) = lookup_entities ks objs in
      elim (find_entity k objs) [ none ↦ (found, k ∷ missing) | some e ↦ (e ∷ found, missing) ]
