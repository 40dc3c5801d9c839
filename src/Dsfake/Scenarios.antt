-- ===== src/Dsfake/Scenarios.antt =====
-- The theorems with an encoding of one kind of entity.
use gcp_emulator_pool.Common.{
  ◌≡◌, refl, sym, ap, Option, none, some, List, [], ◌∷◌, ◌++◌, arith, ite, pos, Str, bytes,
  str_discrete,
}
use gcp_emulator_pool.Dsfake.{
  Objects, PathElement, IdOrName, PbKey, Entity, upsert_op, key_name, commit, find_entity,
}
use gcp_emulator_pool.Dsfake.Keys.{decoded, undecoded, get_ds_keys, get_ds_keys-decoded}
use gcp_emulator_pool.Dsfake.Commits.{key_name_ids, commit-find_entity}

-- An encoding of the entities whose keys are empty.
abbrev encode_parts : Option Str → List PathElement → Str → Option Str
encode_parts none [] p = some p
encode_parts none (el ∷ path) p = none
encode_parts (some n) path p = none

abbrev encode : Entity → Option Str
encode e = encode_parts e.key.namespace_id e.key.path e.properties

abbrev decode : Str → Option Entity
decode b = some (record { key = record { namespace_id = none; path = [] }; properties = b })

decode-encode_parts :
    (n : Option Str) (path : List PathElement) (p b : Str)
    → encode_parts n path p ≡ some b
    → decode b ≡ some (record { key = record { namespace_id = n; path = path }; properties = p })
decode-encode_parts none [] p b h = let e : p ≡ b = ground arith in ap decode (sym e)
decode-encode_parts none (el ∷ path) p b h = absurd (cc)
decode-encode_parts (some n) path p b h = absurd (cc)

decode-encode : (e : Entity) (b : Str) → encode e ≡ some b → decode b ≡ some e
decode-encode e b h = decode-encode_parts e.key.namespace_id e.key.path e.properties b h

abbrev entity : Entity
entity = record { key = record { namespace_id = none; path = [] }; properties = bytes "x" }

commit-find_entity_example :
    ((commit encode decode (upsert_op entity ∷ []) []).0 ≡ entity.key ∷ [])
    × ((k : PbKey)
        → find_entity encode decode k (commit encode decode (upsert_op entity ∷ []) []).1
          ≡ ite
              (str_discrete (key_name entity.key) (key_name k))
              (some entity)
              (find_entity encode decode k []))
commit-find_entity_example = commit-find_entity encode decode decode-encode entity [] refl

key_name_ids_example :
    key_name (record {
      namespace_id = (some (bytes "ns"));
      path = [] ++ record { kind = (bytes "Job"); id_or_name = IdOrName.id (pos 1) } ∷ [];
    })
    ≡ key_name (record {
      namespace_id = (some (bytes "ns"));
      path = [] ++ record { kind = (bytes "Job"); id_or_name = IdOrName.id (pos 2) } ∷ [];
    })
key_name_ids_example = key_name_ids (some (bytes "ns")) [] [] (bytes "Job") (pos 1) (pos 2)

-- An empty text does not decode.
abbrev decode_some : Str → Option Entity
decode_some [] = none
decode_some (c ∷ b) = decode (c ∷ b)

abbrev two_objects : Objects
two_objects = (bytes "a", []) ∷ (bytes "b", bytes "x") ∷ []

get_ds_keys-decoded_example :
    get_ds_keys decode_some two_objects
    ≡ decoded decode_some two_objects ++ undecoded decode_some two_objects
get_ds_keys-decoded_example = get_ds_keys-decoded decode_some two_objects
