-- ===== src/Dstest/Indexes.antt =====
-- gcpapi/datastore/dstest/index_yaml.go: composite indexes that a test used and index.yaml lacks.
-- `_yamlIndexes`, which `loadIndexYAML` sets once, is an argument.
pub mod Missing
use gcp_emulator_pool.Common.{
  ℕ, inl, inr, Bool, true, false, ◌||◌, Option, none, some, List, [], ◌∷◌, ◌++◌, map, if◌then◌else◌,
  ite, Str, bytes, str_discrete, lookup, insert, sort_strings,
}
use gcp_emulator_pool.Dstest.Os.{Os, Index}
use gcp_emulator_pool.Dstest.Calls.{Try, fail, done, bind, call, wrapping, join_strings}

unfoldable pub property_string : Str × Str → Str
property_string (name, direction) =
    ite (str_discrete direction (bytes "desc")) (name ++ bytes "[desc]") name

abbrev pub ancestor_suffix : Str → Str
ancestor_suffix a =
    ite (str_discrete a (bytes "yes")) (bytes "[ancestor]")
      (ite (str_discrete a (bytes "true")) (bytes "[ancestor]") [])

-- `String`.
unfoldable pub index_string : Index → Str
unfolding property_string
index_string idx =
    idx.kind
    ++ ancestor_suffix idx.ancestor
    ++ bytes "{"
    ++ join_strings (bytes ",") (sort_strings (map property_string idx.property))
    ++ bytes "}"

-- The map `yamlIndexStrings`.
unfoldable pub index_strings : List Index → List (Str × Bool) → List (Str × Bool)
index_strings [] m = m
index_strings (i ∷ is) m = index_strings is (insert str_discrete (index_string i) true m)

-- The loop over `xmlIndexes`.
unfoldable pub keep_unlisted : List (Str × Bool) → List Index → List Index
keep_unlisted m [] = []
keep_unlisted m (i ∷ is) =
    let rest = keep_unlisted m is in
    elim (lookup str_discrete (index_string i) m) [
      | none ↦ i ∷ rest
      | some listed ↦ if listed then rest else i ∷ rest
    ]

-- `_setDifference`.
unfoldable pub set_difference : List Index → List Index → List Index
set_difference xml_indexes yaml_indexes = keep_unlisted (index_strings yaml_indexes []) xml_indexes

module _ (os : Os) where
  open os use {
    World, Error, internal, with_stack, join, unmarshal_xml, open_file, create_file, read_all,
    write_file, close_file, make_dirs,
  }

  -- `_readIndex`, with the unmarshaler for XML. The file is closed on every way out.
  unfoldable pub read_index : Str → World → Try Error (List Index) × World
  read_index abspath w = call with_stack (open_file abspath w) λ file w.
      let (data_read, w) = read_all file w in
      call with_stack (data_read, close_file file w)
        λ text w. call (λ e. e) (unmarshal_xml text, w) λ indexes w. (done indexes, w)

  unfoldable pub index_xml : Str → Str
  index_xml datadir = join datadir (bytes "WEB-INF/appengine-generated/datastore-indexes-auto.xml")

  -- `compositeIndexes`.
  unfoldable pub composite_indexes : Str → World → Try Error (List Index) × World
  composite_indexes datadir w = read_index (index_xml datadir) w

  -- `missingCompositeIndexes`.
  unfoldable pub missing_composite_indexes : List Index → Str → World → Try Error Str × World
  missing_composite_indexes yaml_indexes datadir w =
      bind
        (wrapping
          (λ e.
            internal (bytes "Error reading datastore indexes used by test") (some e)
              ((bytes "datadir", datadir) ∷ []))
          (composite_indexes datadir w))
        λ xml_indexes w.
          let missing = map index_string (set_difference xml_indexes yaml_indexes) in
          (done (elim xml_indexes [ [] ↦ [] | i ∷ is ↦ join_strings (bytes "\n") missing ]), w)

  -- `clearIndexXMLFile`; its errors are ignored.
  unfoldable pub clear_index_xml_file : Str → World → World
  clear_index_xml_file datadir w =
      let dirname = join datadir (bytes "WEB-INF/appengine-generated") in
      let filename = join dirname (bytes "datastore-indexes-auto.xml") in
      let (_, w) = make_dirs dirname w in
      let (created, w) = create_file filename w in
      elim created [
        | inl e ↦ w
        | inr file ↦
            let (_, w) = write_file file (bytes "<datastore-indexes />") w in close_file file w
      ]
