-- ===== src/Dstest/Indexes/Missing.antt =====
-- Which of the used indexes count as missing (gcpapi/datastore/dstest/index_yaml.go).
use gcp_emulator_pool.Common.{
  ◌≡◌, refl, sym, ap, Bool, true, false, ◌||◌, Option, none, some, List, [], ◌∷◌, ◌++◌, map,
  if◌then◌else◌, ite, arith, Str, str_discrete, str_leb, str_leb_total, str_leb_trans, bytes,
  lookup, insert, lookup-insert, insert_sorted, sort_strings, Bool-cases, inl, inr,
}
use gcp_emulator_pool.Dstest.Os.{Index}
use gcp_emulator_pool.Dstest.Calls.{join_strings}
use gcp_emulator_pool.Dstest.Indexes.{
  index_string, index_strings, keep_unlisted, set_difference, property_string, ancestor_suffix,
}

-- The string of some index of the list.
unfoldable pub is_listed : Str → List Index → Bool
is_listed s [] = false
is_listed s (i ∷ is) = ite (str_discrete (index_string i) s) true (is_listed s is)

-- The indexes of the first list whose string is that of no index of the second.
unfoldable pub unlisted : List Index → List Index → List Index
unlisted [] yaml = []
unlisted (i ∷ is) yaml =
    let rest = unlisted is yaml in if is_listed (index_string i) yaml then rest else i ∷ rest

-- What the map says of a string, none counting as false.
abbrev flag : Option Bool → Bool
flag none = false
flag (some b) = b

flag-index_strings :
    (s : Str) (yaml : List Index) (m : List (Str × Bool))
    → flag (lookup str_discrete s (index_strings yaml m))
      ≡ (is_listed s yaml || flag (lookup str_discrete s m))
unfolding index_strings is_listed
flag-index_strings s [] m = refl
flag-index_strings s (i ∷ is) m = ground (
  arith,
  flag-index_strings s is (insert str_discrete (index_string i) true m),
  lookup-insert str_discrete (index_string i) s true m,
)

keep_unlisted-unlisted :
    (yaml xml : List Index) → keep_unlisted (index_strings yaml []) xml ≡ unlisted xml yaml
unfolding keep_unlisted unlisted lookup
keep_unlisted-unlisted yaml [] = refl
keep_unlisted-unlisted yaml (i ∷ is) =
    ground (arith, keep_unlisted-unlisted yaml is, flag-index_strings (index_string i) yaml [])

-- The set difference by way of a map is the list of those indexes, in their order and with their
-- repetitions, whose string is the string of no index of index.yaml.
pub set_difference-unlisted : (xml yaml : List Index) → set_difference xml yaml ≡ unlisted xml yaml
unfolding set_difference
set_difference-unlisted xml yaml = keep_unlisted-unlisted yaml xml

str_leb_antisym : (s t : Str) → str_leb s t ≡ true → str_leb t s ≡ true → s ≡ t
unfolding str_leb
str_leb_antisym [] [] h k = refl
str_leb_antisym [] (b ∷ t) h k = cc
str_leb_antisym (a ∷ s) [] h k = cc
str_leb_antisym (a ∷ s) (b ∷ t) h k = ground (arith, str_leb_antisym s t)

-- Two insertions in either order, where `s` comes no later than `t`.
insert_sorted_ordered :
    (s t : Str) (us : List Str)
    → str_leb s t ≡ true
    → insert_sorted s (insert_sorted t us) ≡ insert_sorted t (insert_sorted s us)
unfolding insert_sorted
insert_sorted_ordered s t [] h = ground (arith, str_leb_antisym s t)
insert_sorted_ordered s t (u ∷ us) h =
    ground (arith, str_leb_antisym s t h, str_leb_trans s t u h, insert_sorted_ordered s t us h)

insert_sorted_comm :
    (s t : Str) (us : List Str)
    → insert_sorted s (insert_sorted t us) ≡ insert_sorted t (insert_sorted s us)
insert_sorted_comm s t us = elim (Bool-cases (str_leb s t)) [
  | inl le ↦ insert_sorted_ordered s t us le
  | inr gt ↦ sym (insert_sorted_ordered t s us (str_leb_total s t gt))
]

map_swap :
    (front back : List (Str × Str)) (p q : Str × Str)
    → sort_strings (map property_string (front ++ p ∷ q ∷ back))
      ≡ sort_strings (map property_string (front ++ q ∷ p ∷ back))
unfolding sort_strings
map_swap [] back p q =
    insert_sorted_comm (property_string p) (property_string q)
      (sort_strings (map property_string back))
map_swap (s ∷ front) back p q = ap (insert_sorted (property_string s)) (map_swap front back p q)

-- The order of an index's properties leaves no trace in its string: exchanging two neighbours
-- changes nothing, so indexes that serve different queries count as the same.
pub index_string_swap :
    (kind ancestor : Str) (front back : List (Str × Str)) (p q : Str × Str)
    → index_string (record { kind = kind; ancestor = ancestor; property = front ++ p ∷ q ∷ back })
      ≡ index_string (record { kind = kind; ancestor = ancestor; property = front ++ q ∷ p ∷ back })
unfolding index_string
index_string_swap kind ancestor front back p q =
    ap
      (λ s.
        kind ++ ancestor_suffix ancestor ++ bytes "{" ++ join_strings (bytes ",") s ++ bytes "}")
      (map_swap front back p q)
