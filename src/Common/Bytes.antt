-- ===== src/Common/Bytes.antt =====
-- Go strings as lists of bytes: literals, equality, prefixes, and `sort.Strings`.
use Prim.Native.Nat.{ℕ}
use mathlib.Core.Logic.{inl, inr}
use Prim.Native.Char.{code}
use Prim.Native.String.{String}
use mathlib.Core.Path.{◌≡◌, refl}
use mathlib.Core.Bool.{Bool, true, false, ◌&&◌}
use mathlib.Core.List.{List, [], ◌∷◌, Perm}
use mathlib.Core.List.Perm
use native.Mathlib.Omega.{arith}
use native.Mathlib.Decide.{ℕ_discrete}
use gcp_emulator_pool.Common.Tests.{ltb, ◌==◌, if◌then◌else◌, Bool-cases}

abbrev pub Str : Type 0
Str = List ℕ

-- The bytes of an ASCII literal.
abbrev pub bytes : String → Str
bytes String.[] = []
bytes (String.◌∷◌ c s) = code c ∷ bytes s

unfoldable pub str_discrete : Discrete Str
str_discrete = hlevel ℕ_discrete

-- `strings.HasPrefix`.
unfoldable pub has_prefix : Str → Str → Bool
has_prefix s [] = true
has_prefix [] (p ∷ ps) = false
has_prefix (c ∷ s) (p ∷ ps) = c == p && has_prefix s ps

-- Go's `<=` on strings: lexicographic by bytes.
unfoldable pub str_leb : Str → Str → Bool
str_leb [] t = true
str_leb (a ∷ s) [] = false
str_leb (a ∷ s) (b ∷ t) = if ltb a b then true else a == b && str_leb s t

unfoldable pub insert_sorted : Str → List Str → List Str
insert_sorted s [] = s ∷ []
insert_sorted s (t ∷ ts) = if str_leb s t then s ∷ t ∷ ts else t ∷ insert_sorted s ts

-- `sort.Strings`.
unfoldable pub sort_strings : List Str → List Str
unfolding insert_sorted
sort_strings [] = []
sort_strings (s ∷ ss) = insert_sorted s (sort_strings ss)

-- No string of the list comes before `s`.
abbrev pub AllAbove : Str → List Str → Type 0
AllAbove s [] = Unit
AllAbove s (t ∷ ts) = (str_leb s t ≡ true) × AllAbove s ts

abbrev pub IsSorted : List Str → Type 0
IsSorted [] = Unit
IsSorted (s ∷ ss) = AllAbove s ss × IsSorted ss

pub str_leb_total : (s t : Str) → str_leb s t ≡ false → str_leb t s ≡ true
unfolding str_leb
str_leb_total [] t h = cc
str_leb_total (a ∷ s) [] h = refl
str_leb_total (a ∷ s) (b ∷ t) h = ground (arith, str_leb_total s t)

pub str_leb_trans : (r s t : Str) → str_leb r s ≡ true → str_leb s t ≡ true → str_leb r t ≡ true
unfolding str_leb
str_leb_trans [] s t h k = refl
str_leb_trans (a ∷ r) [] t h k = cc
str_leb_trans (a ∷ r) (b ∷ s) [] h k = cc
str_leb_trans (a ∷ r) (b ∷ s) (c ∷ t) h k = ground (arith, str_leb_trans r s t)

AllAbove-mono : (s t : Str) (ts : List Str) → str_leb s t ≡ true → AllAbove t ts → AllAbove s ts
AllAbove-mono s t [] h k = tt
AllAbove-mono s t (u ∷ ts) h k = (str_leb_trans s t u h k.0, AllAbove-mono s t ts h k.1)

AllAbove-insert_sorted :
    (r s : Str) (ts : List Str)
    → str_leb r s ≡ true
    → AllAbove r ts
    → AllAbove r (insert_sorted s ts)
unfolding insert_sorted
AllAbove-insert_sorted r s [] h k = (h, tt)
AllAbove-insert_sorted r s (t ∷ ts) h k = ground (arith, AllAbove-insert_sorted r s ts h k.1)

insert_sorted-IsSorted : (s : Str) (ts : List Str) → IsSorted ts → IsSorted (insert_sorted s ts)
unfolding insert_sorted
insert_sorted-IsSorted s [] h = (tt, tt)
insert_sorted-IsSorted s (t ∷ ts) (above, rest) = elim (Bool-cases (str_leb s t)) [
  | inl le ↦ rw le ((le, AllAbove-mono s t ts le above), (above, rest))
  | inr gt ↦
      rw gt (
        AllAbove-insert_sorted t s ts (str_leb_total s t gt) above,
        insert_sorted-IsSorted s ts rest,
      )
]

pub sort_strings-IsSorted : (ss : List Str) → IsSorted (sort_strings ss)
unfolding sort_strings
sort_strings-IsSorted [] = tt
sort_strings-IsSorted (s ∷ ss) =
    insert_sorted-IsSorted s (sort_strings ss) (sort_strings-IsSorted ss)

insert_sorted-perm : (s : Str) (ts : List Str) → Perm (insert_sorted s ts) (s ∷ ts)
unfolding insert_sorted
insert_sorted-perm s [] = Perm.refl (s ∷ [])
insert_sorted-perm s (t ∷ ts) = elim (Bool-cases (str_leb s t)) [
  | inl le ↦ rw le (Perm.refl (s ∷ t ∷ ts))
  | inr gt ↦ rw gt (Perm.trans (Perm.cons t (insert_sorted-perm s ts)) (Perm.swap s t ts))
]

pub sort_strings-perm : (ss : List Str) → Perm (sort_strings ss) ss
unfolding sort_strings
sort_strings-perm [] = Perm.refl []
sort_strings-perm (s ∷ ss) =
    Perm.trans (insert_sorted-perm s (sort_strings ss)) (Perm.cons s (sort_strings-perm ss))
