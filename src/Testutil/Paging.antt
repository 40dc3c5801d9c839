-- ===== src/Testutil/Paging.antt =====
-- `PageBounds` of gcpapi/testutil/server.go, and the two ways in which the List handlers of
-- gcpapi/pubsub/pstest/fake.go cut a page out of their sorted names.
pub mod Pages
pub mod Walk
use gcp_emulator_pool.Common.{
  ℕ, zero, suc, ◌+◌, ◌-◌, ◌≡◌, refl, ◌&&◌, Option, none, some, List, [], ◌∷◌, ◌++◌, ltb, leb,
  if◌then◌else◌, ℤ, pos, negsuc, ◌+ℤ◌, ◌-ℤ◌, ltb_ℤ, Str, bytes, length, get_elem?, take, drop,
}
use gcp_emulator_pool.Strconv.{itoa, atoi}

pub record Bounds : Type 0 where
  pub from : ℤ
  pub to : ℤ
  pub next_page_token : Str

-- `strconv.Itoa`.
unfoldable pub itoa_ℤ : ℤ → Str
itoa_ℤ (pos n) = itoa n
itoa_ℤ (negsuc n) = b'-' ∷ itoa (suc n)

-- The code behind the `if pageToken` block.
pub cut : ℤ → ℤ → ℕ → Bounds
cut page_size from len =
    if ltb_ℤ (pos 0) page_size && ltb_ℤ (from +ℤ page_size) (pos len)
    then record {
      from = from;
      to = from +ℤ page_size;
      next_page_token = itoa_ℤ (from +ℤ page_size);
    }
    else record { from = from; to = pos len; next_page_token = [] }

pub resume : ℤ → Option ℤ → ℕ → Option Bounds
unfolding cut
resume page_size none len = none
resume page_size (some from) len =
    if ltb_ℤ from (pos len)
    then some (cut page_size from len)
    else some (record { from = pos len; to = pos len; next_page_token = [] })

-- `none` is the error InvalidArgument.
unfoldable pub page_bounds : ℤ → Str → ℕ → Option Bounds
unfolding resume cut
page_bounds page_size [] len = some (cut page_size (pos 0) len)
page_bounds page_size (c ∷ token) len = resume page_size (atoi (c ∷ token)) len

module _ {ℓ} {A : Type ℓ} where
  -- The slice expression `xs[from:to]`; `none` is the panic out of range.
  unfoldable pub slice : List A → ℤ → ℤ → Option (List A)
  slice xs (negsuc i) to = none
  slice xs (pos i) (negsuc j) = none
  slice xs (pos i) (pos j) =
      if leb i j && leb j (length xs) then some (take (j - i) (drop i xs)) else none

  -- The index expression `xs[i]`.
  unfoldable pub index : List A → ℤ → Option A
  index xs (pos i) = get_elem? xs i
  index xs (negsuc i) = none

  -- `n` rounds of the loop `for i := from; i < to; i++` that appends `xs[i]`.
  unfoldable pub collect : List A → ℤ → ℕ → Option (List A)
  unfolding index
  collect xs i zero = some []
  collect xs i (suc n) =
      let rest = collect xs (i +ℤ pos 1) n in
      elim (index xs i) [
        | none ↦ none
        | some x ↦ elim rest [ none ↦ none | some ys ↦ some (x ∷ ys) ]
      ]

-- The number of rounds of a loop from `from` to `to`.
abbrev pub rounds : ℤ → ℤ → ℕ
rounds from to = elim (to -ℤ from) [ pos n ↦ n | negsuc _ ↦ 0 ]

second_page :
    page_bounds (pos 2) (bytes "2") 5
    ≡ some (record { from = pos 2; to = pos 4; next_page_token = bytes "4" })
unfolding page_bounds itoa_ℤ itoa atoi ◌+ℤ◌
second_page = refl

collected : collect {A = ℕ} (7 ∷ 8 ∷ 9 ∷ []) (pos 1) 2 ≡ some (8 ∷ 9 ∷ [])
unfolding collect ◌+ℤ◌
collected = refl
