-- ===== src/Testutil/Paging/Walk.antt =====
-- A client that follows the page tokens sees the whole list, each item once and in order; and the
-- two ways of cutting out a page agree.
use native.Mathlib.Numerals.{add-one}
use gcp_emulator_pool.Common.{
  ℕ, zero, suc, ◌+◌, ◌-◌, ◌≤◌, ◌<◌, ◌≡◌, refl, sym, ap, ◌∙◌, Option, none, some, List, [], ◌∷◌,
  ◌++◌, inl, inr, arith, ℤ, pos, ◌+ℤ◌, ◌-ℤ◌, Str, length, get_elem?, take, drop, take_all,
  take-append-drop, drop-drop, length-drop, Bool-cases, ltb,
}
use gcp_emulator_pool.Strconv.{itoa, max_int}
use gcp_emulator_pool.Strconv.RoundTrip.{itoa-cons, atoi-itoa}
use gcp_emulator_pool.Testutil.Paging.{page_bounds, resume, cut, itoa_ℤ, slice, collect, rounds}

rounds_pos : (i j : ℕ) → i ≤ j → rounds (pos i) (pos j) ≡ j - i
unfolding ◌-ℤ◌
rounds_pos i j h = ground arith

cut_more :
    (p i len : ℕ)
    → 0 < p
    → i + p < len
    → cut (pos p) (pos i) len
      ≡ record { from = pos i; to = pos (i + p); next_page_token = itoa (i + p) }
unfolding cut itoa_ℤ ◌+ℤ◌
cut_more p i len h k = ground arith

cut_last :
    (p i len : ℕ)
    → len ≤ i + p
    → cut (pos p) (pos i) len ≡ record { from = pos i; to = pos len; next_page_token = [] }
unfolding cut ◌+ℤ◌
cut_last p i len h = ground arith

-- The token of the next page is read back as its start.
page_bounds-itoa :
    (p i len : ℕ)
    → i < len
    → len ≤ max_int
    → page_bounds (pos p) (itoa i) len ≡ some (cut (pos p) (pos i) len)
unfolding page_bounds resume
page_bounds-itoa p i len h fits =
    let (c, t, e) = itoa-cons i in
    rw e (rw (← e) (rw (atoi-itoa i (omega arith), resume) (ground arith)))

module _ {A : Type 0} where
  pub get_elem?-drop :
      (i : ℕ) (xs : List A)
      → i < length xs
      → (x : A) × (get_elem? xs i ≡ some x) × (drop i xs ≡ x ∷ drop (suc i) xs)
  get_elem?-drop i [] h = elim h [ ]
  get_elem?-drop zero (x ∷ xs) h = (x, refl, refl)
  get_elem?-drop (suc i) (x ∷ xs) h = get_elem?-drop i xs (omega arith)

  collect_rounds :
      (xs : List A) (i n : ℕ) → i + n ≤ length xs → collect xs (pos i) n ≡ some (take n (drop i xs))
  unfolding collect ◌+ℤ◌
  collect_rounds xs i zero h = refl
  collect_rounds xs i (suc n) h =
      let (x, e, d) = get_elem?-drop i xs (omega arith) in
      rw d (
        ground
          (arith, e, collect_rounds xs (i + 1) n (omega arith), ap (λ k. drop k xs) (add-one i)))

  pub slice_pos :
      (xs : List A) (i j : ℕ)
      → i ≤ j
      → j ≤ length xs
      → slice xs (pos i) (pos j) ≡ some (take (j - i) (drop i xs))
  unfolding slice
  slice_pos xs i j h k = ground arith

  -- The loop of ListTopics and ListSubscriptions reads the page that a slice expression would cut.
  pub collect-slice :
      (xs : List A) (i j : ℕ)
      → i ≤ j
      → j ≤ length xs
      → collect xs (pos i) (rounds (pos i) (pos j)) ≡ slice xs (pos i) (pos j)
  collect-slice xs i j h k =
      rw (rounds_pos i j h)
        (rw (collect_rounds xs i (j - i) (omega arith)) (sym (slice_pos xs i j h k)))

  -- The page of `xs` that PageBounds selects; `none` is its error or the panic of the slice.
  unfoldable pub page : ℤ → Str → List A → Option (List A × Str)
  page page_size token xs = elim (page_bounds page_size token (length xs)) [
    | none ↦ none
    | some b ↦ elim (slice xs b.from b.to) [ none ↦ none | some ys ↦ some (ys, b.next_page_token) ]
  ]

  -- A client that asks for page after page, until a page comes with no token. `none` if a page
  -- fails, or after as many pages as the fuel says.
  unfoldable pub walk : ℕ → ℤ → Str → List A → Option (List A)
  walk zero page_size token xs = none
  walk (suc fuel) page_size token xs = elim (page page_size token xs) [
    | none ↦ none
    | some (ys, []) ↦ some ys
    | some (ys, c ∷ next) ↦ elim (walk fuel page_size (c ∷ next) xs) [
      | none ↦ none
      | some zs ↦ some (ys ++ zs)
    ]
  ]

  page_more :
      (p i : ℕ) (token : Str) (xs : List A)
      → 0 < p
      → i + p < length xs
      → page_bounds (pos p) token (length xs) ≡ some (cut (pos p) (pos i) (length xs))
      → page (pos p) token xs ≡ some (take p (drop i xs), itoa (i + p))
  unfolding page
  page_more p i token xs h k e =
      rw (e ∙ ap some (cut_more p i (length xs) h k), page)
        (rw (slice_pos xs i (i + p) (omega arith) (omega arith), page)
          (ap (λ n. some (take n (drop i xs), itoa (i + p))) (omega arith)))

  page_last :
      (p i : ℕ) (token : Str) (xs : List A)
      → length xs ≤ i + p
      → i ≤ length xs
      → page_bounds (pos p) token (length xs) ≡ some (cut (pos p) (pos i) (length xs))
      → page (pos p) token xs ≡ some (drop i xs, [])
  unfolding page
  page_last p i token xs h k e =
      rw (e ∙ ap some (cut_last p i (length xs) h), page)
        (rw (slice_pos xs i (length xs) k (omega arith), page)
          (ap (λ ys. some (ys, [])) (take_all _ (drop i xs) (omega (arith, length-drop i xs)))))

  -- The pages from the item `i` on.
  walk_rest :
      (fuel p i : ℕ) (token : Str) (xs : List A)
      → 0 < p
      → length xs ≤ max_int
      → i ≤ length xs
      → length xs - i < fuel
      → page_bounds (pos p) token (length xs) ≡ some (cut (pos p) (pos i) (length xs))
      → walk fuel (pos p) token xs ≡ some (drop i xs)
  unfolding walk
  walk_rest zero p i token xs hp fits hi hf e = elim hf [ ]
  walk_rest (suc fuel) p i token xs hp fits hi hf e = elim (Bool-cases (ltb (i + p) (length xs))) [
    | inl more ↦
        let (c, t, d) = itoa-cons (i + p) in
        let lt : i + p < length xs = ground arith in
        let ih : walk fuel (pos p) (itoa (i + p)) xs ≡ some (drop (i + p) xs) =
          walk_rest fuel p (i + p) (itoa (i + p)) xs hp fits (omega arith) (omega arith)
            (page_bounds-itoa p (i + p) (length xs) lt fits) in
        let rest : walk fuel (pos p) (c ∷ t) xs ≡ some (drop (i + p) xs) = rw d at ih in
        rw (page_more p i token xs hp lt e, walk)
          (ground (arith, d, rest, take-append-drop p (drop i xs), drop-drop p i xs))
    | inr over ↦ rw (page_last p i token xs (ground arith) hi e, walk)
  ]

  -- With a positive page size, a client that begins with no token and follows the tokens gets the
  -- whole list, each item once and in order, within one more page than the list has items.
  pub walk_all :
      (p : ℕ) (xs : List A)
      → 0 < p
      → length xs ≤ max_int
      → walk (suc (length xs)) (pos p) [] xs ≡ some xs
  unfolding page_bounds
  walk_all p xs hp fits =
      walk_rest (suc (length xs)) p 0 [] xs hp fits (omega arith) (omega arith) refl
