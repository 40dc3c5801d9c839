-- ===== src/Testutil/Paging/Pages.antt =====
-- What `PageBounds` returns.
use gcp_emulator_pool.Common.{
  ℕ, ◌+◌, ◌≤◌, ◌≡◌, ◌≢◌, ◌↔◌, refl, Option, none, some, List, [], ◌∷◌, inl, inr, arith, ℤ, pos,
  negsuc, ◌+ℤ◌, ◌≤ℤ◌, ◌<ℤ◌, +ℤ_parts, Str, length, Bool-cases, ltb,
}
use gcp_emulator_pool.Strconv.{atoi}
use gcp_emulator_pool.Strconv.RoundTrip.{itoa-ne-nil}
use gcp_emulator_pool.Testutil.Paging.{Bounds, page_bounds, resume, cut, itoa_ℤ, slice}

itoa_ℤ-ne-nil : (i : ℤ) → itoa_ℤ i ≢ []
unfolding itoa_ℤ
itoa_ℤ-ne-nil (pos n) h = itoa-ne-nil n h
itoa_ℤ-ne-nil (negsuc n) h = cc

-- The bounds of a page that begins at `from`: within the list, no longer than a positive page size,
-- and with a token exactly if something is left.
pub record IsPage (page_size : ℤ) (len : ℕ) (b : Bounds) : Type 0 where
  pub starts : pos 0 ≤ℤ b.from
  pub ordered : b.from ≤ℤ b.to
  pub ends : b.to ≤ℤ pos len
  pub fits : pos 0 <ℤ page_size → b.to ≤ℤ b.from +ℤ page_size
  pub last : (b.next_page_token ≡ []) ↔ (b.to ≡ pos len)
  pub next : b.next_page_token ≢ [] → b.next_page_token ≡ itoa_ℤ b.to

cut-IsPage :
    (page_size : ℤ) (i len : ℕ) → i ≤ len → IsPage page_size len (cut page_size (pos i) len)
unfolding cut ◌+ℤ◌
cut-IsPage (pos p) i len h = ground (arith, itoa_ℤ-ne-nil (pos (i + p)))
cut-IsPage (negsuc p) i len h = ground arith

resume-IsPage :
    (page_size : ℤ) (i len : ℕ)
    → (b : Bounds) × (resume page_size (some (pos i)) len ≡ some b) × IsPage page_size len b
unfolding resume
resume-IsPage page_size i len = elim (Bool-cases (ltb i len)) [
  | inl more ↦ (cut page_size (pos i) len, ground arith, cut-IsPage page_size i len (ground arith))
  | inr over ↦ (
    record { from = pos len; to = pos len; next_page_token = [] },
    ground arith,
    ground (arith, +ℤ_parts (pos len) page_size),
  )
]

-- A token that the server may be given: none, or the print of a number that is not negative.
abbrev pub IsToken : Str → Type 0
IsToken [] = Unit
IsToken (c ∷ token) = (i : ℕ) × (atoi (c ∷ token) ≡ some (pos i))

-- With an empty token, or one that parses to a number that is not negative, PageBounds succeeds,
-- and its bounds lie in order within the list, span no more than a positive page size, and come
-- with the empty token exactly if they reach the end of the list; any other token is the print of
-- the end of the page.
pub page_bounds-IsPage :
    (page_size : ℤ) (token : Str) (len : ℕ)
    → IsToken token
    → (b : Bounds) × (page_bounds page_size token len ≡ some b) × IsPage page_size len b
unfolding page_bounds
page_bounds-IsPage page_size [] len h =
    (cut page_size (pos 0) len, refl, cut-IsPage page_size 0 len (omega arith))
page_bounds-IsPage page_size (c ∷ token) len (i, e) =
    rw (e, page_bounds) (resume-IsPage page_size i len)

resume-eq-none : (page_size : ℤ) (o : Option ℤ) (len : ℕ) → resume page_size o len ≡ none → o ≡ none
unfolding resume
resume-eq-none page_size none len h = refl
resume-eq-none page_size (some from) len h = ground arith

resume_negative :
    (page_size : ℤ) (n len : ℕ)
    → resume page_size (some (negsuc n)) len ≡ some (cut page_size (negsuc n) len)
unfolding resume
resume_negative page_size n len = ground arith

cut_from : (page_size from : ℤ) (len : ℕ) → (cut page_size from len).from ≡ from
unfolding cut
cut_from page_size from len = ground arith

slice_negative : (xs : List Str) (from to : ℤ) (n : ℕ) → from ≡ negsuc n → slice xs from to ≡ none
unfolding slice
slice_negative xs (pos i) to n h = cc
slice_negative xs (negsuc i) to n h = refl

-- PageBounds fails exactly on a token that is not empty and does not parse as a number.
pub page_bounds-eq-none_iff :
    (page_size : ℤ) (token : Str) (len : ℕ)
    → (page_bounds page_size token len ≡ none) ↔ ((token ≢ []) × (atoi token ≡ none))
unfolding page_bounds resume
page_bounds-eq-none_iff page_size [] len = ((λ h. cc), λ h. absurd (h.0 refl))
page_bounds-eq-none_iff page_size (c ∷ token) len =
    (λ h. ((λ e. cc), resume-eq-none page_size (atoi (c ∷ token)) len h), λ h. rw (h.1, resume))

-- A token that prints a negative number is let through: PageBounds returns a negative start, at
-- which the slice expression of the caller panics.
pub page_bounds_negative :
    (page_size : ℤ) (token : Str) (xs : List Str) (n : ℕ)
    → atoi token ≡ some (negsuc n)
    → (b : Bounds) × (page_bounds page_size token (length xs) ≡ some b)
      × (b.from ≡ negsuc n)
      × (slice xs b.from b.to ≡ none)
unfolding page_bounds atoi
page_bounds_negative page_size [] xs n h = absurd (cc)
page_bounds_negative page_size (c ∷ token) xs n h =
    let b = cut page_size (negsuc n) (length xs) in
    let e : b.from ≡ negsuc n = cut_from page_size (negsuc n) (length xs) in
    (b, rw h (resume_negative page_size n (length xs)), e, slice_negative xs b.from b.to n e)
