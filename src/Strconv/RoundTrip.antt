-- ===== src/Strconv/RoundTrip.antt =====
-- `Atoi` reads back what `Itoa` prints.
use mathlib.Core.WellFounded
use mathlib.Core.WellFounded.{Acc, Acc-prop}
use gcp_emulator_pool.Common.{
  ℕ, ◌+◌, ◌/◌, ◌%◌, ◌≤◌, ◌<◌, ◌≡◌, ◌≢◌, refl, some, [], ◌∷◌, arith, dec_lt, ite, dite, pos, Str,
}
use gcp_emulator_pool.Strconv.{
  max_int, lt_wf, tenth_lt, emit, digits, itoa, scan, unsigned, as_positive, atoi,
}

emit_step :
    (n : ℕ) (w : Acc ◌<◌ n) (w' : Acc ◌<◌ (n / 10)) (out : Str)
    → emit n w out ≡ ite (dec_lt 9 n) (emit (n / 10) w' ((b'0' + n % 10) ∷ out)) ((b'0' + n) ∷ out)
unfolding emit
emit_step n (Acc.intro _ smaller) w' out = λ i.
    dite (dec_lt 9 n)
      (λ h. emit (n / 10) (Acc-prop (smaller (n / 10) (tenth_lt n h)) w' i) ((b'0' + n % 10) ∷ out))
      (λ _. (b'0' + n) ∷ out)

digits_step :
    (n : ℕ) (out : Str)
    → digits n out ≡ ite (dec_lt 9 n) (digits (n / 10) ((b'0' + n % 10) ∷ out)) ((b'0' + n) ∷ out)
unfolding digits
digits_step n = emit_step n _ _

scan_last : (n : ℕ) (out : Str) → scan ((b'0' + n % 10) ∷ out) (n / 10) ≡ scan out n
unfolding scan
scan_last n out = ground arith

scan_first : (n : ℕ) (out : Str) → n ≤ 9 → scan ((b'0' + n) ∷ out) 0 ≡ scan out n
unfolding scan
scan_first n out h = ground arith

scan-digits : (n : ℕ) (out : Str) → scan (digits n out) 0 ≡ scan out n
scan-digits n =
    WellFounded.induction lt_wf {C = λ m. (out : Str) → scan (digits m out) 0 ≡ scan out m} n
      λ m ih out. grind (arith, digits_step m out, scan_last m out, scan_first m out, ih (m / 10))

-- The print begins with a digit.
StartsWithDigit : Str → Type 0
StartsWithDigit s = (c : ℕ) × (t : Str) × (s ≡ c ∷ t) × (b'0' ≤ c) × (c ≤ b'9')

digits-StartsWithDigit : (n : ℕ) (out : Str) → StartsWithDigit (digits n out)
unfolding StartsWithDigit
digits-StartsWithDigit n =
    WellFounded.induction lt_wf
      {C = λ m.
        (out : Str) → (c : ℕ) × (t : Str) × (digits m out ≡ c ∷ t) × (b'0' ≤ c) × (c ≤ b'9')}
      n
      λ m ih out. elim (dec_lt 9 m) [
        | yes p ↦
            let (c, t, e, lo, hi) = ih (m / 10) (tenth_lt m p) ((b'0' + m % 10) ∷ out) in
            (c, t, grind (arith, digits_step m out), lo, hi)
        | no p ↦ (b'0' + m, out, grind (arith, digits_step m out), omega arith, omega arith)
      ]

atoi_digit : (c : ℕ) (t : Str) → b'0' ≤ c → c ≤ b'9' → atoi (c ∷ t) ≡ as_positive (scan (c ∷ t) 0)
unfolding atoi unsigned
atoi_digit c t lo hi = ground arith

itoa-digits : (n : ℕ) → itoa n ≡ digits n []
unfolding itoa
itoa-digits n = refl

scan_nil : (n : ℕ) → n ≤ max_int → as_positive (scan [] n) ≡ some (pos n)
unfolding as_positive scan
scan_nil n h = ground arith

-- `Atoi` of the print of a number that fits an `int` is that number.
pub atoi-itoa : (n : ℕ) → n ≤ max_int → atoi (itoa n) ≡ some (pos n)
unfolding StartsWithDigit
atoi-itoa n h =
    let (c, t, e, lo, hi) = digits-StartsWithDigit n [] in
    rw (itoa-digits n, e, atoi_digit c t lo hi, ← e, scan-digits n []) (scan_nil n h)

pub itoa-cons : (n : ℕ) → (c : ℕ) × (t : Str) × (itoa n ≡ c ∷ t)
unfolding StartsWithDigit
itoa-cons n = let (c, t, e, lo, hi) = digits-StartsWithDigit n [] in (c, t, cc (itoa-digits n))

-- A print is not the empty string.
pub itoa-ne-nil : (n : ℕ) → itoa n ≢ []
unfolding StartsWithDigit
itoa-ne-nil n h = let (c, t, e, lo, hi) = digits-StartsWithDigit n [] in cc (itoa-digits n)

-- Different numbers have different prints, of whatever size.
pub itoa_inj : (m n : ℕ) → itoa m ≡ itoa n → m ≡ n
unfolding scan
itoa_inj m n e =
    let a : scan (itoa m) 0 ≡ some m = rw (itoa-digits m) (scan-digits m []) in
    let b : scan (itoa n) 0 ≡ some n = rw (itoa-digits n) (scan-digits n []) in cc
