-- ===== src/Strconv.antt =====
-- The functions `Atoi` and `Itoa` of Go's strconv, as gcpapi/testutil/server.go and
-- gcpapi/pubsub/pstest/fake.go use them. An `int` has 64 bits.
pub mod RoundTrip
use mathlib.Core.WellFounded.{Acc, WellFounded}
use gcp_emulator_pool.Common.{
  ℕ, zero, suc, ◌+◌, ◌-◌, ◌*◌, ◌/◌, ◌%◌, ◌^◌, ◌<◌, ◌≡◌, refl, ◌||◌, Option, none, some, [], ◌∷◌,
  arith, dec_lt, dite, ltb, ◌==◌, if◌then◌else◌, ℤ, pos, negsuc, sub_ℕ, Str, bytes,
}

abbrev pub max_int : ℕ
max_int = 2 ^ 63 - 1

Acc-below : (k n : ℕ) → n < k → Acc ◌<◌ n
Acc-below zero n h = elim h [ ]
Acc-below (suc k) n h = Acc.intro n (λ m hm. Acc-below k m (omega arith))

unfoldable pub lt_wf : WellFounded ◌<◌
unfolding Acc-below
lt_wf = record { apply = λ n. Acc-below (suc n) n (omega arith) }

pub tenth_lt : (n : ℕ) → 9 < n → n / 10 < n
tenth_lt n h = omega arith

-- The digits of `n`, in front of `out`.
emit : (n : ℕ) → Acc ◌<◌ n → Str → Str
emit n (Acc.intro _ smaller) out =
    dite (dec_lt 9 n) (λ h. emit (n / 10) (smaller (n / 10) (tenth_lt n h)) ((b'0' + n % 10) ∷ out))
      (λ _. (b'0' + n) ∷ out)

digits : ℕ → Str → Str
digits n out = emit n (lt_wf.apply n) out

-- `strconv.Itoa` of a number that is not negative, and `fmt.Sprintf("%d", n)`.
unfoldable pub itoa : ℕ → Str
unfolding digits emit lt_wf dec_lt
itoa n = digits n []

-- The value of a run of digits, or `none` at any other byte.
scan : Str → ℕ → Option ℕ
scan [] n = some n
scan (c ∷ s) n =
    let rest = scan s (n * 10 + (c - b'0')) in if ltb c b'0' || ltb b'9' c then none else rest

-- At least one digit.
unsigned : Str → Option ℕ
unfolding scan
unsigned [] = none
unsigned (c ∷ s) = scan (c ∷ s) 0

-- The range check of `Atoi`: -2^63 to 2^63 - 1.
as_positive : Option ℕ → Option ℤ
as_positive none = none
as_positive (some n) = if ltb max_int n then none else some (pos n)

as_negative : Option ℕ → Option ℤ
as_negative none = none
as_negative (some n) = if ltb (max_int + 1) n then none else some (sub_ℕ 0 n)

-- `strconv.Atoi`; `none` stands for its error.
unfoldable pub atoi : Str → Option ℤ
unfolding unsigned as_positive as_negative
atoi [] = none
atoi (c ∷ s) =
    if c == b'-'
    then as_negative (unsigned s)
    else if c == b'+'
    then as_positive (unsigned s)
    else as_positive (unsigned (c ∷ s))

itoa_runs : itoa 1203 ≡ bytes "1203"
unfolding itoa
itoa_runs = refl

itoa_zero : itoa 0 ≡ bytes "0"
unfolding itoa
itoa_zero = refl

atoi_negative : atoi (bytes "-5") ≡ some (negsuc 4)
unfolding atoi
atoi_negative = refl

atoi_refuses : (atoi (bytes "5x") ≡ none) × (atoi (bytes "9223372036854775808") ≡ none)
unfolding atoi
atoi_refuses = (refl, refl)
