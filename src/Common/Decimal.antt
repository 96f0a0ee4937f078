-- ===== src/Common/Decimal.antt =====
-- Package strconv: numbers in decimal.
use Prim.Native.Nat.{ℕ, zero, suc, ◌+◌, ◌-◌, ◌*◌, ◌/◌, ◌%◌, ◌^◌, ◌≤◌, ◌<◌}
use mathlib.Core.Path.{◌≡◌, refl}
use mathlib.Core.Logic.{◌≢◌}
use mathlib.Core.Bool.{◌&&◌}
use mathlib.Core.Option.{Option, none, some}
use mathlib.Core.List.{[], ◌∷◌}
use native.Mathlib.Omega.{arith}
use mksrv.Common.Tests.{leb, ◌==◌, if◌then◌else◌, Bool-cases}
use mathlib.Core.Logic.{inl, inr}
use mksrv.Common.Lists.{All}
use mksrv.Common.Texts.{Text}

-- A Go int.
pub data ℤ : Type 0 where
  pos : ℕ → ℤ
  negsuc : ℕ → ℤ

-- strconv.Itoa of a number that is not negative. A number has at most as many digits as its value
-- plus one, which is the fuel.
itoa_digits : ℕ → ℕ → Text → Text
itoa_digits zero n out = out
itoa_digits (suc fuel) n out =
    let out' = (b'0' + n % 10) ∷ out in
    let rest = itoa_digits fuel (n / 10) out' in if n / 10 == 0 then out' else rest

unfoldable pub itoa : ℕ → Text
unfolding itoa_digits
itoa n = itoa_digits (suc n) n []

-- The number that decimal digits spell behind `n`; `none` if a byte is no digit.
unfoldable pub scan_digits : Text → ℕ → Option ℕ
scan_digits [] n = some n
scan_digits (c ∷ s) n =
    if leb b'0' c && leb c b'9' then scan_digits s (n * 10 + (c - b'0')) else none

-- The magnitude behind the sign: at least one digit.
unfoldable pub magnitude : Text → Option ℕ
magnitude [] = none
magnitude (c ∷ s) = scan_digits (c ∷ s) 0

abbrev pub max_int64 : ℕ
max_int64 = 2 ^ 63 - 1

positive : Option ℕ → Option ℤ
positive none = none
positive (some n) = if leb n max_int64 then some (pos n) else none

negative : Option ℕ → Option ℤ
negative none = none
negative (some zero) = some (pos 0)
negative (some (suc n)) = if leb n max_int64 then some (negsuc n) else none

-- strconv.Atoi: an optional sign, digits, and a value that an int64 holds.
unfoldable pub atoi : Text → Option ℤ
unfolding magnitude scan_digits positive negative
atoi [] = none
atoi (c ∷ s) =
    if c == b'-'
    then negative (magnitude s)
    else if c == b'+'
    then positive (magnitude s)
    else positive (magnitude (c ∷ s))

abbrev pub IsDigit : ℕ → Type 0
IsDigit c = (b'0' ≤ c) × (c ≤ b'9')

scan_digits-itoa_digits :
    (fuel n : ℕ) (out : Text)
    → n < fuel
    → scan_digits (itoa_digits fuel n out) 0 ≡ scan_digits out n
unfolding itoa_digits scan_digits
scan_digits-itoa_digits zero n out h = absurd (omega arith)
scan_digits-itoa_digits (suc fuel) n out h =
    ground (arith, scan_digits-itoa_digits fuel (n / 10) ((b'0' + n % 10) ∷ out))

All-itoa_digits : (fuel n : ℕ) (out : Text) → All IsDigit out → All IsDigit (itoa_digits fuel n out)
unfolding itoa_digits
All-itoa_digits zero n out h = h
All-itoa_digits (suc fuel) n out h = elim (Bool-cases (n / 10 == 0)) [
  | inl e ↦ rw e ((omega arith, omega arith), h)
  | inr e ↦ rw e (All-itoa_digits fuel (n / 10) _ ((omega arith, omega arith), h))
]

itoa_digits-ne-nil : (fuel n : ℕ) (out : Text) → out ≢ [] → itoa_digits fuel n out ≢ []
unfolding itoa_digits
itoa_digits-ne-nil zero n out h = h
itoa_digits-ne-nil (suc fuel) n out h =
    ground (arith, itoa_digits-ne-nil fuel (n / 10) ((b'0' + n % 10) ∷ out))

-- A number is printed with digits alone.
pub All-itoa : (n : ℕ) → All IsDigit (itoa n)
unfolding itoa
All-itoa n = All-itoa_digits (suc n) n [] tt

pub itoa-ne-nil : (n : ℕ) → itoa n ≢ []
unfolding itoa
itoa-ne-nil n = ground (arith, itoa_digits-ne-nil n (n / 10) ((b'0' + n % 10) ∷ []))

scan_digits-itoa : (n : ℕ) → scan_digits (itoa n) 0 ≡ some n
unfolding itoa scan_digits
scan_digits-itoa n = scan_digits-itoa_digits (suc n) n [] (omega arith)

atoi_of_digits :
    (s : Text) (n : ℕ)
    → s ≢ []
    → All IsDigit s
    → scan_digits s 0 ≡ some n
    → n ≤ max_int64
    → atoi s ≡ some (pos n)
unfolding atoi
atoi_of_digits [] n some_digit digits e h = absurd (some_digit refl)
atoi_of_digits (c ∷ s) n some_digit (digit, digits) e h = ground arith

-- strconv.Atoi reads back what strconv.Itoa prints.
pub atoi-itoa : (n : ℕ) → n ≤ max_int64 → atoi (itoa n) ≡ some (pos n)
atoi-itoa n h = atoi_of_digits (itoa n) n (itoa-ne-nil n) (All-itoa n) (scan_digits-itoa n) h
