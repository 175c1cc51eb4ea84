-- ===== src/Payments/Doubles.antt =====
-- The JavaScript numbers in which src/modules/payments/payments.service.ts adds, subtracts and compares
-- amounts. A number is an integer here, in units of 2^-59: the amounts are whole cents, so the smallest
-- positive one is 0.01, which is above 2^-7 and has 53 significant bits in that unit, as have all the
-- larger ones; sums, differences and multiples of such numbers are again whole units.
mod Tests
use openeos_api.Base.{
  ℕ, zero, suc, ◌+◌, ◌*◌, ◌/◌, ◌%◌, ltb, ℤ, pos, neg, ◌+ℤ◌, ◌-ℤ◌, ◌*ℤ◌, abs_ℕ, ltb_ℤ, if◌then◌else◌,
}

-- `n / d` to the nearest whole number, a half to the even one.
unfoldable pub half_even : ℕ → ℕ → ℕ
half_even n d =
    if ltb (2 * (n % d)) d
    then n / d
    else if ltb d (2 * (n % d))
    then suc (n / d)
    else n / d + n / d % 2

-- The distance of the numbers around `n / d`: the least power of two in whose multiples it is below
-- 2^53. The fuel bounds the exponent.
unfoldable pub spacing : ℕ → ℕ → ℕ → ℕ
spacing zero n d = 1
spacing (suc fuel) n d =
    let wider = spacing fuel n (2 * d) in if ltb n (9007199254740992 * d) then 1 else 2 * wider

unfoldable pub nearest : ℕ → ℕ → ℕ
unfolding half_even spacing
nearest n d = spacing 64 n d * half_even n (d * spacing 64 n d)

abbrev pub signed_as : ℤ → ℕ → ℤ
signed_as a n = if ltb_ℤ a (pos 0) then neg (pos n) else pos n

-- The number that a sum or a difference of two numbers is rounded to.
unfoldable pub rounded : ℤ → ℤ
unfolding nearest
rounded a = signed_as a (nearest (abs_ℕ a) 1)

-- `Number(amount)` of a decimal column, or an amount of a request: the number nearest to the cents.
unfoldable pub number_of : ℤ → ℤ
unfolding nearest
number_of cents = signed_as cents (nearest (abs_ℕ cents * 576460752303423488) 100)

abbrev pub add : ℤ → ℤ → ℤ
add a b = rounded (a +ℤ b)

abbrev pub subtract : ℤ → ℤ → ℤ
subtract a b = rounded (a -ℤ b)

abbrev pub times : ℤ → ℕ → ℤ
times a q = rounded (a *ℤ pos q)
