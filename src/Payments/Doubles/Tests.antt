-- ===== src/Payments/Doubles/Tests.antt =====
-- Amounts for which the comparison of numbers is not the comparison of cents.
use openeos_api.Base.{◌≡◌, refl, pos, ◌-ℤ◌, ◌+ℤ◌, ltb_ℤ, true}
use openeos_api.Payments.Doubles.{number_of, rounded, add, subtract}

-- 2.30 less 0.50 is below 1.80.
rest_too_small :
    ltb_ℤ (subtract (number_of (pos 230)) (number_of (pos 50))) (number_of (pos 180)) ≡ true
unfolding number_of rounded ◌-ℤ◌
rest_too_small = refl

-- 0.70 and 0.10 are below 0.80.
sum_too_small : ltb_ℤ (add (number_of (pos 70)) (number_of (pos 10))) (number_of (pos 80)) ≡ true
unfolding number_of rounded ◌+ℤ◌
sum_too_small = refl

-- 6.00 less 2.50 is 3.50.
exact_rest : subtract (number_of (pos 600)) (number_of (pos 250)) ≡ number_of (pos 350)
unfolding number_of rounded ◌-ℤ◌
exact_rest = refl
