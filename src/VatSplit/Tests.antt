-- ===== src/VatSplit/Tests.antt =====
-- Runs of vat-split.ts, and the theorems at concrete splits.
use openeos_api.Base.{◌≡◌, refl, pos, negsuc, neg, ◌+ℤ◌, List, [], ◌∷◌, arith}
use openeos_api.Entities.{TseVatSplit}
use openeos_api.VatSplit.{
  RateTotal, split, gross_sum, allocate_to_amount, scale, share, by_remainder, insert_place,
  place_at, bump, distribute, group_by_rate, totals, add_row, sort_desc, insert_desc,
}
use openeos_api.VatSplit.Exact.{gross_sum-allocate_to_amount}
use openeos_api.VatSplit.Totals.{gross_at, gross_at-group_by_rate}

abbrev mixed : List TseVatSplit
mixed = split 1900 (pos 1000) ∷ split 700 (pos 500) ∷ split 0 (pos 500) ∷ []

abbrev rows : List RateTotal
rows = (700, pos 300) ∷ (1900, pos 250) ∷ (700, pos 120) ∷ []

-- 19.99 of 20.00: the residual cents go to the largest remainders.
scaled :
    allocate_to_amount mixed (negsuc 1998)
    ≡ split 1900 (negsuc 998) ∷ split 700 (negsuc 499) ∷ split 0 (negsuc 499) ∷ []
unfolding allocate_to_amount scale share by_remainder insert_place place_at bump distribute neg ◌+ℤ◌
scaled = refl

grouped : group_by_rate rows ≡ split 1900 (pos 250) ∷ split 700 (pos 420) ∷ []
unfolding group_by_rate totals add_row sort_desc insert_desc ◌+ℤ◌
grouped = refl

gross_sum-allocate_to_amount_example :
    gross_sum (allocate_to_amount mixed (negsuc 1998)) ≡ negsuc 1998
unfolding ◌+ℤ◌
gross_sum-allocate_to_amount_example =
    gross_sum-allocate_to_amount mixed (negsuc 1998) (omega arith) (λ e. cc)

gross_at-group_by_rate_example : gross_at 700 (group_by_rate rows) ≡ pos 420
unfolding ◌+ℤ◌
gross_at-group_by_rate_example = gross_at-group_by_rate 700 rows
