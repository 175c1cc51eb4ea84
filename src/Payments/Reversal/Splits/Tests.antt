-- ===== src/Payments/Reversal/Splits/Tests.antt =====
-- The reversal of the sample payment, which has no stored composition.
use openeos_api.Base.{◌≡◌, neg, pos, arith, ◌+ℤ◌, ◌*ℤ◌}
use openeos_api.Samples.{paid_order, payment}
use openeos_api.VatSplit.{
  gross_sum, group_by_rate, totals, add_row, sort_desc, insert_desc, splits_from_items,
}
use openeos_api.Payments.Reversal.{reversal_splits}
use openeos_api.Payments.Reversal.Splits.{gross_sum-reversal_splits}

gross_sum-reversal_splits_example : gross_sum (reversal_splits paid_order payment) ≡ neg (pos 600)
unfolding splits_from_items group_by_rate totals add_row sort_desc insert_desc ◌+ℤ◌ ◌*ℤ◌
gross_sum-reversal_splits_example =
    gross_sum-reversal_splits paid_order payment (λ e. cc) (λ e. ((omega arith, tt), λ z. cc))
