-- ===== src/Payments/Reversal/Splits.antt =====
-- The VAT composition of a reversal.
mod Tests
use openeos_api.Base.{
  ◌≡◌, refl, ◌∙◌, ap, ◌≢◌, ℤ, pos, neg, Bool, true, false, Bool-cases, inl, inr, is_empty, All,
  List, map, if◌then◌else◌,
}
use openeos_api.Entities.{Order, Payment, TseVatSplit}
use openeos_api.VatSplit.{
  gross_sum, splits_from_items, split_item, allocate_to_amount, negate_splits,
}
use openeos_api.VatSplit.Totals.{negate_splits_lem}
use openeos_api.VatSplit.Exact.{IsNonneg, gross_sum-allocate_to_amount}
use openeos_api.Payments.Reversal.{stored_splits, reversal_splits}

-- The composition of a reversal adds up to the negated amount of its payment: if the composition that
-- was signed with the payment is stored and adds up to its amount, or if none is stored and the items
-- of the order have no negative and not only vanishing splits.
pub gross_sum-reversal_splits :
    (o : Order) (p : Payment)
    → (is_empty (stored_splits p.tse_data) ≡ false
        → gross_sum (stored_splits p.tse_data) ≡ p.amount)
    → (is_empty (stored_splits p.tse_data) ≡ true
        → All IsNonneg (splits_from_items (map split_item o.items))
          × (gross_sum (splits_from_items (map split_item o.items)) ≢ pos 0))
    → gross_sum (reversal_splits o p) ≡ neg p.amount
unfolding reversal_splits
gross_sum-reversal_splits o p signed unsigned =
    elim (Bool-cases (is_empty (stored_splits p.tse_data))) [
      | inl e ↦
          let (nonneg, some_left) = unsigned e in
          rw e (gross_sum-allocate_to_amount _ (neg p.amount) nonneg some_left)
      | inr e ↦ rw e ((negate_splits_lem (stored_splits p.tse_data)).1 ∙ ap neg (signed e))
    ]
