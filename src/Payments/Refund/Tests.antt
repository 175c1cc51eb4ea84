-- ===== src/Payments/Refund/Tests.antt =====
-- The refund of the sample payment.
use openeos_api.Base.{get, ◌≡◌, refl, ◌⊎◌, true, false, arith}
use openeos_api.Store.{Store, ok, err, bad_request, validation_error}
use openeos_api.Samples.{signing, user_of, paid_store, paid_order, head_of, payment}
use openeos_api.Orders.Rows.{organization_order}
use openeos_api.Payments.Reversal.{is_captured}
use openeos_api.Payments.Refund.{refund, refunded_payment}
use openeos_api.Payments.Refund.Laws.{IsRefunded, refund_lem}

refund_lem_example :
    ((is_captured payment.status ≡ false)
      × (refund signing 1 8 (user_of 9) paid_store
          ≡ (err (bad_request validation_error), paid_store)))
    ⊎ ((is_captured payment.status ≡ true)
        × (t : Store) × (refund signing 1 8 (user_of 9) paid_store
            ≡ (ok (refunded_payment payment), t))
        × IsRefunded 1 8 payment paid_order t)
unfolding organization_order get
refund_lem_example =
    refund_lem signing 1 8 (user_of 9) paid_store head_of payment paid_order refl refl refl
      (omega arith, tt)
