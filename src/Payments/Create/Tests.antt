-- ===== src/Payments/Create/Tests.antt =====
-- A payment on the sample order.
use openeos_api.Base.{get, ◌≡◌, refl, ◌⊎◌, true, false, pos, ◌-ℤ◌, ◌+ℤ◌}
use openeos_api.Entities.{Order, Payment, PaymentStatus}
use openeos_api.Store.{Store, ok, err, bad_request, validation_error}
use openeos_api.Samples.{signing, user_of, unpaid_store, order_with, head_of, pay_dto}
use openeos_api.Orders.Rows.{organization_order}
use openeos_api.Payments.Doubles.{number_of, rounded}
use openeos_api.Payments.Create.{create, exceeds_remaining, is_fully_paid, CreatePaymentDto}
use openeos_api.Payments.Create.Completes.{create-then_complete}
use openeos_api.Orders.Status.{complete_order, is_completed}
use openeos_api.Payments.Create.Laws.{is_refused}
use openeos_api.Payments.Create.Outcome.{IsTaken, create_lem}

abbrev o : Order
o = order_with PaymentStatus.unpaid 0

create_lem_example :
    ((is_refused pay_dto o ≡ true)
      × (create signing 1 pay_dto (user_of 9) unpaid_store
          ≡ (err (bad_request validation_error), unpaid_store)))
    ⊎ ((is_refused pay_dto o ≡ false)
        × (t : Store) × (p : Payment) × (create signing 1 pay_dto (user_of 9) unpaid_store
            ≡ (ok p, t))
        × IsTaken 1 pay_dto o unpaid_store p t)
unfolding organization_order get
create_lem_example = create_lem signing 1 pay_dto (user_of 9) unpaid_store head_of o refl refl

-- All of the 6.00.
abbrev pay_all : CreatePaymentDto
pay_all = record pay_dto { amount = pos 600 }

fits : exceeds_remaining pay_all o ≡ false
unfolding number_of rounded ◌-ℤ◌
fits = refl

reaches : is_fully_paid pay_all o ≡ true
unfolding number_of rounded ◌+ℤ◌
reaches = refl

create-then_complete_example :
    (p : Payment) × (t : Store) × (q : Order) × (u : Store) × (create signing 1 pay_all
        (user_of 9)
        unpaid_store
      ≡ (ok p, t))
    × (complete_order signing 1 7 (user_of 9) t ≡ (ok q, u))
    × (is_completed q.status ≡ true)
unfolding organization_order get
create-then_complete_example =
    create-then_complete signing signing 1 pay_all (user_of 9) unpaid_store head_of o refl refl refl
      refl refl fits reaches
