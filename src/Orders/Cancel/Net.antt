-- ===== src/Orders/Cancel/Net.antt =====
-- What cancelOrder of src/modules/orders/orders.service.ts leaves behind.
use openeos_api.Base.{ℕ, ◌≡◌, ap, ℤ, pos, ◌+ℤ◌, int_laws, pos_part, neg_part, some}
use openeos_api.Entities.{Order}
use openeos_api.Store.{Store}
use openeos_api.Access.{membership}
use openeos_api.Payments.Reversal.{captured_payments}
use openeos_api.Payments.Reversal.Run.{Reversed}
use openeos_api.Payments.Net.{net_captured}
use openeos_api.Orders.Rows.{organization_order}

-- The order is found as it was saved, by any reader of the organization.
pub record IsCancelledTo (org oid : ℕ) (o : Order) (t : Store) : Type 0 where
  pub order_eq : organization_order org oid t ≡ some o
  pub net_zero : net_captured oid t.payments ≡ pos 0

nothing_left : (a b : ℤ) → a +ℤ b ≡ b → a ≡ pos 0
nothing_left a b h = let h1 = ap pos_part h in let h2 = ap neg_part h in omega (int_laws, h1, h2)

pub net_zero_of :
    (oid : ℕ) (s t : Store)
    → Reversed oid (captured_payments oid s.payments) s t
    → net_captured oid t.payments ≡ pos 0
unfolding net_captured
net_zero_of oid s t r = nothing_left _ _ r.net_eq

pub order_in :
    (org oid : ℕ) (s t : Store)
    → t.orders ≡ s.orders
    → organization_order org oid t ≡ organization_order org oid s
unfolding organization_order
order_in org oid s t e = rw e

pub member_in :
    (org uid : ℕ) (s t : Store)
    → t.members ≡ s.members
    → membership org uid t ≡ membership org uid s
member_in org uid s t e = rw e
