-- ===== src/Orders/Ledger/Tests.antt =====
-- The stock ledger over a run of the orders service.
use openeos_api.Base.{ℕ, ℤ, pos, List, [], ◌∷◌, none}
use openeos_api.Samples.{signing, user_of, two_more}
use openeos_api.Orders.Calls.{Request, OrderCall}

abbrev opening : ℕ → ℤ
opening pid = pos 10

abbrev by_admin : OrderCall → Request
by_admin c = record { env = signing; organization_id = 1; user = user_of 9; call = c }

abbrev requests : List Request
requests =
    by_admin (OrderCall.add_item_call 7 two_more)
    ∷ by_admin (OrderCall.delivered_call 7 20)
    ∷ by_admin (OrderCall.cancel_call 7 none)
    ∷ []
