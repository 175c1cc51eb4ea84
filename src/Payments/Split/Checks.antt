-- ===== src/Payments/Split/Checks.antt =====
-- The checks of createSplitPayment of src/modules/payments/payments.service.ts.
mod Tests
use openeos_api.Base.{
  ℕ, ◌+◌, ◌≤◌, ◌≡◌, refl, ltb, Bool, true, false, Option, none, some, List, [], ◌∷◌, Option-cases,
  Bool-cases, inl, inr, ◌⊎◌, All, arith,
}
use openeos_api.Entities.{Order, OrderItem}
use openeos_api.Store.{
  Store, M, Exception, not_found, not_found_code, bad_request, validation_error, ok, err, ◌>>=◌,
  ◌>>◌,
}
use openeos_api.Orders.Rows.{item_of}
use openeos_api.Payments.Split.{SplitPaymentItemDto, items_to_update}

-- A line that can be paid: it is the order's line of that id, and enough of it is unpaid.
abbrev pub Payable : Order → SplitPaymentItemDto → OrderItem → Type 0
Payable o d i = (item_of d.order_item_id o ≡ some i) × (i.paid_quantity + d.quantity ≤ i.quantity)

-- The rows belong to the entries of the request, one to one.
abbrev pub Matches : Order → List SplitPaymentItemDto → List (OrderItem × ℕ) → Type 0
Matches o [] [] = Unit
Matches o [] (r ∷ rows) = ⊥
Matches o (d ∷ ds) [] = ⊥
Matches o (d ∷ ds) ((i, q) ∷ rows) = (q ≡ d.quantity) × Payable o d i × Matches o ds rows

-- The loop that validates the items writes nothing. It raises, or every entry of the request names a
-- line of the order of which at least that quantity is unpaid, taken alone, and it returns these lines
-- with their quantities.
pub items_to_update_lem :
    (o : Order) (ds : List SplitPaymentItemDto) (s : Store)
    → ((e : Exception) × (items_to_update o ds s ≡ (err e, s)))
      ⊎ ((rows : List (OrderItem × ℕ)) × (items_to_update o ds s ≡ (ok rows, s))
          × Matches o ds rows)
unfolding items_to_update
items_to_update_lem o [] s = inr ([], refl, tt)
items_to_update_lem o (d ∷ ds) s = elim (Option-cases (item_of d.order_item_id o)) [
  | inl n ↦ inl (not_found not_found_code, rw n)
  | inr (i, n) ↦ elim (Bool-cases (ltb i.quantity (i.paid_quantity + d.quantity))) [
    | inl a ↦ inl (bad_request validation_error, rw (n, a))
    | inr a ↦ elim (items_to_update_lem o ds s) [
      | inl (e, h) ↦ inl (e, rw (n, a, h))
      | inr (rows, h, ms) ↦
          inr ((i, d.quantity) ∷ rows, rw (n, a, h), (refl, (n, not_ltb _ _ a), ms))
    ]
  ]
]
  where
    not_ltb : (x y : ℕ) → ltb x y ≡ false → y ≤ x
    not_ltb x y f = ground arith
