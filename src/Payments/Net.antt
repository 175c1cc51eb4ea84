-- ===== src/Payments/Net.antt =====
-- The captured payments of an order after their reversal.
use openeos_api.Base.{
  ℕ, suc, ◌<◌, ◌≡◌, refl, ℤ, pos, neg, ◌+ℤ◌, int_laws, false, ◌&&◌, Option, List, [], ◌∷◌, ◌++◌,
  ◌==◌, put, ==_refl, Bool-cases, inl, inr, arith, All,
}
use openeos_api.Entities.{Payment, TseTransactionData}
use openeos_api.Payments.Reversal.{is_captured, captured_payments, reversal_of}

-- The sum of the captured payments of an order, reversals included.
unfoldable pub net_of : List (ℕ × Payment) → ℤ
net_of [] = pos 0
net_of ((pid, p) ∷ rows) = p.amount +ℤ net_of rows

unfoldable pub net_captured : ℕ → List (ℕ × Payment) → ℤ
unfolding net_of
net_captured oid rows = net_of (captured_payments oid rows)

-- The ids of the rows are below the next one.
abbrev pub IsFresh : ℕ → List (ℕ × Payment) → Type 0
IsFresh n rows = All (λ row. row.0 < n) rows

-- A row under a new id is inserted behind the others.
pub put-fresh :
    (n : ℕ) (p : Payment) (rows : List (ℕ × Payment))
    → IsFresh n rows
    → put n p rows ≡ rows ++ (n, p) ∷ []
unfolding put
put-fresh n p [] h = refl
put-fresh n p ((j, q) ∷ rows) (lt, h) = rw (not_same j n lt, put-fresh n p rows h)
  where
    not_same : (a b : ℕ) → a < b → (a == b) ≡ false
    not_same a b l = ground arith

pub IsFresh-put :
    (n : ℕ) (p : Payment) (rows : List (ℕ × Payment))
    → IsFresh n rows
    → IsFresh (suc n) (rows ++ (n, p) ∷ [])
IsFresh-put n p [] h = (omega arith, tt)
IsFresh-put n p ((j, q) ∷ rows) (lt, h) = (omega arith, IsFresh-put n p rows h)

pub captured_payments-append :
    (oid : ℕ) (rows more : List (ℕ × Payment))
    → captured_payments oid (rows ++ more)
      ≡ captured_payments oid rows ++ captured_payments oid more
unfolding captured_payments
captured_payments-append oid [] more = refl
captured_payments-append oid ((pid, p) ∷ rows) more =
    elim (Bool-cases (p.order_id == oid && is_captured p.status)) [
      | inl e ↦ rw (e, captured_payments-append oid rows more)
      | inr e ↦ rw (e, captured_payments-append oid rows more)
    ]

pub net_of-append : (xs ys : List (ℕ × Payment)) → net_of (xs ++ ys) ≡ net_of xs +ℤ net_of ys
unfolding net_of
net_of-append [] ys = zero_back (net_of ys)
  where
    zero_back : (a : ℤ) → a ≡ pos 0 +ℤ a
    zero_back a = omega int_laws
net_of-append ((pid, p) ∷ xs) ys =
    rw (net_of-append xs ys) (assoc_back p.amount (net_of xs) (net_of ys))
  where
    assoc_back : (a b c : ℤ) → a +ℤ (b +ℤ c) ≡ a +ℤ b +ℤ c
    assoc_back a b c = omega int_laws

-- One reversal takes its amount off the captured sum of its order.
pub net_captured-reversal :
    (oid n pid : ℕ) (p : Payment) (tse : Option TseTransactionData) (rows : List (ℕ × Payment))
    → IsFresh n rows
    → p.order_id ≡ oid
    → net_captured oid (put n (reversal_of pid p tse) rows) ≡ net_captured oid rows +ℤ neg p.amount
unfolding net_captured reversal_of captured_payments
net_captured-reversal oid n pid p tse rows h e =
    rw
      (
        put-fresh n (reversal_of pid p tse) rows h,
        captured_payments-append oid rows ((n, reversal_of pid p tse) ∷ []),
        net_of-append (captured_payments oid rows)
            (captured_payments oid ((n, reversal_of pid p tse) ∷ [])),
        e,
        ==_refl oid,
      )
      (one_more (net_of (captured_payments oid rows)) (neg p.amount))
  where
    one_more : (a b : ℤ) → a +ℤ (b +ℤ pos 0) ≡ a +ℤ b
    one_more a b = omega int_laws
