-- ===== src/Orders/Totals/Laws.antt =====
-- What recalculateOrderTotals leaves behind.
use openeos_api.Base.{
  ℕ, ◌≡◌, refl, sym, ℤ, ◌+ℤ◌, ◌-ℤ◌, ◌*ℤ◌, ◌≤ℤ◌, pos, List, [], ◌∷◌, keep, Bool-cases, inl, inr,
  min_ℤ, int_laws, some, arith, ◌∙◌, ap, neg_part, pos_part,
}
use openeos_api.Entities.{Order, OrderItem}
use openeos_api.Store.{Store, ok}
use openeos_api.Orders.Totals.{
  is_active, subtotal_of, tax_total_of, pfand_total_of, recalculated, recalculate_order_totals,
}
use openeos_api.Orders.Rows.{stored_order, with_order}
use openeos_api.Orders.Rows.Laws.{stored_order-live, stored_order-with_order}

-- The sum of an amount over a list of items.
unfoldable pub sum_by : (OrderItem → ℤ) → List OrderItem → ℤ
sum_by amount [] = pos 0
sum_by amount (i ∷ is) = amount i +ℤ sum_by amount is

-- The items that are not cancelled.
abbrev pub active_items : Order → List OrderItem
active_items o = keep is_active o.items

-- The amounts of an item: its price, its tax and its deposit.
abbrev pub price_of : OrderItem → ℤ
price_of i = i.total_price

abbrev pub tax_of : OrderItem → ℤ
tax_of i = i.total_price *ℤ pos i.tax_rate

abbrev pub deposit_of : OrderItem → ℤ
deposit_of i = i.deposit_amount *ℤ pos i.quantity

-- The totals of an order agree with its items that are not cancelled, its tip and its discount.
pub record IsTotalled (o : Order) : Type 0 where
  pub subtotal_eq : o.subtotal ≡ sum_by price_of (active_items o)
  pub tax_total_eq : o.tax_total ≡ sum_by tax_of (active_items o)
  pub pfand_total_eq : o.pfand_total ≡ sum_by deposit_of (active_items o)
  pub discount_le : o.discount_amount ≤ℤ o.subtotal
  pub total_eq : o.total +ℤ o.discount_amount ≡ o.subtotal +ℤ o.tip_amount +ℤ o.pfand_total

zero_left : (a : ℤ) → pos 0 +ℤ a ≡ a
zero_left a = omega int_laws

subtotal_of-active : (is : List OrderItem) → subtotal_of is ≡ sum_by price_of (keep is_active is)
unfolding subtotal_of sum_by
subtotal_of-active [] = refl
subtotal_of-active (i ∷ is) = elim (Bool-cases (is_active i)) [
  | inl e ↦ rw (e, subtotal_of-active is)
  | inr e ↦ rw (e, zero_left (subtotal_of is), subtotal_of-active is)
]

tax_total_of-active : (is : List OrderItem) → tax_total_of is ≡ sum_by tax_of (keep is_active is)
unfolding tax_total_of sum_by
tax_total_of-active [] = refl
tax_total_of-active (i ∷ is) = elim (Bool-cases (is_active i)) [
  | inl e ↦ rw (e, tax_total_of-active is)
  | inr e ↦ rw (e, zero_left (tax_total_of is), tax_total_of-active is)
]

pfand_total_of-active :
    (is : List OrderItem) → pfand_total_of is ≡ sum_by deposit_of (keep is_active is)
unfolding pfand_total_of sum_by
pfand_total_of-active [] = refl
pfand_total_of-active (i ∷ is) = elim (Bool-cases (is_active i)) [
  | inl e ↦ rw (e, pfand_total_of-active is)
  | inr e ↦ rw (e, zero_left (pfand_total_of is), pfand_total_of-active is)
]

min_le : (a b : ℤ) → min_ℤ a b ≤ℤ b
unfolding min_ℤ
min_le a b = ground arith

min_eq : (a b : ℤ) → a ≤ℤ b → min_ℤ a b ≡ a
unfolding min_ℤ
min_eq a b h = ground arith

total_balance : (s d t p : ℤ) → s -ℤ d +ℤ t +ℤ p +ℤ d ≡ s +ℤ t +ℤ p
total_balance s d t p = omega int_laws

pub recalculated-IsTotalled : (o : Order) → IsTotalled (recalculated o)
unfolding recalculated
recalculated-IsTotalled o = record {
  subtotal_eq = subtotal_of-active o.items;
  tax_total_eq = tax_total_of-active o.items;
  pfand_total_eq = pfand_total_of-active o.items;
  discount_le = min_le o.discount_amount (subtotal_of o.items);
  total_eq =
      total_balance (subtotal_of o.items) (min_ℤ o.discount_amount (subtotal_of o.items))
        o.tip_amount (pfand_total_of o.items);
}

-- The discount that recalculation takes off never drives the total below tip and deposit.
tip_pfand-le : (s d t p : ℤ) → d ≤ℤ s → t +ℤ p ≤ℤ s -ℤ d +ℤ t +ℤ p
tip_pfand-le s d t p h = omega int_laws

total_unique : (x s d t p : ℤ) → x +ℤ d ≡ s +ℤ t +ℤ p → s -ℤ d +ℤ t +ℤ p ≡ x
total_unique x s d t p h =
    let pp = ap pos_part h in let nn = ap neg_part h in omega (int_laws, pp, nn)

cap_total : (s d d' t p : ℤ) → d ≡ d' → s -ℤ d +ℤ t +ℤ p ≡ s -ℤ d' +ℤ t +ℤ p
cap_total s d d' t p e = rw e

-- An order whose totals agree is left as it is: recalculation is idempotent, and its result does not
-- depend on when it last ran.
recalculated_fixed : (o : Order) → IsTotalled o → recalculated o ≡ o
unfolding recalculated
recalculated_fixed o v =
    let sub = v.subtotal_eq ∙ sym (subtotal_of-active o.items) in
    let tax = v.tax_total_eq ∙ sym (tax_total_of-active o.items) in
    let pfand = v.pfand_total_eq ∙ sym (pfand_total_of-active o.items) in
    let cap : min_ℤ o.discount_amount (subtotal_of o.items) ≡ o.discount_amount =
      min_eq o.discount_amount (subtotal_of o.items) (rw sub at v.discount_le) in
    let sum : subtotal_of o.items -ℤ o.discount_amount +ℤ o.tip_amount +ℤ pfand_total_of o.items
        ≡ o.total =
      total_unique o.total (subtotal_of o.items) o.discount_amount o.tip_amount
        (pfand_total_of o.items) (cc (sub, pfand, v.total_eq)) in
    let total_eq = cap_total _ _ _ _ _ cap ∙ sum in
    λ i. record o {
      subtotal = sym sub i;
      tax_total = sym tax i;
      pfand_total = sym pfand i;
      discount_amount = cap i;
      total = total_eq i;
    }

pub recalculated-tip_pfand-le :
    (o : Order) → o.tip_amount +ℤ pfand_total_of o.items ≤ℤ (recalculated o).total
unfolding recalculated
recalculated-tip_pfand-le o =
    tip_pfand-le (subtotal_of o.items) _ o.tip_amount (pfand_total_of o.items)
      (min_le o.discount_amount (subtotal_of o.items))

-- On a stored order the call saves the recalculated order, and nothing else.
pub recalculate_order_totals-run :
    (oid : ℕ) (s : Store) (o : Order)
    → stored_order oid s ≡ some o
    → recalculate_order_totals oid s ≡ (ok tt, with_order oid (recalculated o) s)
unfolding recalculate_order_totals
recalculate_order_totals-run oid s o h = rw h

stored_order-recalculated :
    (oid : ℕ) (s : Store) (o : Order)
    → stored_order oid s ≡ some o
    → stored_order oid (with_order oid (recalculated o) s) ≡ some (recalculated o)
unfolding recalculated
stored_order-recalculated oid s o h =
    stored_order-with_order oid (recalculated o) s (stored_order-live oid s h).1

-- `recalculateOrderTotals` of a stored order makes its stored totals agree with those of its items that
-- are not cancelled: subtotal, tax and deposit are their sums, the discount is at most the subtotal,
-- and the total is subtotal, tip and deposit less the discount. The total is then at tip and deposit
-- at least; and run again, it changes nothing in the order.
pub recalculate_order_totals_lem :
    (oid : ℕ) (s : Store) (o : Order)
    → stored_order oid s ≡ some o
    → let s' = (recalculate_order_totals oid s).1 in
      (stored_order oid s' ≡ some (recalculated o))
      × IsTotalled (recalculated o)
      × (o.tip_amount +ℤ pfand_total_of o.items ≤ℤ (recalculated o).total)
      × (stored_order oid (recalculate_order_totals oid s').1 ≡ some (recalculated o))
recalculate_order_totals_lem oid s o h =
    let once = stored_order-recalculated oid s o h in
    let fixed = recalculated_fixed (recalculated o) (recalculated-IsTotalled o) in
    let s1 = with_order oid (recalculated o) s in
    let twice = stored_order-recalculated oid s1 (recalculated o) once in
    rw
      (
        recalculate_order_totals-run oid s o h,
        recalculate_order_totals-run oid s1 (recalculated o) once,
      )
      (once, recalculated-IsTotalled o, recalculated-tip_pfand-le o, twice ∙ ap some fixed)
