-- ===== src/Orders/Items/Prices.antt =====
-- The price of a line of an order, as addItemToOrder and updateItem of
-- src/modules/orders/orders.service.ts compute it.
mod Tests
use openeos_api.Base.{
  ℕ, ◌+◌, ◌*◌, ◌≡◌, refl, sym, ap, ◌∙◌, ℤ, pos, neg, ◌+ℤ◌, ◌*ℤ◌, int_laws, pos_part, neg_part, Bool,
  arith, Option, none, some, +ℤ_parts,
}
use openeos_api.Entities.{Order, OrderItem, Product}
use openeos_api.Orders.Items.{AddOrderItemDto, new_item, requantified, options_price_of}

times_parts :
    (a : ℤ) (n : ℕ)
    → pos_part (a *ℤ pos n) + neg_part a * n ≡ neg_part (a *ℤ pos n) + pos_part a * n
unfolding ◌*ℤ◌
times_parts a n = ground arith

spread : (a b c d e f n : ℕ) → a + b + c ≡ d + e + f → a * n + b * n + c * n ≡ d * n + e * n + f * n
spread a b c d e f n h = omega (arith, ap (λ x. x * n) h)

*ℤ-distrib : (a b : ℤ) (n : ℕ) → (a +ℤ b) *ℤ pos n ≡ a *ℤ pos n +ℤ b *ℤ pos n
*ℤ-distrib a b n =
    let h = spread _ _ _ _ _ _ n (+ℤ_parts a b) in
    omega (int_laws, h, times_parts a n, times_parts b n, times_parts (a +ℤ b) n)

gap : (u o : ℤ) (q : ℕ) → u *ℤ pos q +ℤ o +ℤ o *ℤ pos q ≡ (u +ℤ o) *ℤ pos q +ℤ o
gap u o q = sums (u *ℤ pos q) o (o *ℤ pos q) ((u +ℤ o) *ℤ pos q) (*ℤ-distrib u o q)
  where
    sums : (a b c d : ℤ) → d ≡ a +ℤ c → a +ℤ b +ℤ c ≡ d +ℤ b
    sums a b c d h = rw h (swap a b c)
      where
        swap : (a b c : ℤ) → a +ℤ b +ℤ c ≡ a +ℤ c +ℤ b
        swap a b c = omega int_laws

-- A line brought to quantity q by `updateItem` counts its options once, a line added with that
-- quantity counts them q times: with the options added q times to the one and once to the other, the
-- prices agree.
pub requantified-new_item :
    (iid : ℕ) (p : Product) (dto : AddOrderItemDto) (charge : Bool) (existing q : ℕ)
    → let options = options_price_of dto.selected_options in
      (requantified (new_item iid p dto charge existing) q).total_price +ℤ options *ℤ pos q
      ≡ (new_item iid p (record dto { quantity = q }) charge existing).total_price +ℤ options
unfolding new_item requantified
requantified-new_item iid p dto charge existing q =
    gap p.price (options_price_of dto.selected_options) q
