-- ===== src/Orders/Items/Prices/Tests.antt =====
-- The price of three colas with ice (0.50 each), added and changed.
use openeos_api.Base.{◌≡◌, refl, pos, ◌+ℤ◌, ◌*ℤ◌, true, ◌∷◌, []}
use openeos_api.Samples.{product, two_more}
use openeos_api.Orders.Items.{AddOrderItemDto, new_item, requantified, options_price_of}
use openeos_api.Orders.Items.Prices.{requantified-new_item}

abbrev with_ice : AddOrderItemDto
with_ice = record two_more {
  selected_options = record { group = "Ice"; choice = "yes"; price_modifier = pos 50 } ∷ [];
}

added : (new_item 1 product (record with_ice { quantity = 3 }) true 0).total_price ≡ pos 1050
unfolding new_item options_price_of ◌+ℤ◌ ◌*ℤ◌
added = refl

changed : (requantified (new_item 1 product with_ice true 0) 3).total_price ≡ pos 950
unfolding new_item requantified options_price_of ◌+ℤ◌ ◌*ℤ◌
changed = refl

requantified-new_item_example :
    (requantified (new_item 1 product with_ice true 0) 3).total_price
      +ℤ options_price_of with_ice.selected_options *ℤ pos 3
    ≡ (new_item 1 product (record with_ice { quantity = 3 }) true 0).total_price
      +ℤ options_price_of with_ice.selected_options
requantified-new_item_example = requantified-new_item 1 product with_ice true 0 3
