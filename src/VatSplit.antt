-- ===== src/VatSplit.antt =====
-- src/modules/payments/vat-split.ts. Amounts are whole cents, so `toCents` and `toEuros` are the
-- identity and the shares of the largest-remainder method are exact fractions over one denominator.
pub mod Totals
pub mod Exact
mod Tests
use openeos_api.Base.{
  ℕ, zero, suc, ◌+◌, ◌-◌, ◌*◌, ◌/◌, ◌%◌, ℤ, pos, negsuc, ◌+ℤ◌, ◌*ℤ◌, neg, abs_ℕ, eqb_ℤ, ltb_ℤ, Bool,
  not, ◌&&◌, ◌||◌, List, [], ◌∷◌, ltb, ◌==◌, if◌then◌else◌, length, is_empty, keep, map,
}
use openeos_api.Entities.{OrderItem, TseVatSplit}

pub record VatSplitItem : Type 0 where
  pub quantity : ℕ
  pub unit_price : ℤ
  pub options_price : ℤ
  pub tax_rate : ℕ

-- An entry of the map `totals`, and a row that goes into it.
abbrev pub RateTotal : Type 0
RateTotal = ℕ × ℤ

abbrev pub split : ℕ → ℤ → TseVatSplit
split r g = record { rate = r; gross_amount = g }

-- `totals.set(rate, (totals.get(rate) ?? 0) + cents)`, in the map's insertion order.
unfoldable pub add_row : ℕ → ℤ → List RateTotal → List RateTotal
add_row r c [] = (r, c) ∷ []
add_row r c ((j, t) ∷ m) = if j == r then (j, t +ℤ c) ∷ m else (j, t) ∷ add_row r c m

unfoldable pub totals : List RateTotal → List RateTotal → List RateTotal
totals [] m = m
totals ((r, c) ∷ rows) m = totals rows (add_row r c m)

-- Array.prototype.sort is stable: an entry goes before the first one that must follow it.
unfoldable pub insert_desc : RateTotal → List RateTotal → List RateTotal
insert_desc (r, c) [] = (r, c) ∷ []
insert_desc (r, c) ((j, t) ∷ m) =
    if ltb r j || r == j then (j, t) ∷ insert_desc (r, c) m else (r, c) ∷ (j, t) ∷ m

unfoldable pub sort_desc : List RateTotal → List RateTotal → List RateTotal
sort_desc [] out = out
sort_desc (e ∷ m) out = sort_desc m (insert_desc e out)

abbrev pub to_split : RateTotal → TseVatSplit
to_split (r, c) = split r c

unfoldable pub group_by_rate : List RateTotal → List TseVatSplit
group_by_rate rows = map to_split (sort_desc (totals rows []) [])

abbrev pub item_row : VatSplitItem → RateTotal
item_row i = (i.tax_rate, (i.unit_price +ℤ i.options_price) *ℤ pos i.quantity)

unfoldable pub splits_from_items : List VatSplitItem → List TseVatSplit
splits_from_items items = group_by_rate (map item_row items)

-- The item of the call sites, `order.items.map(...)`.
abbrev pub split_item : OrderItem → VatSplitItem
split_item i = record {
  quantity = i.quantity;
  unit_price = i.unit_price;
  options_price = i.options_price;
  tax_rate = i.tax_rate;
}

abbrev pub gross_sum : List TseVatSplit → ℤ
gross_sum [] = pos 0
gross_sum (s ∷ ss) = s.gross_amount +ℤ gross_sum ss

-- One entry of `shares`. `remainder` is the numerator of `exact - floor` over `absTotal`.
pub record Share : Type 0 where
  pub rate : ℕ
  pub floor : ℕ
  pub remainder : ℕ

unfoldable pub share : ℕ → ℕ → TseVatSplit → Share
share total target s = record {
  rate = s.rate;
  floor = abs_ℕ s.gross_amount * target / total;
  remainder = abs_ℕ s.gross_amount * target % total;
}

abbrev pub floors : List Share → ℕ
floors [] = 0
floors (x ∷ xs) = x.floor + floors xs

-- The comparison of `byRemainder`: does `a` come strictly before `b`?
abbrev pub precedes : Share → Share → Bool
precedes a b = ltb b.remainder a.remainder || (a.remainder == b.remainder && ltb a.rate b.rate)

-- `byRemainder` shares its objects with `shares`: here it holds their positions.
unfoldable pub insert_place : ℕ × Share → List (ℕ × Share) → List (ℕ × Share)
insert_place (i, x) [] = (i, x) ∷ []
insert_place (i, x) ((j, y) ∷ rest) =
    if precedes x y then (i, x) ∷ (j, y) ∷ rest else (j, y) ∷ insert_place (i, x) rest

unfoldable pub by_remainder : ℕ → List Share → List (ℕ × Share) → List (ℕ × Share)
by_remainder i [] out = out
by_remainder i (x ∷ xs) out = by_remainder (suc i) xs (insert_place (i, x) out)

-- The position at `i % length`, of a list that is not empty.
unfoldable pub place_at : ℕ → List (ℕ × Share) → ℕ
place_at n [] = 0
place_at zero ((j, y) ∷ rest) = j
place_at (suc n) ((j, y) ∷ rest) = place_at n rest

-- `floor += 1` on the share at a position.
unfoldable pub bump : ℕ → List Share → List Share
bump i [] = []
bump zero (x ∷ xs) = record x { floor = x.floor + 1 } ∷ xs
bump (suc i) (x ∷ xs) = x ∷ bump i xs

-- The loop that hands out the residual cents, one in each of the rounds that are left.
unfoldable pub distribute : ℕ → ℕ → List (ℕ × Share) → List Share → List Share
distribute zero i places shares = shares
distribute (suc left) i places shares =
    distribute left (i + 1) places (bump (place_at (i % length places) places) shares)

abbrev pub signed : Bool → ℕ → ℤ
signed negative n = if negative then neg (pos n) else pos n

abbrev pub share_split : Bool → Share → TseVatSplit
share_split negative x = split x.rate (signed negative x.floor)

-- The part of `allocateToAmount` after its early returns.
unfoldable pub scale : List TseVatSplit → ℤ → List TseVatSplit
scale clean target =
    let shares = map (share (abs_ℕ (gross_sum clean)) (abs_ℕ target)) clean in
    let places = by_remainder 0 shares [] in
    map (share_split (ltb_ℤ target (pos 0)))
      (distribute (abs_ℕ target - floors shares) 0 places shares)

abbrev pub not_zero : TseVatSplit → Bool
not_zero s = not (eqb_ℤ s.gross_amount (pos 0))

unfoldable pub allocate_to_amount : List TseVatSplit → ℤ → List TseVatSplit
allocate_to_amount splits target =
    let clean = keep not_zero splits in
    if is_empty clean
    then []
    else if eqb_ℤ (gross_sum clean) target
    then clean
    else if eqb_ℤ (gross_sum clean) (pos 0)
    then []
    else scale clean target

-- The amount is a whole number of cents, which `toCents` and `toEuros` take there and back.
abbrev pub negate_split : TseVatSplit → TseVatSplit
negate_split s = split s.rate (neg s.gross_amount)

unfoldable pub negate_splits : List TseVatSplit → List TseVatSplit
negate_splits splits = map negate_split splits
