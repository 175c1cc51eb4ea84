-- ===== src/VatSplit/Exact.antt =====
-- The scaled splits add up to the target to the cent.
use openeos_api.Base.{
  ℕ, zero, suc, ◌+◌, ◌-◌, ◌*◌, ◌%◌, ◌≤◌, ◌<◌, ◌≡◌, ◌≢◌, refl, ap, ℤ, pos, negsuc, ◌+ℤ◌, neg, ◌≤ℤ◌,
  neg_part, pos_part, abs_ℕ, eqb_ℤ, ltb_ℤ, int_laws, Bool, true, false, List, [], ◌∷◌, map, arith,
  Bool-cases, if◌then◌else◌, inl, inr, length, All, keep, is_empty,
}
use openeos_api.Entities.{TseVatSplit}
use openeos_api.VatSplit.{
  Share, share, floors, precedes, insert_place, by_remainder, place_at, bump, distribute, signed,
  share_split, scale, not_zero, allocate_to_amount, gross_sum,
}

abbrev pub IsNonneg : TseVatSplit → Type 0
IsNonneg s = pos 0 ≤ℤ s.gross_amount

eq_of_eqb : (a b : ℤ) → eqb_ℤ a b ≡ true → a ≡ b
eq_of_eqb a b h = ground arith

abs_pos : (a : ℤ) → a ≢ pos 0 → 0 < abs_ℕ a
abs_pos (pos zero) h = absurd (h refl)
abs_pos (pos (suc n)) h = omega arith
abs_pos (negsuc n) h = omega arith

vanishing : (a b : ℤ) → eqb_ℤ a (pos 0) ≡ true → b ≡ a +ℤ b
vanishing a b e = rw (eq_of_eqb a (pos 0) e) (omega int_laws)

abs_sum : List TseVatSplit → ℕ
abs_sum [] = 0
abs_sum (s ∷ ss) = abs_ℕ s.gross_amount + abs_sum ss

gross_sum-nonneg :
    (ss : List TseVatSplit)
    → All IsNonneg ss
    → (neg_part (gross_sum ss) ≡ 0) × (pos_part (gross_sum ss) ≡ abs_sum ss)
unfolding abs_sum ◌+ℤ◌
gross_sum-nonneg [] h = omega arith
gross_sum-nonneg (s ∷ ss) (p, ps) = ground (arith, gross_sum-nonneg ss ps)

floors-share-le :
    (total target : ℕ) (ss : List TseVatSplit)
    → floors (map (share total target) ss) * total ≤ abs_sum ss * target
unfolding share abs_sum
floors-share-le total target [] = omega arith
floors-share-le total target (s ∷ ss) = omega (arith, floors-share-le total target ss)

length-bump : (i : ℕ) (xs : List Share) → length (bump i xs) ≡ length xs
unfolding bump
length-bump i [] = refl
length-bump zero (x ∷ xs) = refl
length-bump (suc i) (x ∷ xs) = ap suc (length-bump i xs)

floors-bump : (i : ℕ) (xs : List Share) → i < length xs → floors (bump i xs) ≡ floors xs + 1
unfolding bump
floors-bump i [] h = absurd (omega arith)
floors-bump zero (x ∷ xs) h = omega arith
floors-bump (suc i) (x ∷ xs) h = omega (arith, floors-bump i xs)

abbrev Below : ℕ → ℕ × Share → Type 0
Below n (i, x) = i < n

place_at-lt :
    (k n : ℕ) (places : List (ℕ × Share))
    → All (Below k) places
    → n < length places
    → place_at n places < k
unfolding place_at
place_at-lt k n [] a h = absurd (omega arith)
place_at-lt k zero ((j, y) ∷ rest) a h = a.0
place_at-lt k (suc n) ((j, y) ∷ rest) a h = place_at-lt k n rest a.1 (omega arith)

floors-distribute :
    (left i : ℕ) (places : List (ℕ × Share)) (xs : List Share)
    → All (Below (length xs)) places
    → 0 < length places
    → floors (distribute left i places xs) ≡ floors xs + left
unfolding distribute
floors-distribute zero i places xs a h = omega arith
floors-distribute (suc left) i places xs a h =
    let at = place_at (i % length places) places in
    let hit = place_at-lt (length xs) (i % length places) places a (omega arith) in
    omega (
      arith,
      floors-distribute left (i + 1) places (bump at xs) (rw (length-bump at xs) a) h,
      floors-bump at xs hit,
    )

insert_place-Below :
    (k i : ℕ) (x : Share) (places : List (ℕ × Share))
    → i < k
    → All (Below k) places
    → All (Below k) (insert_place (i, x) places) × (0 < length (insert_place (i, x) places))
unfolding insert_place
insert_place-Below k i x [] h a = omega arith
insert_place-Below k i x ((j, y) ∷ rest) h a = elim (Bool-cases (precedes x y)) [
  | inl e ↦ rw e ((h, a), omega arith)
  | inr e ↦ rw e ((a.0, (insert_place-Below k i x rest h a.1).0), omega arith)
]

by_remainder-Below :
    (k i : ℕ) (xs : List Share) (out : List (ℕ × Share))
    → i + length xs ≤ k
    → All (Below k) out
    → 0 < length xs + length out
    → All (Below k) (by_remainder i xs out) × (0 < length (by_remainder i xs out))
unfolding by_remainder
by_remainder-Below k i [] out h a p = (a, omega arith)
by_remainder-Below k i (x ∷ xs) out h a p =
    let (b, q) = insert_place-Below k i x out (omega arith) a in
    by_remainder-Below k (suc i) xs (insert_place (i, x) out) (omega arith) b (omega arith)

gross_sum-share_split :
    (b : Bool) (xs : List Share) → gross_sum (map (share_split b) xs) ≡ signed b (floors xs)
gross_sum-share_split true [] = omega int_laws
gross_sum-share_split false [] = refl
gross_sum-share_split true (x ∷ xs) = rw (gross_sum-share_split true xs) (omega int_laws)
gross_sum-share_split false (x ∷ xs) = rw (gross_sum-share_split false xs) (omega int_laws)

signed-abs : (t : ℤ) → signed (ltb_ℤ t (pos 0)) (abs_ℕ t) ≡ t
unfolding neg
signed-abs t = ground arith

le_of_scaled : (f t total : ℕ) → 0 < total → f * total ≤ total * t → f ≤ t
le_of_scaled f t total p h = grind arith

floors-le-target :
    (ss : List TseVatSplit) (target : ℕ)
    → All IsNonneg ss
    → gross_sum ss ≢ pos 0
    → floors (map (share (abs_ℕ (gross_sum ss)) target) ss) ≤ target
floors-le-target ss target h nz =
    let total = abs_ℕ (gross_sum ss) in
    let (n, p) = gross_sum-nonneg ss h in
    let positive : 0 < total = abs_pos (gross_sum ss) nz in
    let same : abs_sum ss ≡ total = omega arith in
    le_of_scaled _ target total positive (rw same at (floors-share-le total target ss))

gross_sum-scale :
    (s : TseVatSplit) (ss : List TseVatSplit) (target : ℤ)
    → All IsNonneg (s ∷ ss)
    → gross_sum (s ∷ ss) ≢ pos 0
    → gross_sum (scale (s ∷ ss) target) ≡ target
unfolding scale
gross_sum-scale s ss target h nz =
    let shares = map (share (abs_ℕ (gross_sum (s ∷ ss))) (abs_ℕ target)) (s ∷ ss) in
    let (below, some_place) =
      by_remainder-Below (length shares) 0 shares [] (omega arith) tt (omega arith) in
    let places = by_remainder 0 shares [] in
    let left = abs_ℕ target - floors shares in
    let sum : floors (distribute left 0 places shares) ≡ abs_ℕ target = omega (
      arith,
      floors-distribute left 0 places shares below some_place,
      floors-le-target (s ∷ ss) (abs_ℕ target) h nz,
    ) in
    rw (gross_sum-share_split (ltb_ℤ target (pos 0)) (distribute left 0 places shares), sum)
      (signed-abs target)

gross_sum-keep : (ss : List TseVatSplit) → gross_sum (keep not_zero ss) ≡ gross_sum ss
gross_sum-keep [] = refl
gross_sum-keep (s ∷ ss) = elim (Bool-cases (eqb_ℤ s.gross_amount (pos 0))) [
  | inl e ↦ rw (e, gross_sum-keep ss) (vanishing _ _ e)
  | inr e ↦ rw (e, gross_sum-keep ss)
]

All-keep : (ss : List TseVatSplit) → All IsNonneg ss → All IsNonneg (keep not_zero ss)
All-keep [] h = tt
All-keep (s ∷ ss) h = elim (Bool-cases (eqb_ℤ s.gross_amount (pos 0))) [
  | inl e ↦ rw e (All-keep ss h.1)
  | inr e ↦ rw e (h.0, All-keep ss h.1)
]

-- The cases of `allocate_to_amount` on the splits that it keeps.
allocate-cases :
    (clean : List TseVatSplit) (target : ℤ)
    → All IsNonneg clean
    → gross_sum clean ≢ pos 0
    → gross_sum (
        if is_empty clean
        then []
        else if eqb_ℤ (gross_sum clean) target
        then clean
        else if eqb_ℤ (gross_sum clean) (pos 0)
        then []
        else scale clean target)
      ≡ target
allocate-cases [] target h nz = absurd (nz refl)
allocate-cases (s ∷ ss) target h nz = elim (Bool-cases (eqb_ℤ (gross_sum (s ∷ ss)) target)) [
  | inl e ↦ rw e (eq_of_eqb _ _ e)
  | inr e ↦ elim (Bool-cases (eqb_ℤ (gross_sum (s ∷ ss)) (pos 0))) [
    | inl z ↦ absurd (nz (eq_of_eqb _ _ z))
    | inr z ↦ rw (e, z) (gross_sum-scale s ss target h nz)
  ]
]

-- If no split is negative and they do not all vanish, `allocateToAmount` returns splits that add up
-- to the target exactly, whatever the target is, a negative one included.
pub gross_sum-allocate_to_amount :
    (splits : List TseVatSplit) (target : ℤ)
    → All IsNonneg splits
    → gross_sum splits ≢ pos 0
    → gross_sum (allocate_to_amount splits target) ≡ target
unfolding allocate_to_amount
gross_sum-allocate_to_amount splits target h nz =
    allocate-cases (keep not_zero splits) target (All-keep splits h) (rw (gross_sum-keep splits) nz)
