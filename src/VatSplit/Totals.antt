-- ===== src/VatSplit/Totals.antt =====
-- Grouping and negation keep the sums.
use openeos_api.Base.{
  ℕ, ◌≡◌, refl, ap, ℤ, pos, ◌+ℤ◌, neg, neg-neg, int_laws, List, [], ◌∷◌, map, arith, ltb, ◌||◌,
  ◌==◌, Bool-cases, if◌then◌else◌, inl, inr, Bool, true, false,
}
use openeos_api.Entities.{TseVatSplit}
use openeos_api.VatSplit.{
  RateTotal, add_row, totals, insert_desc, sort_desc, to_split, group_by_rate, gross_sum,
  negate_splits,
}

-- What the rows or entries add up to.
abbrev pub cents : List RateTotal → ℤ
cents [] = pos 0
cents ((r, c) ∷ rows) = c +ℤ cents rows

-- What they add up to at one tax rate.
abbrev pub cents_at : ℕ → List RateTotal → ℤ
cents_at k [] = pos 0
cents_at k ((r, c) ∷ rows) = (if r == k then c else pos 0) +ℤ cents_at k rows

abbrev pub gross_at : ℕ → List TseVatSplit → ℤ
gross_at k [] = pos 0
gross_at k (s ∷ ss) = (if s.rate == k then s.gross_amount else pos 0) +ℤ gross_at k ss

eq_of_test : (a b : ℕ) → (a == b) ≡ true → a ≡ b
eq_of_test a b h = ground arith

cents_at-hit :
    (b : Bool) (c t rest : ℤ)
    → (if b then t +ℤ c else pos 0) +ℤ rest
      ≡ (if b then c else pos 0) +ℤ ((if b then t else pos 0) +ℤ rest)
cents_at-hit true c t rest = omega int_laws
cents_at-hit false c t rest = omega int_laws

cents_at-add_row :
    (k r : ℕ) (c : ℤ) (m : List RateTotal)
    → cents_at k (add_row r c m) ≡ (if r == k then c else pos 0) +ℤ cents_at k m
unfolding add_row
cents_at-add_row k r c [] = refl
cents_at-add_row k r c ((j, t) ∷ m) = elim (Bool-cases (j == r)) [
  | inl e ↦ rw (e, eq_of_test j r e) (cents_at-hit (r == k) c t (cents_at k m))
  | inr e ↦ rw (e, cents_at-add_row k r c m) (omega int_laws)
]

cents_at-totals :
    (k : ℕ) (rows m : List RateTotal) → cents_at k (totals rows m) ≡ cents_at k rows +ℤ cents_at k m
unfolding totals
cents_at-totals k [] m = omega int_laws
cents_at-totals k ((r, c) ∷ rows) m =
    rw (cents_at-totals k rows (add_row r c m), cents_at-add_row k r c m) (omega int_laws)

cents_at-insert_desc :
    (k r : ℕ) (c : ℤ) (m : List RateTotal)
    → cents_at k (insert_desc (r, c) m) ≡ (if r == k then c else pos 0) +ℤ cents_at k m
unfolding insert_desc
cents_at-insert_desc k r c [] = refl
cents_at-insert_desc k r c ((j, t) ∷ m) = elim (Bool-cases (ltb r j || r == j)) [
  | inl e ↦ rw (e, cents_at-insert_desc k r c m) (omega int_laws)
  | inr e ↦ rw e
]

cents_at-sort_desc :
    (k : ℕ) (m out : List RateTotal) → cents_at k (sort_desc m out) ≡ cents_at k m +ℤ cents_at k out
unfolding sort_desc
cents_at-sort_desc k [] out = omega int_laws
cents_at-sort_desc k ((r, c) ∷ m) out =
    rw (cents_at-sort_desc k m (insert_desc (r, c) out), cents_at-insert_desc k r c out)
      (omega int_laws)

gross_at-map : (k : ℕ) (m : List RateTotal) → gross_at k (map to_split m) ≡ cents_at k m
gross_at-map k [] = refl
gross_at-map k ((r, c) ∷ m) = ap (◌+ℤ◌ (if r == k then c else pos 0)) (gross_at-map k m)

-- At every tax rate the grouped splits add up to the rows of that rate.
pub gross_at-group_by_rate :
    (k : ℕ) (rows : List RateTotal) → gross_at k (group_by_rate rows) ≡ cents_at k rows
unfolding group_by_rate
gross_at-group_by_rate k rows =
    rw
      (
        gross_at-map k (sort_desc (totals rows []) []),
        cents_at-sort_desc k (totals rows []) [],
        cents_at-totals k rows [],
      )
      (omega int_laws)

-- Negation is its own inverse, and it changes the sign of the sum.
pub negate_splits_lem :
    (ss : List TseVatSplit)
    → (negate_splits (negate_splits ss) ≡ ss) × (gross_sum (negate_splits ss) ≡ neg (gross_sum ss))
unfolding negate_splits
negate_splits_lem [] = (refl, omega int_laws)
negate_splits_lem (s ∷ ss) =
    let (twice, sum) = negate_splits_lem ss in (rw (neg-neg, twice), rw sum (omega int_laws))
