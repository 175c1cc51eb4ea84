-- ===== src/Base/Rows.antt =====
-- A database table as rows under their ids, in the order of insertion. Rows are read back by
-- `get-put`; the representation shows only where the source counts or lists rows.
use Prim.Native.Nat.{ℕ}
use mathlib.Core.Path.{◌≡◌, refl, sym, subst, ◌∙◌}
use mathlib.Core.Option.{Option, none, some, some-injective}
use mathlib.Core.Logic.{◌⊎◌, inl, inr}
use mathlib.Core.Bool.{true, false, not}
use mathlib.Core.List.{List, [], ◌∷◌}
use native.Mathlib.Omega.{arith}
use openeos_api.Base.Lists.{keep}
use openeos_api.Base.Tests.{Bool-cases, ==_eq, ◌==◌, if◌then◌else◌}

module _ {ℓ} {A : Type ℓ} where
  -- `findOne({ where: { id } })`
  unfoldable pub get : ℕ → List (ℕ × A) → Option A
  get k [] = none
  get k ((j, a) ∷ rows) = if j == k then some a else get k rows

  -- `save`: update the row with that id, or insert it.
  unfoldable pub put : ℕ → A → List (ℕ × A) → List (ℕ × A)
  put k v [] = (k, v) ∷ []
  put k v ((j, a) ∷ rows) = if j == k then (k, v) ∷ rows else (j, a) ∷ put k v rows

  pub get-put :
      (k j : ℕ) (v : A) (rows : List (ℕ × A))
      → get j (put k v rows) ≡ (if k == j then some v else get j rows)
  unfolding get put
  get-put k j v [] = refl
  get-put k j v ((i, a) ∷ rows) = ground (arith, get-put k j v rows)

  pub get-put_self : (k : ℕ) (v : A) (rows : List (ℕ × A)) → get k (put k v rows) ≡ some v
  get-put_self k v rows = ground (arith, get-put k k v rows)

  -- What is found after a save is the saved row, or a row that was there.
  pub get-put_cases :
      (k j : ℕ) (v w : A) (rows : List (ℕ × A))
      → get j (put k v rows) ≡ some w
      → (((k == j) ≡ true) × (j ≡ k) × (w ≡ v)) ⊎ (((k == j) ≡ false) × (get j rows ≡ some w))
  get-put_cases k j v w rows h = elim (Bool-cases (k == j)) [
    | inl e ↦ inl (e, ground arith, sym (some-injective v w (rw (get-put k j v rows, e) at h)))
    | inr e ↦ inr (e, rw (get-put k j v rows, e) at h)
  ]

  abbrev pub values : List (ℕ × A) → List A
  values [] = []
  values ((j, a) ∷ rows) = a ∷ values rows

  -- `remove`: the rows under other ids.
  abbrev pub drop_row : ℕ → List (ℕ × A) → List (ℕ × A)
  drop_row k rows = keep (λ row. not (row.0 == k)) rows

  pub get-drop_row-none : (cid : ℕ) (rows : List (ℕ × A)) → get cid (drop_row cid rows) ≡ none
  unfolding get
  get-drop_row-none cid [] = refl
  get-drop_row-none cid ((j, d) ∷ rows) = elim (Bool-cases (j == cid)) [
    | inl y ↦ rw y (get-drop_row-none cid rows)
    | inr n ↦ rw (n, n) (get-drop_row-none cid rows)
  ]

  -- What is found without the row was there with it.
  pub get-drop_row :
      (cid k : ℕ) (rows : List (ℕ × A)) (c : A)
      → get k (drop_row cid rows) ≡ some c
      → get k rows ≡ some c
  unfolding get
  get-drop_row cid k [] c h = h
  get-drop_row cid k ((j, d) ∷ rows) c h = elim (Bool-cases (j == cid)) [
    | inl y ↦ elim (Bool-cases (j == k)) [
      | inl a ↦
          let same = sym (==_eq j cid y) ∙ ==_eq j k a in
          let gone =
            subst (λ x. get x (drop_row cid rows) ≡ none) same (get-drop_row-none cid rows) in
          let there = rw y at h in cc
      | inr b ↦ rw b (get-drop_row cid k rows c (rw y at h))
    ]
    | inr n ↦ elim (Bool-cases (j == k)) [
      | inl a ↦ rw a (rw (n, a) at h)
      | inr b ↦ rw b (get-drop_row cid k rows c (rw (n, b) at h))
    ]
  ]
