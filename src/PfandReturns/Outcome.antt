-- ===== src/PfandReturns/Outcome.antt =====
-- What a payout of src/modules/pfand-types/pfand-returns.service.ts books.
use openeos_api.Base.{
  ℕ, suc, ◌≡◌, refl, inl, inr, ℤ, pos, ◌+ℤ◌, ◌*ℤ◌, leb_ℤ, +ℤ_assoc, +ℤ_zero, zero_+ℤ, false, some,
  List, [], ◌∷◌, put, Bool-cases, Option-cases,
}
use openeos_api.Entities.{PfandType, PfandReturn, PfandReturnLine}
use openeos_api.Store.{
  Store, Result, ok, err, Exception, bad_request, validation_error, not_found, not_found_code,
}
use openeos_api.PfandReturns.{
  PfandReturnLineDto, PfandReturnContext, type_by_id, line_of, resolve_lines, new_return,
  create_return,
}

-- What the lines of a return come to.
abbrev pub worth : List PfandReturnLine → ℤ
worth [] = pos 0
worth (l ∷ ls) = l.unit_amount *ℤ pos l.quantity +ℤ worth ls

-- The lines are those that were asked for, in their order, at the amounts of the organization's types.
abbrev pub AreLines : ℕ → Store → List PfandReturnLineDto → List PfandReturnLine → Type 0
AreLines org s [] [] = Unit
AreLines org s (dto ∷ dtos) (l ∷ ls) =
    ((t : PfandType) × (type_by_id org dto.pfand_type_id s ≡ some t) × (l ≡ line_of dto t))
    × AreLines org s dtos ls
AreLines org s [] (l ∷ ls) = ⊥
AreLines org s (dto ∷ dtos) [] = ⊥

data Resolved (org : ℕ) (dtos : List PfandReturnLineDto) (total : ℤ) (s : Store)
    (r : Result (List PfandReturnLine × ℤ) × Store) : Type 0 where
  unresolved : (x : Exception) → r ≡ (err x, s) → Resolved org dtos total s r
  resolved :
      (ls : List PfandReturnLine)
      → r ≡ (ok (ls, total +ℤ worth ls), s)
      → AreLines org s dtos ls
      → Resolved org dtos total s r

resolve_lines_lem :
    (org : ℕ) (dtos : List PfandReturnLineDto) (total : ℤ) (s : Store)
    → Resolved org dtos total s (resolve_lines org dtos total s)
unfolding resolve_lines
resolve_lines_lem org [] total s = resolved [] (rw (+ℤ_zero total) refl) tt
resolve_lines_lem org (dto ∷ dtos) total s =
    elim (Option-cases (type_by_id org dto.pfand_type_id s)) [
      | inl n ↦ unresolved (not_found not_found_code) (rw n refl)
      | inr (t, found) ↦
          elim (resolve_lines_lem org dtos (total +ℤ t.amount *ℤ pos dto.quantity) s) [
            | unresolved x e ↦ unresolved x (rw (found, e) refl)
            | resolved ls e are ↦
                resolved (line_of dto t ∷ ls)
                  (rw (found, e, +ℤ_assoc total (t.amount *ℤ pos dto.quantity) (worth ls)) refl)
                  ((t, found, refl), are)
          ]
    ]

-- The two outcomes of a payout.
pub data Paid (org : ℕ) (dtos : List PfandReturnLineDto) (context : PfandReturnContext) (s : Store)
    (r : Result PfandReturn × Store) : Type 0 where
  nothing_paid : (x : Exception) → r ≡ (err x, s) → Paid org dtos context s r
  paid :
      (ls : List PfandReturnLine)
      → AreLines org s dtos ls
      → leb_ℤ (worth ls) (pos 0) ≡ false
      → r ≡ (
        ok (new_return org context ls (worth ls)),
        record s {
          next_id = suc s.next_id;
          pfand_returns = put s.next_id (new_return org context ls (worth ls)) s.pfand_returns;
        },
      )
      → Paid org dtos context s r

-- A payout of deposits either raises and writes nothing, or books one return with the lines that were
-- asked for, in their order, each at the amount of its deposit type of the organization, and with the
-- sum of the lines, which is above zero, as its total.
pub create_return_lem :
    (org : ℕ) (dtos : List PfandReturnLineDto) (context : PfandReturnContext) (s : Store)
    → Paid org dtos context s (create_return org dtos context s)
unfolding create_return
create_return_lem org dtos context s = elim (resolve_lines_lem org dtos (pos 0) s) [
  | unresolved x e ↦ nothing_paid x (rw e refl)
  | resolved ls e are ↦ elim (Bool-cases (leb_ℤ (worth ls) (pos 0))) [
    | inl y ↦ nothing_paid (bad_request validation_error) (rw (e, zero_+ℤ (worth ls), y) refl)
    | inr n ↦ paid ls are n (rw (e, zero_+ℤ (worth ls), n) refl)
  ]
]
