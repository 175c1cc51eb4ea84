-- ===== src/PfandReturns.antt =====
-- src/modules/pfand-types/pfand-returns.service.ts: the payout of deposits. The cash drawer and the
-- announcement, which follow the save, are not modelled.
pub mod Outcome
mod Tests
use openeos_api.Base.{
  ℕ, ℤ, pos, ◌+ℤ◌, ◌*ℤ◌, leb_ℤ, Option, none, some, List, [], ◌∷◌, ◌==◌, if◌then◌else◌, get, put,
}
use openeos_api.Entities.{PfandType, PfandReturn, PfandReturnLine}
use openeos_api.Store.{
  Store, M, pure, gets, modify, or_raise, raise_if, new_id, ◌>>=◌, ◌>>◌, bad_request, not_found,
  not_found_code, validation_error,
}

pub record PfandReturnLineDto : Type 0 where
  pub pfand_type_id : ℕ
  pub quantity : ℕ

pub record PfandReturnContext : Type 0 where
  pub event_id : Option ℕ
  pub device_id : Option ℕ
  pub user_id : Option ℕ

-- `typeById.get(id)`: the type, if it is one of the organization.
abbrev pub type_in : ℕ → Option PfandType → Option PfandType
type_in org none = none
type_in org (some t) = if t.organization_id == org then some t else none

abbrev pub type_by_id : ℕ → ℕ → Store → Option PfandType
type_by_id org tid s = type_in org (get tid s.pfand_types)

abbrev pub line_of : PfandReturnLineDto → PfandType → PfandReturnLine
line_of dto t = record {
  pfand_type_id = dto.pfand_type_id;
  name = t.name;
  unit_amount = t.amount;
  quantity = dto.quantity;
}

-- The loop: the lines in their order, and what is added up so far.
unfoldable pub resolve_lines : ℕ → List PfandReturnLineDto → ℤ → M (List PfandReturnLine × ℤ)
resolve_lines org [] total = pure ([], total)
resolve_lines org (dto ∷ dtos) total = do
  found ← gets (type_by_id org dto.pfand_type_id)
  t ← or_raise found (not_found not_found_code)
  rest ← resolve_lines org dtos (total +ℤ t.amount *ℤ pos dto.quantity)
  pure (line_of dto t ∷ rest.0, rest.1)

abbrev pub new_return : ℕ → PfandReturnContext → List PfandReturnLine → ℤ → PfandReturn
new_return org context lines total = record {
  organization_id = org;
  event_id = context.event_id;
  device_id = context.device_id;
  created_by_user_id = context.user_id;
  total_amount = total;
  lines = lines;
}

unfoldable pub create_return : ℕ → List PfandReturnLineDto → PfandReturnContext → M PfandReturn
unfolding resolve_lines
create_return org dtos context = do
  resolved ← resolve_lines org dtos (pos 0)
  raise_if (leb_ℤ resolved.1 (pos 0)) (bad_request validation_error)
  rid ← new_id
  modify λ s. record s {
    pfand_returns = put rid (new_return org context resolved.0 resolved.1) s.pfand_returns;
  }
  pure (new_return org context resolved.0 resolved.1)
