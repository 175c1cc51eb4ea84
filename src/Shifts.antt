-- ===== src/Shifts.antt =====
-- The registrations of src/modules/shifts/shifts.service.ts: of helpers, by admins, and what becomes of
-- them. Random tokens and group ids are fresh numbers. Not modelled: plans, jobs and shifts themselves,
-- mails and messages, and the making of proposals. Magic links are in Links, the answers to proposals in
-- Proposals, the edit by an admin in Edits.
pub mod Links
pub mod Proposals
pub mod Edits
pub mod Verified
pub mod Calls
pub mod Limit
mod Tests
use openeos_api.Base.{
  ℕ, suc, ◌+◌, Bool, true, false, not, ◌&&◌, ◌||◌, Option, none, some, String, List, [], ◌∷◌, ◌==◌,
  leb, ltb, is_empty, is_some, exists, keep, find_first, map, length, if◌then◌else◌, get, put,
  drop_row, get_or,
}
use openeos_api.Entities.{
  ShiftPlan, ShiftPlanStatus, Shift, ShiftRegistration, ShiftRegistrationStatus,
}
use openeos_api.Orders.Rows.{or_null}
use openeos_api.Store.{
  Store, Env, M, pure, raise, gets, modify, or_raise, raise_if, new_id, ◌>>=◌, ◌>>◌, bad_request,
  not_found, no_code, type_error,
}

pub record RegisterDto : Type 0 where
  pub name : String
  pub email : ℕ
  pub shift_ids : List ℕ
  pub phone : Option String
  pub notes : Option String

pub record AdminCreateRegistrationDto : Type 0 where
  pub registration_group_id : Option ℕ
  pub name : String
  pub email : Option ℕ
  pub phone : Option String
  pub notes : Option String
  pub admin_notes : Option String

abbrev pub is_published : ShiftPlanStatus → Bool
is_published ShiftPlanStatus.published = true
is_published _ = false

abbrev pub is_confirmed : ShiftRegistrationStatus → Bool
is_confirmed ShiftRegistrationStatus.confirmed = true
is_confirmed _ = false

abbrev pub awaits_approval : ShiftRegistrationStatus → Bool
awaits_approval ShiftRegistrationStatus.pending_approval = true
awaits_approval _ = false

-- `status NOT IN (rejected, cancelled)`
abbrev pub is_live : ShiftRegistrationStatus → Bool
is_live ShiftRegistrationStatus.rejected = false
is_live ShiftRegistrationStatus.cancelled = false
is_live _ = true

unfoldable pub find_plan_by_slug : ℕ → M (ℕ × ShiftPlan)
find_plan_by_slug slug = do
  found ←
      gets λ s.
        find_first (λ row. row.1.public_slug == slug && is_published row.1.status) s.shift_plans
  or_raise found (not_found no_code)

unfoldable pub save_registration : ℕ → ShiftRegistration → M (Unit {0})
save_registration rid r = modify λ s. record s { registrations = put rid r s.registrations }

abbrev pub of_shift : ℕ → ℕ × ShiftRegistration → Bool
of_shift sid row = row.1.shift_id == sid && is_confirmed row.1.status

-- `registrations.filter((r) => r.status === CONFIRMED).length`
abbrev pub confirmed_count : ℕ → List (ℕ × ShiftRegistration) → ℕ
confirmed_count sid rows = length (keep (of_shift sid) rows)

unfoldable pub check_shifts : ℕ → List (ℕ × Shift) → M (Unit {0})
check_shifts pid [] = pure tt
check_shifts pid ((sid, h) ∷ rest) = do
  raise_if (not (h.shift_plan_id == pid)) (bad_request no_code)
  taken ← gets λ s. confirmed_count sid s.registrations
  raise_if (leb h.required_workers taken) (bad_request no_code)
  check_shifts pid rest

abbrev pub is_email : ℕ → Option ℕ → Bool
is_email email none = false
is_email email (some a) = a == email

abbrev pub in_plan : ℕ → Option Shift → Bool
in_plan pid none = false
in_plan pid (some h) = h.shift_plan_id == pid

-- The registrations that count for the limit of a person.
abbrev pub counts_for : ℕ → ℕ → List (ℕ × Shift) → ℕ × ShiftRegistration → Bool
counts_for pid email shifts row =
    in_plan pid (get row.1.shift_id shifts) && is_email email row.1.email && is_live row.1.status

abbrev pub existing_count : ℕ → ℕ → Store → ℕ
existing_count pid email s = length (keep (counts_for pid email s.shifts) s.registrations)

abbrev pub exceeds : Option ℕ → ℕ → Bool
exceeds none n = false
exceeds (some most) n = ltb 0 most && ltb most n

abbrev pub new_registration : ℕ → ℕ → ℕ → RegisterDto → ShiftRegistration
new_registration sid group token dto = record {
  shift_id = sid;
  registration_group_id = group;
  name = dto.name;
  email = some dto.email;
  phone = or_null dto.phone;
  notes = or_null dto.notes;
  status = ShiftRegistrationStatus.pending_email;
  email_verified_at = none;
  verification_token = token;
  admin_notes = none;
}

-- The loop over the shifts; the first registration takes the token of the mail.
unfoldable pub register_all : ℕ → ℕ → RegisterDto → List (ℕ × Shift) → M (Unit {0})
unfolding save_registration
register_all group token dto [] = pure tt
register_all group token dto ((sid, h) ∷ rest) = do
  rid ← new_id
  save_registration rid (new_registration sid group token dto)
  next_token ← new_id
  register_all group next_token dto rest

abbrev pub is_listed : List ℕ → ℕ × Shift → Bool
is_listed ids row = exists (λ i. i == row.0) ids

unfoldable pub public_register : ℕ → RegisterDto → M (ℕ × ℕ)
unfolding find_plan_by_slug check_shifts register_all
public_register slug dto = do
  plan ← find_plan_by_slug slug
  shifts ← gets λ s. keep (is_listed dto.shift_ids) s.shifts
  raise_if (not (length shifts == length dto.shift_ids)) (bad_request no_code)
  check_shifts plan.0 shifts
  existing ← gets (existing_count plan.0 dto.email)
  raise_if (exceeds plan.1.max_shifts_per_person (existing + length dto.shift_ids))
      (bad_request no_code)
  token ← new_id
  group ← new_id
  register_all group token dto shifts
  pure (group, length dto.shift_ids)

-- The plan of a registration, through its shift and its job.
abbrev pub plan_of_shift : Option Shift → Store → Option ShiftPlan
plan_of_shift none s = none
plan_of_shift (some h) s = get h.shift_plan_id s.shift_plans

abbrev pub plan_of : ShiftRegistration → Store → Option ShiftPlan
plan_of r s = plan_of_shift (get r.shift_id s.shifts) s

unfoldable pub find_registration_with_access : ℕ → ℕ → M (ShiftRegistration × ShiftPlan)
find_registration_with_access org rid = do
  found ← gets λ s. get rid s.registrations
  r ← or_raise found (not_found no_code)
  plan_found ← gets (plan_of r)
  plan ← or_raise plan_found type_error
  raise_if (not (plan.organization_id == org)) (not_found no_code)
  pure (r, plan)

-- The status after a verification.
abbrev pub verified_status : Bool → ShiftRegistrationStatus
verified_status true = ShiftRegistrationStatus.pending_approval
verified_status false = ShiftRegistrationStatus.confirmed

-- `update({ registrationGroupId }, …)`
abbrev pub update_group :
    ℕ → (ShiftRegistration → ShiftRegistration) → ℕ × ShiftRegistration → ℕ × ShiftRegistration
update_group group f (rid, r) = (rid, if r.registration_group_id == group then f r else r)

abbrev pub verified : ℕ → Bool → ShiftRegistration → ShiftRegistration
verified now approval r = record r {
  email_verified_at = some now;
  status = verified_status approval;
}

unfoldable pub verify_group : Env → ℕ → Bool → M (Unit {0})
verify_group env group approval = modify λ s. record s {
  registrations = map (update_group group (verified env.now approval)) s.registrations;
}

abbrev pub unless_verified :
    Env → Option ℕ → ShiftRegistration → ShiftPlan → M ShiftRegistrationStatus
unless_verified env (some at) r plan = pure r.status
unless_verified env none r plan = do
  verify_group env r.registration_group_id plan.require_approval
  pure (verified_status plan.require_approval)

unfoldable pub verify_email : Env → ℕ → M ShiftRegistrationStatus
unfolding verify_group
verify_email env token = do
  found ← gets λ s. find_first (λ row. row.1.verification_token == token) s.registrations
  row ← or_raise found (not_found no_code)
  plan_found ← gets (plan_of row.1)
  plan ← or_raise plan_found type_error
  unless_verified env row.1.email_verified_at row.1 plan

unfoldable pub mark_registration_verified : Env → ℕ → ℕ → M ShiftRegistrationStatus
unfolding find_registration_with_access verify_group
mark_registration_verified env org rid = do
  found ← find_registration_with_access org rid
  unless_verified env found.0.email_verified_at found.0 found.1

abbrev pub with_status : ShiftRegistrationStatus → ShiftRegistration → ShiftRegistration
with_status status r = record r { status = status }

abbrev pub approved : ShiftRegistration → ShiftRegistration
approved r = if awaits_approval r.status then with_status ShiftRegistrationStatus.confirmed r else r

unfoldable pub approve_registration : ℕ → ℕ → M ShiftRegistration
unfolding find_registration_with_access save_registration
approve_registration org rid = do
  found ← find_registration_with_access org rid
  raise_if (not (awaits_approval found.0.status)) (bad_request no_code)
  save_registration rid (with_status ShiftRegistrationStatus.confirmed found.0)
  modify λ s. record s {
    registrations = map (update_group found.0.registration_group_id approved) s.registrations;
  }
  pure (with_status ShiftRegistrationStatus.confirmed found.0)

unfoldable pub reject_registration : ℕ → ℕ → M ShiftRegistration
unfolding find_registration_with_access
reject_registration org rid = do
  found ← find_registration_with_access org rid
  modify λ s. record s {
    registrations =
        map
          (update_group found.0.registration_group_id
            (with_status ShiftRegistrationStatus.rejected))
          s.registrations;
  }
  pure found.0

abbrev pub out_of_group : ℕ → ℕ × ShiftRegistration → Bool
out_of_group group row = not (row.1.registration_group_id == group)

unfoldable pub delete_registration : ℕ → ℕ → M (Unit {0})
unfolding find_registration_with_access
delete_registration org rid = do
  found ← find_registration_with_access org rid
  modify λ s. record s {
    registrations = keep (out_of_group found.0.registration_group_id) s.registrations;
  }

unfoldable pub remove_single_registration : ℕ → ℕ → M (Unit {0})
unfolding find_registration_with_access
remove_single_registration org rid = do
  find_registration_with_access org rid
  modify λ s. record s { registrations = drop_row rid s.registrations }

abbrev pub group_or_new : Option ℕ → M ℕ
group_or_new (some group) = pure group
group_or_new none = new_id

abbrev pub created : ℕ → ℕ → ℕ → AdminCreateRegistrationDto → ShiftRegistration
created sid group token dto = record {
  shift_id = sid;
  registration_group_id = group;
  name = dto.name;
  email = dto.email;
  phone = or_null dto.phone;
  notes = or_null dto.notes;
  status = ShiftRegistrationStatus.confirmed;
  email_verified_at = none;
  verification_token = token;
  admin_notes = or_null dto.admin_notes;
}

unfoldable pub admin_create_registration : ℕ → ℕ → AdminCreateRegistrationDto → M ShiftRegistration
unfolding save_registration
admin_create_registration org sid dto = do
  found ← gets λ s. get sid s.shifts
  h ← or_raise found (not_found no_code)
  plan_found ← gets (plan_of_shift (some h))
  plan ← or_raise plan_found type_error
  raise_if (not (plan.organization_id == org)) (not_found no_code)
  group ← group_or_new dto.registration_group_id
  token ← new_id
  rid ← new_id
  save_registration rid (created sid group token dto)
  pure (created sid group token dto)
