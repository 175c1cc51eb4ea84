-- ===== src/Shifts/Tests.antt =====
-- Helpers register with src/modules/shifts/shifts.service.ts.
use openeos_api.Base.{
  ℕ, ◌≡◌, ◌≤◌, refl, arith, false, Option, none, some, List, [], ◌∷◌, get, put, drop_row,
}
use openeos_api.Entities.{ShiftPlan, ShiftPlanStatus, ShiftRegistration, ShiftRegistrationStatus}
use openeos_api.Samples.{signing, paid_store}
use openeos_api.Store.{Store, Env, ok}
use openeos_api.Shifts.{
  RegisterDto, find_plan_by_slug, check_shifts, register_all, public_register, save_registration,
  existing_count, confirmed_count, verify_group, verify_email, find_registration_with_access,
  reject_registration,
}
use openeos_api.Shifts.Verified.{AllRight}
use openeos_api.Shifts.Calls.{ShiftCall, serve_registrations, serve_registrations-AllRight}
use openeos_api.Shifts.Links.{remove_shift_via_magic_link, find_valid_magic_link}
use openeos_api.Shifts.Links.Owner.{IsOwn, remove_shift_via_magic_link_lem}
use openeos_api.Shifts.Limit.{public_register-limit}

-- Under the slug 8 helpers are confirmed without approval, each for one shift; shift 2 wants one worker.
abbrev plan : ShiftPlan
plan = record {
  organization_id = 1;
  public_slug = 8;
  status = ShiftPlanStatus.published;
  require_approval = false;
  max_shifts_per_person = some 1;
}

abbrev open_plan : Store
open_plan = record paid_store {
  shift_plans = (1, plan) ∷ [];
  shifts = (2, record { shift_plan_id = 1; required_workers = 1 }) ∷ [];
}

abbrev helper : ℕ → RegisterDto
helper email = record {
  name = "Kim";
  email = email;
  shift_ids = 2 ∷ [];
  phone = none;
  notes = none;
}

abbrev registered : Store
registered = (public_register 8 (helper 70) open_plan).1

-- Two helpers register for the one place, and both verify their address.
abbrev calls : List (Env × ShiftCall)
calls =
    (signing, ShiftCall.register_call 8 (helper 70))
    ∷ (signing, ShiftCall.register_call 8 (helper 71))
    ∷ (signing, ShiftCall.verify_call 30)
    ∷ (signing, ShiftCall.verify_call 34)
    ∷ []

serve_registrations-AllRight_example : AllRight (serve_registrations calls open_plan).registrations
serve_registrations-AllRight_example = serve_registrations-AllRight calls open_plan tt

-- The shift for one has two.
overbooked : confirmed_count 2 (serve_registrations calls open_plan).registrations ≡ 2
unfolding serve_registrations public_register find_plan_by_slug check_shifts register_all
    save_registration verify_email verify_group get put
overbooked = refl

plan_found : find_plan_by_slug 8 open_plan ≡ (ok (1, plan), open_plan)
unfolding find_plan_by_slug
plan_found = refl

abbrev registration : ShiftRegistration
registration = record {
  shift_id = 2;
  registration_group_id = 31;
  name = "Kim";
  email = some 70;
  phone = none;
  notes = none;
  status = ShiftRegistrationStatus.pending_email;
  email_verified_at = none;
  verification_token = 30;
  admin_notes = none;
}

abbrev after_register : Store
after_register = record open_plan { registrations = (32, registration) ∷ []; next_id = 34 }

register_run : public_register 8 (helper 70) open_plan ≡ (ok (31, 1), after_register)
unfolding public_register find_plan_by_slug check_shifts register_all save_registration get put
register_run = refl

public_register-limit_example : existing_count 1 70 after_register ≤ 1
public_register-limit_example =
    public_register-limit 8 1 1 plan (helper 70) (31, 1) open_plan after_register plan_found refl
      (omega arith) register_run

abbrev status_of : Option ShiftRegistration → Option ShiftRegistrationStatus
status_of none = none
status_of (some r) = some r.status

-- A helper who was rejected before the address was verified is confirmed by the link of the mail.
abbrev rejected_first : List (Env × ShiftCall)
rejected_first = (signing, ShiftCall.reject_call 1 32) ∷ (signing, ShiftCall.verify_call 30) ∷ []

rejected_is_confirmed :
    status_of (get 32 (serve_registrations rejected_first after_register).registrations)
    ≡ some ShiftRegistrationStatus.confirmed
unfolding serve_registrations reject_registration find_registration_with_access verify_email
    verify_group get
rejected_is_confirmed = refl

-- Link 77 is that of the helper with the address 70.
abbrev with_link : Store
with_link = record after_register {
  magic_links =
      (77, record { shift_plan_id = 1; email = 70; expires_at = 200; used_at = some 90 }) ∷ [];
}

remove_run :
    remove_shift_via_magic_link signing 77 32 with_link
    ≡ (ok tt, record with_link { registrations = [] })
unfolding remove_shift_via_magic_link find_valid_magic_link get put
remove_run = refl

remove_shift_via_magic_link_lem_example :
    ([] ≡ drop_row 32 with_link.registrations) × IsOwn signing 77 32 with_link
remove_shift_via_magic_link_lem_example =
    remove_shift_via_magic_link_lem signing 77 32 with_link
      (record with_link { registrations = [] }) remove_run
