-- ===== src/Entities/ShiftRows.antt =====
-- Shift plans and the registrations of helpers: src/database/entities/{shift-plan,shift,
-- shift-registration,helper-magic-link}.entity.ts. A shift carries the plan of its job; an address or a token is a number.
use openeos_api.Base.{List, ℕ, Bool, Option, String}

pub data ShiftPlanStatus : Type 0 where
  draft published closed : ShiftPlanStatus

pub record ShiftPlan : Type 0 where
  pub organization_id : ℕ
  pub public_slug : ℕ
  pub status : ShiftPlanStatus
  pub require_approval : Bool
  pub max_shifts_per_person : Option ℕ

pub record Shift : Type 0 where
  pub shift_plan_id : ℕ
  pub required_workers : ℕ

pub data ShiftRegistrationStatus : Type 0 where
  pending_email pending_approval confirmed rejected cancelled : ShiftRegistrationStatus

pub record ShiftRegistration : Type 0 where
  pub shift_id : ℕ
  pub registration_group_id : ℕ
  pub name : String
  pub email : Option ℕ
  pub phone : Option String
  pub notes : Option String
  pub status : ShiftRegistrationStatus
  pub email_verified_at : Option ℕ
  pub verification_token : ℕ
  pub admin_notes : Option String

pub record HelperMagicLink : Type 0 where
  pub shift_plan_id : ℕ
  pub email : ℕ
  pub expires_at : ℕ
  pub used_at : Option ℕ

pub data ShiftChangeProposalStatus : Type 0 where
  pending accepted declined expired : ShiftChangeProposalStatus

-- One staged operation: a registration for a shift, or the removal of a registration.
pub data ShiftChangeOp : Type 0 where
  add_op remove_op : ℕ → ShiftChangeOp

pub record ShiftChangeProposal : Type 0 where
  pub shift_plan_id : ℕ
  pub registration_group_id : ℕ
  pub ops : List ShiftChangeOp
  pub status : ShiftChangeProposalStatus
  pub responded_at : Option ℕ
