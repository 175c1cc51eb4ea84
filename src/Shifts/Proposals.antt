-- ===== src/Shifts/Proposals.antt =====
-- respondToShiftProposal and updateRegistrationNotes of src/modules/shifts/shifts.service.ts: the answer
-- of a helper to the changes that an admin proposed, and the notes of an admin. A proposal is found under
-- its token.
pub mod Kept
use openeos_api.Base.{
  ℕ, Bool, true, false, not, Option, none, some, String, List, [], ◌∷◌, ◌==◌, find_first, get, put,
  drop_row,
}
use openeos_api.Entities.{
  ShiftRegistration, ShiftRegistrationStatus, ShiftChangeProposal, ShiftChangeProposalStatus,
  ShiftChangeOp,
}
use openeos_api.Store.{
  Store, Env, M, pure, gets, modify, or_raise, raise_if, new_id, ◌>>=◌, ◌>>◌, bad_request,
  not_found, no_code,
}
use openeos_api.Shifts.{find_registration_with_access, save_registration}

abbrev pub awaits_answer : ShiftChangeProposalStatus → Bool
awaits_answer ShiftChangeProposalStatus.pending = true
awaits_answer _ = false

abbrev pub answered : Env → ShiftChangeProposalStatus → ShiftChangeProposal → ShiftChangeProposal
answered env status p = record p { status = status; responded_at = some env.now }

unfoldable pub save_proposal : ℕ → ShiftChangeProposal → M (Unit {0})
save_proposal token p = modify λ s. record s { shift_proposals = put token p s.shift_proposals }

-- The registration that an operation adds, with the contact of a surviving one of the group.
abbrev pub accepted_row : ℕ → ℕ → ℕ → ShiftRegistration → ShiftRegistration
accepted_row group sid token r = record {
  shift_id = sid;
  registration_group_id = group;
  name = r.name;
  email = r.email;
  phone = r.phone;
  notes = r.notes;
  status = ShiftRegistrationStatus.confirmed;
  email_verified_at = none;
  verification_token = token;
  admin_notes = r.admin_notes;
}

abbrev pub add_for : ℕ → ℕ → Option (ℕ × ShiftRegistration) → M (Unit {0})
add_for group sid none = pure tt
add_for group sid (some row) = do
  token ← new_id
  rid ← new_id
  save_registration rid (accepted_row group sid token row.1)

abbrev pub apply_op : ℕ → Option (ℕ × ShiftRegistration) → ShiftChangeOp → M (Unit {0})
apply_op group surviving (ShiftChangeOp.remove_op rid) =
    modify λ s. record s { registrations = drop_row rid s.registrations }
apply_op group surviving (ShiftChangeOp.add_op sid) = add_for group sid surviving

unfoldable pub apply_ops : ℕ → Option (ℕ × ShiftRegistration) → List ShiftChangeOp → M (Unit {0})
unfolding save_registration
apply_ops group surviving [] = pure tt
apply_ops group surviving (op ∷ ops) = do apply_op group surviving op; apply_ops group surviving ops

abbrev pub in_group : ℕ → ℕ × ShiftRegistration → Bool
in_group group row = row.1.registration_group_id == group

-- What follows the checks; `true` is the action accept.
abbrev pub settle : Env → ℕ → ShiftChangeProposal → Bool → M ShiftChangeProposalStatus
settle env token p false = do
  save_proposal token (answered env ShiftChangeProposalStatus.declined p)
  pure ShiftChangeProposalStatus.declined
settle env token p true = do
  surviving ← gets λ s. find_first (in_group p.registration_group_id) s.registrations
  apply_ops p.registration_group_id surviving p.ops
  save_proposal token (answered env ShiftChangeProposalStatus.accepted p)
  pure ShiftChangeProposalStatus.accepted

unfoldable pub respond_to_shift_proposal : Env → ℕ → Bool → M ShiftChangeProposalStatus
unfolding apply_ops save_proposal
respond_to_shift_proposal env token accept = do
  found ← gets λ s. get token s.shift_proposals
  p ← or_raise found (not_found no_code)
  raise_if (not (awaits_answer p.status)) (bad_request no_code)
  settle env token p accept

abbrev pub noted : String → ShiftRegistration → ShiftRegistration
noted notes r = record r { admin_notes = some notes }

unfoldable pub update_registration_notes : ℕ → ℕ → String → M ShiftRegistration
unfolding find_registration_with_access save_registration
update_registration_notes org rid notes = do
  found ← find_registration_with_access org rid
  save_registration rid (noted notes found.0)
  pure (noted notes found.0)
