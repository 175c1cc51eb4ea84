-- ===== src/Shifts/Calls.antt =====
-- The methods of src/modules/shifts/shifts.service.ts on registrations that write, as one type of calls,
-- and what a sequence of calls keeps true.
use openeos_api.Base.{
  ℕ, suc, Bool, String, not, Option, none, some, List, [], ◌∷◌, ◌==◌, ◌+◌, get, keep, length,
  find_first,
}
use openeos_api.Entities.{ShiftPlan, ShiftRegistration, ShiftRegistrationStatus}
use openeos_api.Store.{Store, Env, Result, ok, err, ◌>>=◌, ◌>>◌, and_then, new_id, pure}
use openeos_api.Store.Reads.{after_reads, after_some, after_guard}
use openeos_api.Shifts.{
  RegisterDto, AdminCreateRegistrationDto, find_plan_by_slug, save_registration, check_shifts,
  public_register, find_registration_with_access, verify_group, verify_email,
  mark_registration_verified, approve_registration, reject_registration, delete_registration,
  remove_single_registration, admin_create_registration, unless_verified, verified, approved,
  awaits_approval, with_status, out_of_group, is_listed, existing_count, exceeds, created, plan_of,
  plan_of_shift, group_or_new,
}
use openeos_api.Shifts.Links.{remove_shift_via_magic_link, add_shift_via_magic_link}
use openeos_api.Shifts.Proposals.{respond_to_shift_proposal, update_registration_notes}
use openeos_api.Shifts.Proposals.Kept.{respond-AllRight, notes-AllRight}
use openeos_api.Shifts.Edits.{
  AdminUpdateRegistrationDto, admin_update_registration, admin_update-AllRight,
}
use openeos_api.Shifts.Links.Owner.{remove-AllRight, add-AllRight}
use openeos_api.Shifts.Verified.{
  AllRight, After, put-AllRight, keep-AllRight, update_group-AllRight, verified-IsRight,
  approved-IsRight, settled-IsRight, Reads-find_plan, Reads-check_shifts, Reads-find_registration,
  register_all-AllRight,
}

then_pure :
    {A B : Type 0} (r : Result A × Store) (b : B) → After r → After (and_then r λ _ t. (ok b, t))
then_pure (ok a, t) b v = v
then_pure (err x, t) b v = v

public_register-AllRight :
    (slug : ℕ) (dto : RegisterDto) (s : Store)
    → AllRight s.registrations
    → AllRight (public_register slug dto s).1.registrations
unfolding public_register
public_register-AllRight slug dto s a =
    after_reads After (find_plan_by_slug slug) _ s (λ x. a) (Reads-find_plan slug s)
      λ plan _.
        let shifts = keep (is_listed dto.shift_ids) s.shifts in
        after_guard After (not (length shifts == length dto.shift_ids)) _ _ s a λ _.
          after_reads After (check_shifts plan.0 shifts) _ s (λ x. a)
            (Reads-check_shifts plan.0 shifts s)
            λ _ _.
              after_guard After
                (exceeds plan.1.max_shifts_per_person
                  (existing_count plan.0 dto.email s + length dto.shift_ids))
                _ _ s a λ _. then_pure _ _ (register_all-AllRight _ _ dto shifts _ a)

unless_verified-AllRight :
    (env : Env) (o : Option ℕ) (r : ShiftRegistration) (plan : ShiftPlan) (s : Store)
    → AllRight s.registrations
    → AllRight (unless_verified env o r plan s).1.registrations
unfolding verify_group
unless_verified-AllRight env (some at) r plan s a = a
unless_verified-AllRight env none r plan s a =
    update_group-AllRight r.registration_group_id (verified env.now plan.require_approval)
      s.registrations (λ q _. verified-IsRight env.now plan.require_approval q) a

verify_email-AllRight :
    (env : Env) (token : ℕ) (s : Store)
    → AllRight s.registrations
    → AllRight (verify_email env token s).1.registrations
unfolding verify_email
verify_email-AllRight env token s a =
    after_some After (find_first (λ row. row.1.verification_token == token) s.registrations) _ _ s a
      λ row _.
        after_some After (plan_of row.1 s) _ _ s a
          λ plan _. unless_verified-AllRight env row.1.email_verified_at row.1 plan s a

mark-AllRight :
    (env : Env) (org rid : ℕ) (s : Store)
    → AllRight s.registrations
    → AllRight (mark_registration_verified env org rid s).1.registrations
unfolding mark_registration_verified
mark-AllRight env org rid s a =
    after_reads After (find_registration_with_access org rid) _ s (λ x. a)
      (Reads-find_registration org rid s)
      λ found _. unless_verified-AllRight env found.0.email_verified_at found.0 found.1 s a

approve-AllRight :
    (org rid : ℕ) (s : Store)
    → AllRight s.registrations
    → AllRight (approve_registration org rid s).1.registrations
unfolding approve_registration save_registration
approve-AllRight org rid s a =
    after_reads After (find_registration_with_access org rid) _ s (λ x. a)
      (Reads-find_registration org rid s)
      λ found _. after_guard After (not (awaits_approval found.0.status)) _ _ s a λ _.
        let r = with_status ShiftRegistrationStatus.confirmed found.0 in
        update_group-AllRight found.0.registration_group_id approved _ approved-IsRight
          (put-AllRight rid r s.registrations (settled-IsRight r (λ e. cc) (λ e. cc)) a)

reject-AllRight :
    (org rid : ℕ) (s : Store)
    → AllRight s.registrations
    → AllRight (reject_registration org rid s).1.registrations
unfolding reject_registration
reject-AllRight org rid s a =
    after_reads After (find_registration_with_access org rid) _ s (λ x. a)
      (Reads-find_registration org rid s)
      λ found _.
        update_group-AllRight found.0.registration_group_id
          (with_status ShiftRegistrationStatus.rejected) s.registrations
          (λ r _.
            settled-IsRight (with_status ShiftRegistrationStatus.rejected r) (λ e. cc) (λ e. cc))
          a

delete-AllRight :
    (org rid : ℕ) (s : Store)
    → AllRight s.registrations
    → AllRight (delete_registration org rid s).1.registrations
unfolding delete_registration
delete-AllRight org rid s a =
    after_reads After (find_registration_with_access org rid) _ s (λ x. a)
      (Reads-find_registration org rid s)
      λ found _. keep-AllRight (out_of_group found.0.registration_group_id) s.registrations a

remove_single-AllRight :
    (org rid : ℕ) (s : Store)
    → AllRight s.registrations
    → AllRight (remove_single_registration org rid s).1.registrations
unfolding remove_single_registration
remove_single-AllRight org rid s a =
    after_reads After (find_registration_with_access org rid) _ s (λ x. a)
      (Reads-find_registration org rid s) λ _ _. keep-AllRight _ s.registrations a

in_group-AllRight :
    (sid : ℕ) (dto : AdminCreateRegistrationDto) (o : Option ℕ) (s : Store)
    → AllRight s.registrations
    → After (
        (group_or_new o >>= λ group. new_id >>= λ token. new_id >>= λ rid.
        save_registration rid (created sid group token dto) >> pure (created sid group token dto))
          s)
unfolding save_registration
in_group-AllRight sid dto (some group) s a =
    put-AllRight (suc s.next_id) (created sid group s.next_id dto) s.registrations
      (settled-IsRight (created sid group s.next_id dto) (λ e. cc) (λ e. cc)) a
in_group-AllRight sid dto none s a =
    put-AllRight (suc (suc s.next_id)) (created sid s.next_id (suc s.next_id) dto) s.registrations
      (settled-IsRight (created sid s.next_id (suc s.next_id) dto) (λ e. cc) (λ e. cc)) a

admin_create-AllRight :
    (org sid : ℕ) (dto : AdminCreateRegistrationDto) (s : Store)
    → AllRight s.registrations
    → AllRight (admin_create_registration org sid dto s).1.registrations
unfolding admin_create_registration save_registration
admin_create-AllRight org sid dto s a = after_some After (get sid s.shifts) _ _ s a λ h _.
    after_some After (plan_of_shift (some h) s) _ _ s a λ plan _.
      after_guard After (not (plan.organization_id == org)) _ _ s a
        λ _. in_group-AllRight sid dto dto.registration_group_id s a

pub data ShiftCall : Type 0 where
  register_call : ℕ → RegisterDto → ShiftCall
  verify_call : ℕ → ShiftCall
  mark_call approve_call reject_call delete_call remove_call : ℕ → ℕ → ShiftCall
  admin_create_call : ℕ → ℕ → AdminCreateRegistrationDto → ShiftCall
  link_remove_call link_add_call : ℕ → ℕ → ShiftCall
  update_call : ℕ → ℕ → AdminUpdateRegistrationDto → ShiftCall
  notes_call : ℕ → ℕ → String → ShiftCall
  respond_call : ℕ → Bool → ShiftCall

unfoldable pub serve_shifts : Env → ShiftCall → Store → Store
serve_shifts env (register_call slug dto) s = (public_register slug dto s).1
serve_shifts env (verify_call token) s = (verify_email env token s).1
serve_shifts env (mark_call org rid) s = (mark_registration_verified env org rid s).1
serve_shifts env (approve_call org rid) s = (approve_registration org rid s).1
serve_shifts env (reject_call org rid) s = (reject_registration org rid s).1
serve_shifts env (delete_call org rid) s = (delete_registration org rid s).1
serve_shifts env (remove_call org rid) s = (remove_single_registration org rid s).1
serve_shifts env (admin_create_call org sid dto) s = (admin_create_registration org sid dto s).1
serve_shifts env (link_remove_call token rid) s = (remove_shift_via_magic_link env token rid s).1
serve_shifts env (link_add_call token sid) s = (add_shift_via_magic_link env token sid s).1
serve_shifts env (update_call org rid dto) s = (admin_update_registration env org rid dto s).1
serve_shifts env (notes_call org rid notes) s = (update_registration_notes org rid notes s).1
serve_shifts env (respond_call token accept) s = (respond_to_shift_proposal env token accept s).1

unfoldable pub serve_registrations : List (Env × ShiftCall) → Store → Store
unfolding serve_shifts
serve_registrations [] s = s
serve_registrations ((env, c) ∷ cs) s = serve_registrations cs (serve_shifts env c s)

serve_shifts-AllRight :
    (env : Env) (c : ShiftCall) (s : Store)
    → AllRight s.registrations
    → AllRight (serve_shifts env c s).registrations
unfolding serve_shifts
serve_shifts-AllRight env (register_call slug dto) s a = public_register-AllRight slug dto s a
serve_shifts-AllRight env (verify_call token) s a = verify_email-AllRight env token s a
serve_shifts-AllRight env (mark_call org rid) s a = mark-AllRight env org rid s a
serve_shifts-AllRight env (approve_call org rid) s a = approve-AllRight org rid s a
serve_shifts-AllRight env (reject_call org rid) s a = reject-AllRight org rid s a
serve_shifts-AllRight env (delete_call org rid) s a = delete-AllRight org rid s a
serve_shifts-AllRight env (remove_call org rid) s a = remove_single-AllRight org rid s a
serve_shifts-AllRight env (admin_create_call org sid dto) s a =
    admin_create-AllRight org sid dto s a
serve_shifts-AllRight env (link_remove_call token rid) s a = remove-AllRight env token rid s a
serve_shifts-AllRight env (link_add_call token sid) s a = add-AllRight env token sid s a
serve_shifts-AllRight env (update_call org rid dto) s a = admin_update-AllRight env org rid dto s a
serve_shifts-AllRight env (notes_call org rid notes) s a = notes-AllRight org rid notes s a
serve_shifts-AllRight env (respond_call token accept) s a = respond-AllRight env token accept s a

-- After any sequence of the calls that write registrations, from a store where it is so: a registration that waits
-- for the mail has no verified address, and one that waits for the approval has one.
pub serve_registrations-AllRight :
    (calls : List (Env × ShiftCall)) (s : Store)
    → AllRight s.registrations
    → AllRight (serve_registrations calls s).registrations
unfolding serve_registrations
serve_registrations-AllRight [] s a = a
serve_registrations-AllRight ((env, c) ∷ cs) s a =
    serve_registrations-AllRight cs (serve_shifts env c s) (serve_shifts-AllRight env c s a)
