-- ===== src/Shifts/Edits.antt =====
-- adminUpdateRegistration of src/modules/shifts/shifts.service.ts: an admin edits a registration, or moves
-- it to another shift of the plan. The mail about a move is not modelled.
use openeos_api.Base.{
  ℕ, refl, not, Option, none, some, String, ◌==◌, get, get_or, if◌then◌else◌, Bool-cases, inl, inr,
}
use openeos_api.Entities.{ShiftRegistration}
use openeos_api.Store.{
  Store, Env, M, pure, gets, or_raise, raise_if, ◌>>=◌, ◌>>◌, bad_request, not_found, no_code,
  type_error,
}
use openeos_api.Store.Reads.{
  Reads, returns, after_reads, Reads-bind, Reads-or_raise, Reads-raise_if,
}
use openeos_api.Orders.Rows.{or_null}
use openeos_api.Shifts.{find_registration_with_access, save_registration, plan_of_shift, in_plan}
use openeos_api.Shifts.Verified.{AllRight, After, put-AllRight, Reads-find_registration}
use openeos_api.Shifts.Proposals.Kept.{stored-IsRight, find_registration-stored}

pub record AdminUpdateRegistrationDto : Type 0 where
  pub name : Option String
  pub email : Option ℕ
  pub phone : Option String
  pub notes : Option String
  pub admin_notes : Option String
  pub shift_id : Option ℕ

-- A text that the request has replaces the old one, an empty one by null.
abbrev pub replaced : Option String → Option String → Option String
replaced none old = old
replaced (some text) old = or_null (some text)

abbrev pub replaced_email : Option ℕ → Option ℕ → Option ℕ
replaced_email none old = old
replaced_email (some email) old = some email

abbrev pub edited : ℕ → AdminUpdateRegistrationDto → ShiftRegistration → ShiftRegistration
edited sid dto r = record r {
  shift_id = sid;
  name = get_or dto.name r.name;
  email = replaced_email dto.email r.email;
  phone = replaced dto.phone r.phone;
  notes = replaced dto.notes r.notes;
  admin_notes = replaced dto.admin_notes r.admin_notes;
}

-- The other shift must be one of the organization and of the same plan.
unfoldable pub move_to : ℕ → ShiftRegistration → ℕ → M ℕ
move_to org r sid = do
  found ← gets λ s. get sid s.shifts
  h ← or_raise found (not_found no_code)
  plan_found ← gets (plan_of_shift (some h))
  plan ← or_raise plan_found type_error
  raise_if (not (plan.organization_id == org)) (not_found no_code)
  same_plan ← gets λ s. in_plan h.shift_plan_id (get r.shift_id s.shifts)
  raise_if (not same_plan) (bad_request no_code)
  pure sid

abbrev pub target_shift : ℕ → ShiftRegistration → Option ℕ → M ℕ
target_shift org r none = pure r.shift_id
target_shift org r (some sid) = if sid == r.shift_id then pure r.shift_id else move_to org r sid

-- `shift` stays loaded with the old row while `shiftId` changes.
unfoldable pub admin_update_registration :
    Env → ℕ → ℕ → AdminUpdateRegistrationDto → M ShiftRegistration
unfolding find_registration_with_access move_to save_registration
admin_update_registration env org rid dto = do
  found ← find_registration_with_access org rid
  sid ← target_shift org found.0 dto.shift_id
  save_registration rid (edited (env.foreign_key found.0.shift_id sid) dto found.0)
  pure (edited sid dto found.0)

Reads-move_to :
    (org : ℕ) (r : ShiftRegistration) (sid : ℕ) (s : Store) → Reads (move_to org r sid s) s
unfolding move_to
Reads-move_to org r sid s =
    Reads-bind (or_raise (get sid s.shifts) (not_found no_code)) _ s
      (Reads-or_raise (get sid s.shifts) _ s)
      λ h _.
        Reads-bind (or_raise (plan_of_shift (some h) s) type_error) _ s
          (Reads-or_raise (plan_of_shift (some h) s) _ s)
          λ plan _.
            Reads-bind (raise_if (not (plan.organization_id == org)) _) _ s (Reads-raise_if _ _ s)
              λ _ _.
                Reads-bind (raise_if (not (in_plan h.shift_plan_id (get r.shift_id s.shifts))) _) _
                  s (Reads-raise_if _ _ s) λ _ _. returns sid refl

Reads-target_shift :
    (org : ℕ) (r : ShiftRegistration) (o : Option ℕ) (s : Store) → Reads (target_shift org r o s) s
Reads-target_shift org r none s = returns r.shift_id refl
Reads-target_shift org r (some sid) s = elim (Bool-cases (sid == r.shift_id)) [
  | inl y ↦ rw y (returns r.shift_id refl)
  | inr n ↦ rw n (Reads-move_to org r sid s)
]

-- The edit keeps what Verified says of registrations.
pub admin_update-AllRight :
    (env : Env) (org rid : ℕ) (dto : AdminUpdateRegistrationDto) (s : Store)
    → AllRight s.registrations
    → AllRight (admin_update_registration env org rid dto s).1.registrations
unfolding admin_update_registration save_registration
admin_update-AllRight env org rid dto s a =
    after_reads After (find_registration_with_access org rid) _ s (λ x. a)
      (Reads-find_registration org rid s)
      λ found e.
        after_reads After (target_shift org found.0 dto.shift_id) _ s (λ x. a)
          (Reads-target_shift org found.0 dto.shift_id s)
          λ sid _.
            let right =
              stored-IsRight rid s.registrations (find_registration-stored org rid s s found e) a in
            put-AllRight rid (edited (env.foreign_key found.0.shift_id sid) dto found.0)
              s.registrations
              (record { unverified = right.unverified; verified_first = right.verified_first }) a
