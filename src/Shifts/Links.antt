-- ===== src/Shifts/Links.antt =====
-- The magic links of src/modules/shifts/shifts.service.ts, by which a helper manages the own shifts. A
-- link is found under its token; `Env.lower` is the address in lower case, and an address has no blanks
-- around it.
pub mod Owner
use openeos_api.Base.{
  ℕ, Bool, true, false, not, ◌&&◌, Option, none, some, List, [], ◌∷◌, ◌==◌, leb, ltb, if◌then◌else◌,
  get, put, drop_row, is_some, find_first,
}
use openeos_api.Entities.{Shift, ShiftRegistration, ShiftRegistrationStatus, HelperMagicLink}
use openeos_api.Store.{
  Store, Env, M, pure, gets, modify, or_raise, raise_if, when, new_id, ◌>>=◌, ◌>>◌, bad_request,
  not_found, no_code,
}
use openeos_api.Shifts.{in_plan, confirmed_count, save_registration}

abbrev pub used : Env → HelperMagicLink → HelperMagicLink
used env l = record l { used_at = some env.now }

unfoldable pub find_valid_magic_link : Env → ℕ → M HelperMagicLink
find_valid_magic_link env token = do
  found ← gets λ s. get token s.magic_links
  l ← or_raise found (not_found no_code)
  raise_if (ltb l.expires_at env.now) (not_found no_code)
  when (not (is_some l.used_at))
      (modify λ s. record s { magic_links = put token (used env l) s.magic_links })
  pure l

-- The address of a registration in lower case is that of the link.
abbrev pub is_lower : Env → ℕ → Option ℕ → Bool
is_lower env email none = false
is_lower env email (some a) = env.lower a == email

abbrev pub owned : Env → HelperMagicLink → Option ShiftRegistration → Option ShiftRegistration
owned env l none = none
owned env l (some r) = if is_lower env l.email r.email then some r else none

unfoldable pub remove_shift_via_magic_link : Env → ℕ → ℕ → M (Unit {0})
unfolding find_valid_magic_link
remove_shift_via_magic_link env token rid = do
  l ← find_valid_magic_link env token
  found ← gets λ s. owned env l (get rid s.registrations)
  r ← or_raise found (not_found no_code)
  own_plan ← gets λ s. in_plan l.shift_plan_id (get r.shift_id s.shifts)
  raise_if (not own_plan) (bad_request no_code)
  modify λ s. record s { registrations = drop_row rid s.registrations }

-- The newest row that passes a test.
abbrev pub find_last :
    (ℕ × ShiftRegistration → Bool) → List (ℕ × ShiftRegistration) → Option (ℕ × ShiftRegistration)
find_last p [] = none
find_last p (row ∷ rows) = or_this (find_last p rows) (if p row then some row else none)
  where
    or_this :
        Option (ℕ × ShiftRegistration)
        → Option (ℕ × ShiftRegistration)
        → Option (ℕ × ShiftRegistration)
    or_this (some a) o = some a
    or_this none o = o

abbrev pub is_anchor : Env → HelperMagicLink → List (ℕ × Shift) → ℕ × ShiftRegistration → Bool
is_anchor env l shifts row =
    in_plan l.shift_plan_id (get row.1.shift_id shifts) && is_lower env l.email row.1.email

abbrev pub shift_of_plan : ℕ → Option Shift → Option Shift
shift_of_plan pid none = none
shift_of_plan pid (some h) = if h.shift_plan_id == pid then some h else none

abbrev pub inherited : Option ℕ → ShiftRegistrationStatus
inherited none = ShiftRegistrationStatus.pending_email
inherited (some at) = ShiftRegistrationStatus.confirmed

abbrev pub added : ℕ → ℕ → ShiftRegistration → ShiftRegistration
added sid token anchor = record anchor {
  shift_id = sid;
  status = inherited anchor.email_verified_at;
  verification_token = token;
}

abbrev pub is_booked : ℕ → ℕ → ℕ × ShiftRegistration → Bool
is_booked sid group row = row.1.shift_id == sid && row.1.registration_group_id == group

-- The registration that the helper has for the shift already, or a new one.
abbrev pub unless_booked :
    ℕ → ShiftRegistration → Option (ℕ × ShiftRegistration) → M ShiftRegistration
unless_booked sid anchor (some row) = pure row.1
unless_booked sid anchor none = do
  token ← new_id
  rid ← new_id
  save_registration rid (added sid token anchor)
  pure (added sid token anchor)

unfoldable pub add_shift_via_magic_link : Env → ℕ → ℕ → M ShiftRegistration
unfolding find_valid_magic_link save_registration
add_shift_via_magic_link env token sid = do
  l ← find_valid_magic_link env token
  shift_found ← gets λ s. shift_of_plan l.shift_plan_id (get sid s.shifts)
  h ← or_raise shift_found (bad_request no_code)
  taken ← gets λ s. confirmed_count sid s.registrations
  raise_if (leb h.required_workers taken) (bad_request no_code)
  anchor_found ← gets λ s. find_last (is_anchor env l s.shifts) s.registrations
  anchor ← or_raise anchor_found (not_found no_code)
  booked ← gets λ s. find_first (is_booked sid anchor.1.registration_group_id) s.registrations
  unless_booked sid anchor.1 booked
