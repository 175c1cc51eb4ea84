-- ===== src/Shifts/Verified.antt =====
-- The status of a registration and the verification of its address go together, whatever
-- src/modules/shifts/shifts.service.ts is asked for.
use openeos_api.Base.{
  ℕ, suc, ◌≡◌, refl, inl, inr, Bool, true, false, not, ◌&&◌, none, List, [], ◌∷◌, ◌==◌, leb,
  is_some, get, put, keep, map, All, find_first, Bool-cases,
}
use openeos_api.Entities.{Shift, ShiftRegistration, ShiftRegistrationStatus}
use openeos_api.Store.{Store, Result, or_raise, raise_if, type_error, not_found, no_code}
use openeos_api.Store.Reads.{Reads, returns, Reads-bind, Reads-or_raise, Reads-raise_if}
use openeos_api.Shifts.{
  RegisterDto, find_plan_by_slug, save_registration, check_shifts, register_all,
  find_registration_with_access, update_group, verified, approved, awaits_approval, with_status,
  new_registration, plan_of, is_published, confirmed_count,
}

-- Who waits for the mail has not verified the address, who waits for the approval has.
pub record IsRight (r : ShiftRegistration) : Type 0 where
  pub unverified : r.status ≡ ShiftRegistrationStatus.pending_email → r.email_verified_at ≡ none
  pub verified_first :
      r.status ≡ ShiftRegistrationStatus.pending_approval → is_some r.email_verified_at ≡ true

abbrev pub AllRight : List (ℕ × ShiftRegistration) → Type 0
AllRight rows = All (λ row. IsRight row.1) rows

-- A status that waits for nothing is right.
pub settled-IsRight :
    (r : ShiftRegistration)
    → (r.status ≡ ShiftRegistrationStatus.pending_email → ⊥)
    → (r.status ≡ ShiftRegistrationStatus.pending_approval → ⊥)
    → IsRight r
settled-IsRight r a b = record {
  unverified = λ h. absurd (a h);
  verified_first = λ h. absurd (b h);
}

pub put-AllRight :
    (k : ℕ) (r : ShiftRegistration) (rows : List (ℕ × ShiftRegistration))
    → IsRight r
    → AllRight rows
    → AllRight (put k r rows)
unfolding put
put-AllRight k r [] h a = (h, tt)
put-AllRight k r ((j, q) ∷ rows) h a = elim (Bool-cases (j == k)) [
  | inl y ↦ rw y (h, a.1)
  | inr n ↦ rw n (a.0, put-AllRight k r rows h a.1)
]

pub keep-AllRight :
    (p : ℕ × ShiftRegistration → Bool) (rows : List (ℕ × ShiftRegistration))
    → AllRight rows
    → AllRight (keep p rows)
keep-AllRight p [] a = tt
keep-AllRight p (row ∷ rows) a = elim (Bool-cases (p row)) [
  | inl y ↦ rw y (a.0, keep-AllRight p rows a.1)
  | inr n ↦ rw n (keep-AllRight p rows a.1)
]

pub update_group-AllRight :
    (group : ℕ) (f : ShiftRegistration → ShiftRegistration) (rows : List (ℕ × ShiftRegistration))
    → ((r : ShiftRegistration) → IsRight r → IsRight (f r))
    → AllRight rows
    → AllRight (map (update_group group f) rows)
update_group-AllRight group f [] h a = tt
update_group-AllRight group f ((k, r) ∷ rows) h a =
    elim (Bool-cases (r.registration_group_id == group)) [
      | inl y ↦ rw y (h r a.0, update_group-AllRight group f rows h a.1)
      | inr n ↦ rw n (a.0, update_group-AllRight group f rows h a.1)
    ]

pub verified-IsRight :
    (now : ℕ) (approval : Bool) (r : ShiftRegistration) → IsRight (verified now approval r)
verified-IsRight now true r = record { unverified = λ h. cc; verified_first = λ h. refl }
verified-IsRight now false r = record { unverified = λ h. cc; verified_first = λ h. refl }

pub approved-IsRight : (r : ShiftRegistration) → IsRight r → IsRight (approved r)
approved-IsRight r h = elim (Bool-cases (awaits_approval r.status)) [
  | inl y ↦
      rw y (settled-IsRight (with_status ShiftRegistrationStatus.confirmed r) (λ e. cc) (λ e. cc))
  | inr n ↦ rw n h
]

abbrev pub After {ℓ} : {A : Type ℓ} → Result A × Store → Type 0
After r = AllRight r.1.registrations

pub Reads-find_plan : (slug : ℕ) (s : Store) → Reads (find_plan_by_slug slug s) s
unfolding find_plan_by_slug
Reads-find_plan slug s =
    Reads-or_raise
      (find_first (λ row. row.1.public_slug == slug && is_published row.1.status) s.shift_plans) _ s

pub Reads-check_shifts :
    (pid : ℕ) (shifts : List (ℕ × Shift)) (s : Store) → Reads (check_shifts pid shifts s) s
unfolding check_shifts
Reads-check_shifts pid [] s = returns tt refl
Reads-check_shifts pid ((sid, h) ∷ rest) s =
    Reads-bind (raise_if (not (h.shift_plan_id == pid)) _) _ s (Reads-raise_if _ _ s) λ _ _.
      Reads-bind (raise_if (leb h.required_workers (confirmed_count sid s.registrations)) _) _ s
        (Reads-raise_if _ _ s) λ _ _. Reads-check_shifts pid rest s

pub Reads-find_registration :
    (org rid : ℕ) (s : Store) → Reads (find_registration_with_access org rid s) s
unfolding find_registration_with_access
Reads-find_registration org rid s =
    Reads-bind (or_raise (get rid s.registrations) (not_found no_code)) _ s
      (Reads-or_raise (get rid s.registrations) _ s)
      λ r _.
        Reads-bind (or_raise (plan_of r s) type_error) _ s (Reads-or_raise (plan_of r s) _ s)
          λ plan _.
            Reads-bind (raise_if (not (plan.organization_id == org)) _) _ s (Reads-raise_if _ _ s)
              λ _ _. returns (r, plan) refl

pub register_all-AllRight :
    (group token : ℕ) (dto : RegisterDto) (shifts : List (ℕ × Shift)) (s : Store)
    → AllRight s.registrations
    → AllRight (register_all group token dto shifts s).1.registrations
unfolding register_all save_registration
register_all-AllRight group token dto [] s a = a
register_all-AllRight group token dto ((sid, h) ∷ rest) s a =
    register_all-AllRight group (suc s.next_id) dto rest _ (
      put-AllRight s.next_id (new_registration sid group token dto) s.registrations
        (record { unverified = λ e. refl; verified_first = λ e. cc }) a)
