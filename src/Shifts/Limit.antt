-- ===== src/Shifts/Limit.antt =====
-- publicRegister of src/modules/shifts/shifts.service.ts respects the limit of a plan, and a
-- verification may come twice.
use openeos_api.Base.{
  ℕ, suc, ◌≡◌, ◌≤◌, ◌<◌, ◌+◌, refl, inl, inr, arith, Bool, true, false, not, ◌&&◌, some, List, [],
  ◌∷◌, ◌==◌, ltb, if◌then◌else◌, put, keep, length, Bool-cases,
}
use openeos_api.Entities.{ShiftPlan, Shift, ShiftRegistration}
use openeos_api.Store.{Store, Result, ok, err, Exception}
use openeos_api.Store.Reads.{after_reads, after_guard}
use openeos_api.Shifts.{
  RegisterDto, find_plan_by_slug, save_registration, check_shifts, register_all, public_register,
  is_listed, existing_count, exceeds, counts_for, new_registration,
}
use openeos_api.Shifts.Verified.{Reads-check_shifts}

module _ {A : Type 0} where
  length-if_le :
      (b : Bool) (x : A) (xs : List A) → length (if b then x ∷ xs else xs) ≤ suc (length xs)
  length-if_le true x xs = omega arith
  length-if_le false x xs = omega arith

  length-if_ge : (b : Bool) (x : A) (xs : List A) → length xs ≤ length (if b then x ∷ xs else xs)
  length-if_ge true x xs = omega arith
  length-if_ge false x xs = omega arith

-- A save adds at most one to what a test counts.
length-keep-put :
    (p : ℕ × ShiftRegistration → Bool) (k : ℕ) (r : ShiftRegistration)
    (rows : List (ℕ × ShiftRegistration))
    → length (keep p (put k r rows)) ≤ suc (length (keep p rows))
unfolding put
length-keep-put p k r [] = length-if_le (p (k, r)) (k, r) []
length-keep-put p k r ((j, q) ∷ rows) = elim (Bool-cases (j == k)) [
  | inl y ↦ rw y (
      omega (
        arith,
        length-if_le (p (k, r)) (k, r) (keep p rows),
        length-if_ge (p (j, q)) (j, q) (keep p rows),
      ))
  | inr n ↦ rw n (elim (Bool-cases (p (j, q))) [
    | inl c ↦ rw c (omega (arith, length-keep-put p k r rows))
    | inr d ↦ rw d (length-keep-put p k r rows)
  ])
]

-- What the loop saves: at most one registration more for each shift.
record Registered (p : ℕ × ShiftRegistration → Bool) (n : ℕ) (s : Store)
    (r : Result (Unit {0}) × Store) : Type 0 where
  pub next : ℕ
  pub rows : List (ℕ × ShiftRegistration)
  pub run : r ≡ (ok tt, record s { next_id = next; registrations = rows })
  pub bound : length (keep p rows) ≤ length (keep p s.registrations) + n

register_all-Registered :
    (p : ℕ × ShiftRegistration → Bool) (group token : ℕ) (dto : RegisterDto)
    (shifts : List (ℕ × Shift)) (s : Store)
    → Registered p (length shifts) s (register_all group token dto shifts s)
unfolding register_all save_registration
register_all-Registered p group token dto [] s = record {
  next = s.next_id;
  rows = s.registrations;
  run = refl;
  bound = omega arith;
}
register_all-Registered p group token dto ((sid, h) ∷ rest) s =
    let r = new_registration sid group token dto in
    let after = register_all-Registered p group (suc s.next_id) dto rest (record s {
      next_id = suc (suc s.next_id);
      registrations = put s.next_id r s.registrations;
    }) in
    record {
      next = after.next;
      rows = after.rows;
      run = after.run;
      bound = omega (arith, after.bound, length-keep-put p s.next_id r s.registrations);
    }

-- An answer that raises, or after which at most `most` registrations count.
data Limited (pid email most : ℕ) : Result (ℕ × ℕ) × Store → Type 0 where
  refused : {t : Store} (x : Exception) → Limited pid email most (err x, t)
  within :
      {a : ℕ × ℕ} {t : Store} → existing_count pid email t ≤ most → Limited pid email most (ok a, t)

not_exceeded : (most n : ℕ) → 0 < most → (ltb 0 most && ltb most n) ≡ false → n ≤ most
not_exceeded most n h e = ground arith

same_length : (a b : ℕ) → not (a == b) ≡ false → a ≡ b
same_length a b h = ground arith

public_register-Limited :
    (slug pid most : ℕ) (plan : ShiftPlan) (dto : RegisterDto) (s : Store)
    → find_plan_by_slug slug s ≡ (ok (pid, plan), s)
    → plan.max_shifts_per_person ≡ some most
    → 0 < most
    → Limited pid dto.email most (public_register slug dto s)
unfolding public_register
public_register-Limited slug pid most plan dto s found limit some_limit =
    let shifts = keep (is_listed dto.shift_ids) s.shifts in
    let P = Limited pid dto.email most in
    rw found (
      after_guard P (not (length shifts == length dto.shift_ids)) _ _ s (refused _) λ all_there.
        after_reads P (check_shifts pid shifts) _ s refused (Reads-check_shifts pid shifts s) λ _ _.
          after_guard P
            (exceeds plan.max_shifts_per_person
              (existing_count pid dto.email s + length dto.shift_ids))
            _ _ s (refused _)
            λ fits.
              let count = not_exceeded most _ some_limit (rw limit at fits) in
              let done =
                register_all-Registered (counts_for pid dto.email s.shifts) (suc s.next_id)
                  s.next_id dto shifts (record s { next_id = suc (suc s.next_id) }) in
              rw done.run (within (omega (arith, done.bound, same_length _ _ all_there, count))))

-- A registration by a helper that returns, for a published plan with a limit of shifts for a person:
-- afterwards at most that many registrations of the plan that are neither rejected nor cancelled carry
-- the address of the helper.
pub public_register-limit :
    (slug pid most : ℕ) (plan : ShiftPlan) (dto : RegisterDto) (a : ℕ × ℕ) (s t : Store)
    → find_plan_by_slug slug s ≡ (ok (pid, plan), s)
    → plan.max_shifts_per_person ≡ some most
    → 0 < most
    → public_register slug dto s ≡ (ok a, t)
    → existing_count pid dto.email t ≤ most
public_register-limit slug pid most plan dto a s t found limit some_limit run =
    kept (rw run at (public_register-Limited slug pid most plan dto s found limit some_limit))
  where
    kept : Limited pid dto.email most (ok a, t) → existing_count pid dto.email t ≤ most
    kept (within h) = h
