-- ===== src/Shifts/Proposals/Kept.antt =====
-- The answer to a proposal and the notes of an admin keep what Verified says of registrations:
-- src/modules/shifts/shifts.service.ts.
use openeos_api.Base.{
  ℕ, ◌≡◌, refl, Bool, true, false, not, Option, none, some, String, List, [], ◌∷◌, find_first, get,
  suc, ◌==◌, ◌∙◌, Bool-cases, Option-cases, inl, inr, subst, some-injective,
}
use openeos_api.Entities.{ShiftRegistration, ShiftChangeProposal, ShiftChangeOp, ShiftPlan}
use openeos_api.Store.{Store, Env, ok}
use openeos_api.Store.Reads.{after_reads, after_some, after_guard}
use openeos_api.Shifts.{plan_of, find_registration_with_access, save_registration}
use openeos_api.Shifts.Verified.{
  IsRight, AllRight, After, put-AllRight, keep-AllRight, settled-IsRight, Reads-find_registration,
}
use openeos_api.Shifts.Proposals.{
  apply_op, apply_ops, accepted_row, settle, in_group, save_proposal, awaits_answer, noted,
  respond_to_shift_proposal, update_registration_notes,
}

apply_op-AllRight :
    (group : ℕ) (surviving : Option (ℕ × ShiftRegistration)) (op : ShiftChangeOp) (s : Store)
    → AllRight s.registrations
    → AllRight (apply_op group surviving op s).1.registrations
unfolding save_registration
apply_op-AllRight group surviving (ShiftChangeOp.remove_op rid) s a =
    keep-AllRight _ s.registrations a
apply_op-AllRight group none (ShiftChangeOp.add_op sid) s a = a
apply_op-AllRight group (some row) (ShiftChangeOp.add_op sid) s a =
    put-AllRight (suc s.next_id) (accepted_row group sid s.next_id row.1) s.registrations
      (settled-IsRight (accepted_row group sid s.next_id row.1) (λ e. cc) (λ e. cc)) a

apply_ops-AllRight :
    (group : ℕ) (surviving : Option (ℕ × ShiftRegistration)) (ops : List ShiftChangeOp) (s : Store)
    → AllRight s.registrations
    → (t : Store) × (apply_ops group surviving ops s ≡ (ok tt, t)) × AllRight t.registrations
unfolding apply_ops save_registration
apply_ops-AllRight group surviving [] s a = (s, refl, a)
apply_ops-AllRight group surviving (ShiftChangeOp.remove_op rid ∷ ops) s a =
    apply_ops-AllRight group surviving ops _
      (apply_op-AllRight group surviving (ShiftChangeOp.remove_op rid) s a)
apply_ops-AllRight group none (ShiftChangeOp.add_op sid ∷ ops) s a =
    apply_ops-AllRight group none ops s a
apply_ops-AllRight group (some row) (ShiftChangeOp.add_op sid ∷ ops) s a =
    apply_ops-AllRight group (some row) ops _
      (apply_op-AllRight group (some row) (ShiftChangeOp.add_op sid) s a)

settle-AllRight :
    (env : Env) (token : ℕ) (p : ShiftChangeProposal) (accept : Bool) (s : Store)
    → AllRight s.registrations
    → AllRight (settle env token p accept s).1.registrations
unfolding save_proposal
settle-AllRight env token p false s a = a
settle-AllRight env token p true s a =
    let (t, e, b) =
      apply_ops-AllRight p.registration_group_id
        (find_first (in_group p.registration_group_id) s.registrations) p.ops s a in
    rw e b

pub respond-AllRight :
    (env : Env) (token : ℕ) (accept : Bool) (s : Store)
    → AllRight s.registrations
    → AllRight (respond_to_shift_proposal env token accept s).1.registrations
unfolding respond_to_shift_proposal
respond-AllRight env token accept s a =
    after_some After (get token s.shift_proposals) _ _ s a λ p _.
      after_guard After (not (awaits_answer p.status)) _ _ s a
        λ _. settle-AllRight env token p accept s a

pub stored-IsRight :
    (rid : ℕ) (rows : List (ℕ × ShiftRegistration)) {r : ShiftRegistration}
    → get rid rows ≡ some r
    → AllRight rows
    → IsRight r
unfolding get
stored-IsRight rid [] e a = cc
stored-IsRight rid ((k, q) ∷ rows) e a = elim (Bool-cases (k == rid)) [
  | inl y ↦ subst IsRight (some-injective _ _ (rw y at e)) a.0
  | inr n ↦ stored-IsRight rid rows (rw n at e) a.1
]

-- The registration that is found is the stored one.
pub find_registration-stored :
    (org rid : ℕ) (s t : Store) (found : ShiftRegistration × ShiftPlan)
    → find_registration_with_access org rid s ≡ (ok found, t)
    → get rid s.registrations ≡ some found.0
unfolding find_registration_with_access
find_registration-stored org rid s t found e = elim (Option-cases (get rid s.registrations)) [
  | inl n ↦ let no = rw n at e in cc
  | inr (r, y) ↦ elim (Option-cases (plan_of r s)) [
    | inl n ↦ let no = rw (y, n) at e in cc
    | inr (plan, z) ↦ elim (Bool-cases (plan.organization_id == org)) [
      | inl w ↦ let same = rw (y, z, w) at e in y ∙ cc same
      | inr w ↦ let no = rw (y, z, w) at e in cc
    ]
  ]
]

pub notes-AllRight :
    (org rid : ℕ) (notes : String) (s : Store)
    → AllRight s.registrations
    → AllRight (update_registration_notes org rid notes s).1.registrations
unfolding update_registration_notes save_registration
notes-AllRight org rid notes s a =
    after_reads After (find_registration_with_access org rid) _ s (λ x. a)
      (Reads-find_registration org rid s)
      λ found e.
        let right =
          stored-IsRight rid s.registrations (find_registration-stored org rid s s found e) a in
        put-AllRight rid (noted notes found.0) s.registrations
          (record { unverified = right.unverified; verified_first = right.verified_first }) a
