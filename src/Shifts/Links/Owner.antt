-- ===== src/Shifts/Links/Owner.antt =====
-- A magic link of src/modules/shifts/shifts.service.ts reaches the registrations of its own address and
-- plan only.
use openeos_api.Base.{
  ℕ, suc, ◌≡◌, refl, sym, inl, inr, Bool, true, false, not, Option, none, some, some-injective,
  List, leb, ltb, get, put, drop_row, is_some, find_first, Bool-cases, Option-cases,
}
use openeos_api.Entities.{ShiftRegistration, HelperMagicLink}
use openeos_api.Store.{Store, Env, M, Result, ok, err, Exception, ◌>>=◌, not_found, no_code}
use openeos_api.Store.Reads.{after_some, after_guard}
use openeos_api.Shifts.{in_plan, confirmed_count, save_registration}
use openeos_api.Shifts.Links.{
  find_valid_magic_link, remove_shift_via_magic_link, add_shift_via_magic_link, owned, is_lower,
  used, shift_of_plan, find_last, is_anchor, is_booked, unless_booked, added,
}
use openeos_api.Shifts.Verified.{IsRight, AllRight, put-AllRight, keep-AllRight}

-- A link that is known and has not expired; looking it up marks it as used and writes nothing else.
module _ {B : Type 0} (P : Result B × Store → Type 0) (env : Env) (token : ℕ)
    (f : HelperMagicLink → M B) (s : Store) (bad : (x : Exception) → P (err x, s))
    (good : (l : HelperMagicLink) (links : List (ℕ × HelperMagicLink))
      → get token s.magic_links ≡ some l
      → ltb l.expires_at env.now ≡ false
      → P (f l (record s { magic_links = links }))) where
  pub after_link : P ((find_valid_magic_link env token >>= f) s)
  unfolding find_valid_magic_link
  after_link = elim (Option-cases (get token s.magic_links)) [
    | inl n ↦ rw n (bad (not_found no_code))
    | inr (l, found) ↦ elim (Bool-cases (ltb l.expires_at env.now)) [
      | inl y ↦ rw (found, y) (bad (not_found no_code))
      | inr valid ↦ elim (Bool-cases (is_some l.used_at)) [
        | inl u ↦ rw (found, valid, u) (good l s.magic_links found valid)
        | inr n ↦ rw (found, valid, n) (good l (put token (used env l) s.magic_links) found valid)
      ]
    ]
  ]

owned-some :
    (env : Env) (l : HelperMagicLink) (o : Option ShiftRegistration) (r : ShiftRegistration)
    → owned env l o ≡ some r
    → (o ≡ some r) × (is_lower env l.email r.email ≡ true)
owned-some env l none r h = cc
owned-some env l (some q) r h = elim (Bool-cases (is_lower env l.email q.email)) [
  | inl y ↦ let same = rw y at h in (same, rw (← (some-injective q r same)) y)
  | inr n ↦ let nothing = rw n at h in cc
]

-- What a removal by a link that returned has looked at.
pub record IsOwn (env : Env) (token rid : ℕ) (s : Store) : Type 0 where
  pub link : HelperMagicLink
  pub link_eq : get token s.magic_links ≡ some link
  pub is_valid : ltb link.expires_at env.now ≡ false
  pub registration : ShiftRegistration
  pub registration_eq : get rid s.registrations ≡ some registration
  pub same_address : is_lower env link.email registration.email ≡ true
  pub same_plan : in_plan link.shift_plan_id (get registration.shift_id s.shifts) ≡ true

data Removal (env : Env) (token rid : ℕ) (s : Store) : Result (Unit {0}) × Store → Type 0 where
  refused : {t : Store} (x : Exception) → Removal env token rid s (err x, t)
  removed :
      {t : Store}
      → t.registrations ≡ drop_row rid s.registrations
      → IsOwn env token rid s
      → Removal env token rid s (ok tt, t)

remove-Removal :
    (env : Env) (token rid : ℕ) (s : Store)
    → Removal env token rid s (remove_shift_via_magic_link env token rid s)
unfolding remove_shift_via_magic_link
remove-Removal env token rid s =
    after_link (Removal env token rid s) env token _ s refused λ l links found valid.
      after_some (Removal env token rid s) (owned env l (get rid s.registrations)) _ _
        (record s { magic_links = links }) (refused _)
        λ r is_own.
          let row = owned-some env l (get rid s.registrations) r is_own in
          after_guard (Removal env token rid s)
            (not (in_plan l.shift_plan_id (get r.shift_id s.shifts))) _ _
            (record s { magic_links = links }) (refused _)
            λ inside. removed refl (record {
              link = l;
              link_eq = found;
              is_valid = valid;
              registration = r;
              registration_eq = row.0;
              same_address = row.1;
              same_plan = holds (in_plan l.shift_plan_id (get r.shift_id s.shifts)) inside;
            })
  where
    holds : (b : Bool) → not b ≡ false → b ≡ true
    holds true h = refl
    holds false h = sym h

-- A removal by a magic link that returns has a known link that has not expired, and removes exactly the
-- named registration, which carries the address of the link and belongs to the plan of the link.
pub remove_shift_via_magic_link_lem :
    (env : Env) (token rid : ℕ) (s t : Store)
    → remove_shift_via_magic_link env token rid s ≡ (ok tt, t)
    → (t.registrations ≡ drop_row rid s.registrations) × IsOwn env token rid s
remove_shift_via_magic_link_lem env token rid s t run =
    facts (rw run at (remove-Removal env token rid s))
  where
    facts :
        Removal env token rid s (ok tt, t)
        → (t.registrations ≡ drop_row rid s.registrations) × IsOwn env token rid s
    facts (removed same own) = (same, own)

pub remove-AllRight :
    (env : Env) (token rid : ℕ) (s : Store)
    → AllRight s.registrations
    → AllRight (remove_shift_via_magic_link env token rid s).1.registrations
unfolding remove_shift_via_magic_link
remove-AllRight env token rid s a =
    after_link (λ r. AllRight r.1.registrations) env token _ s (λ x. a)
      λ l links _ _.
        after_some (λ r. AllRight r.1.registrations) (owned env l (get rid s.registrations)) _ _
          (record s { magic_links = links }) a
          λ r _.
            after_guard (λ q. AllRight q.1.registrations)
              (not (in_plan l.shift_plan_id (get r.shift_id s.shifts))) _ _
              (record s { magic_links = links }) a λ _. keep-AllRight _ s.registrations a

added-IsRight :
    (sid token : ℕ) (r : ShiftRegistration) (o : Option ℕ)
    → r.email_verified_at ≡ o
    → IsRight (added sid token r)
added-IsRight sid token r none h = record {
  unverified = λ _. h;
  verified_first = λ e. let dead = rw h at e in cc;
}
added-IsRight sid token r (some at) h = record {
  unverified = λ e. let dead = rw h at e in cc;
  verified_first = λ _. rw h refl;
}

booked-AllRight :
    (sid : ℕ) (anchor : ShiftRegistration) (o : Option (ℕ × ShiftRegistration)) (s : Store)
    → AllRight s.registrations
    → AllRight (unless_booked sid anchor o s).1.registrations
unfolding save_registration
booked-AllRight sid anchor (some row) s a = a
booked-AllRight sid anchor none s a =
    put-AllRight (suc s.next_id) (added sid s.next_id anchor) s.registrations
      (added-IsRight sid s.next_id anchor anchor.email_verified_at refl) a

pub add-AllRight :
    (env : Env) (token sid : ℕ) (s : Store)
    → AllRight s.registrations
    → AllRight (add_shift_via_magic_link env token sid s).1.registrations
unfolding add_shift_via_magic_link
add-AllRight env token sid s a =
    after_link (λ r. AllRight r.1.registrations) env token _ s (λ x. a)
      λ l links _ _.
        let t : Store = record s { magic_links = links } in
        after_some (λ r. AllRight r.1.registrations)
          (shift_of_plan l.shift_plan_id (get sid s.shifts)) _ _ t a
          λ h _.
            after_guard (λ q. AllRight q.1.registrations)
              (leb h.required_workers (confirmed_count sid s.registrations)) _ _ t a
              λ _.
                after_some (λ r. AllRight r.1.registrations)
                  (find_last (is_anchor env l s.shifts) s.registrations) _ _ t a
                  λ anchor _.
                    booked-AllRight sid anchor.1
                      (find_first (is_booked sid anchor.1.registration_group_id) s.registrations) t
                      a
