-- ===== src/Events/Steps/Lifecycle.antt =====
-- The methods of src/modules/events/events.service.ts make the steps that they announce.
use openeos_api.Base.{
  ℕ, ◌≡◌, refl, sym, inl, inr, Bool, true, false, not, ◌||◌, some, List, [], ◌∷◌, get, Bool-cases,
  is_some, get_or, map, put,
}
use openeos_api.Entities.{User, Event, EventStatus}
use openeos_api.Store.{Store, Env, ok}
use openeos_api.Store.Reads.{after_reads, after_guard}
use openeos_api.Organizations.{check_permission, check_admin}
use openeos_api.Organizations.Reads.{Reads-check_permission, Reads-check_admin}
use openeos_api.Events.Rows.{is_on, is_unlocked, save_event, emit_status_changed}
use openeos_api.Events.Rows.Found.{after_find_one, after_get_event}
use openeos_api.Events.Lifecycle.{
  CreateEventDto, UpdateEventDto, create, update, remove, activate, deactivate, set_test_mode,
  switch_on, emit_all, assert_chronological, with_words, is_active, is_test, with_status,
  deactivated, siblings_of, is_backwards, new_event, deactivate_active_or_test_siblings,
}
use openeos_api.Events.Lifecycle.Days.{
  Allowed, unchanged, moved, refused, dated, change_dates_cases,
}
use openeos_api.Events.Steps.{
  stays, inserts, rewrites, switches_on, is_on_already, switches_off, is_off_already, SameLife,
  Makes, starts, stops, silent,
}

-- Announcements do not touch the rows.
pub emit_all_run :
    (rows : List (ℕ × Event)) (s : Store)
    → (notices : List (ℕ × Event)) × (emit_all rows s
        ≡ (ok tt, record s { status_notices = notices }))
unfolding emit_all emit_status_changed
emit_all_run [] s = (s.status_notices, refl)
emit_all_run ((k, e) ∷ rows) s =
    emit_all_run rows (record s { status_notices = (k, e) ∷ s.status_notices })

pub create-Makes :
    (org : ℕ) (dto : CreateEventDto) (user : User) (s : Store)
    → Makes silent s (create org dto user s)
unfolding create assert_chronological save_event
create-Makes org dto user s =
    after_reads (Makes silent s) (check_permission (λ p. p.events) org user.id) _ s (λ x. stays)
      (Reads-check_permission (λ p. p.events) org user.id s)
      λ _ _.
        after_guard (Makes silent s)
          (is_backwards (some dto.start_date) (some (get_or dto.end_date dto.start_date))) _ _ s
          stays λ _. inserts (new_event org dto) refl

words-SameLife :
    (env : Env) (dto : UpdateEventDto) (e f : Event) (s : Store)
    → Allowed env s e f
    → SameLife e (with_words dto f)
words-SameLife env dto e f s unchanged = record {
  same_organization = refl;
  same_status = refl;
  stays_unlocked = λ h. h;
}
words-SameLife env dto e f s (moved a b _ _) = record {
  same_organization = refl;
  same_status = refl;
  stays_unlocked = λ h. h;
}

pub update-Makes :
    (env : Env) (org eid : ℕ) (dto : UpdateEventDto) (user : User) (s : Store)
    → Makes silent s (update env org eid dto user s)
unfolding update save_event
update-Makes env org eid dto user s =
    after_reads (Makes silent s) (check_permission (λ p. p.events) org user.id) _ s (λ x. stays)
      (Reads-check_permission (λ p. p.events) org user.id s)
      λ _ _.
        after_find_one (Makes silent s) org eid _ s (λ x. stays)
          (λ e found _.
            elim (change_dates_cases env dto e (is_some dto.start_date || is_some dto.end_date) s) [
              | refused x r ↦ rw r stays
              | dated f r d ↦
                  rw r (rewrites eid e (with_words dto f) found (words-SameLife env dto e f s d))
            ])
          user

pub remove-Makes : (org eid : ℕ) (user : User) (s : Store) → Makes silent s (remove org eid user s)
unfolding remove
remove-Makes org eid user s =
    after_reads (Makes silent s) (check_admin org user.id) _ s (λ x. stays)
      (Reads-check_admin org user.id s)
      λ _ _.
        after_find_one (Makes silent s) org eid _ s (λ x. stays)
          (λ e _ _. after_guard (Makes silent s) (is_active e.status) _ _ s stays λ _. stays) user

-- Switching on an event that is found, and that is unlocked if it is to be active.
switch_on-Makes :
    (org eid : ℕ) (status : EventStatus) (e : Event) (s : Store)
    → get eid s.events ≡ some e
    → e.organization_id ≡ org
    → is_on status ≡ true
    → (is_active status ≡ true → is_unlocked e.billing_status ≡ true)
    → Makes (starts org eid status) s (switch_on org eid status e s)
unfolding switch_on save_event emit_status_changed deactivate_active_or_test_siblings
switch_on-Makes org eid status e s found own on unlocked =
    let quiet = emit_all_run (map (deactivated org eid) (siblings_of org eid s.events)) (record s {
      events = put eid (with_status status e) (map (deactivated org eid) s.events);
      status_notices = (eid, with_status status e) ∷ s.status_notices;
    }) in
    rw quiet.1 (switches_on org eid status e found own on unlocked)

pub activate-Makes :
    (org eid : ℕ) (user : User) (s : Store)
    → Makes (starts org eid EventStatus.active) s (activate org eid user s)
unfolding activate
activate-Makes org eid user s =
    after_get_event (Makes (starts org eid EventStatus.active) s) org eid _ s (λ x. stays)
      (λ e found own. after_guard (Makes _ s) (is_active e.status) _ _ s stays λ _.
        after_guard (Makes _ s) (not (is_unlocked e.billing_status)) _ _ s stays λ unlocked.
          switch_on-Makes org eid EventStatus.active e s found own refl
            λ _. not_false (is_unlocked e.billing_status) unlocked)
      user.id
  where
    not_false : (b : Bool) → not b ≡ false → b ≡ true
    not_false true h = refl
    not_false false h = sym h

pub deactivate-Makes :
    (org eid : ℕ) (user : User) (s : Store) → Makes (stops org eid) s (deactivate org eid user s)
unfolding deactivate save_event emit_status_changed
deactivate-Makes org eid user s =
    after_get_event (Makes (stops org eid) s) org eid _ s (λ x. stays)
      (λ e found own. elim (Bool-cases (is_on e.status)) [
        | inl on ↦ rw on (switches_off org eid e found own)
        | inr off ↦ rw off (is_off_already org eid e found own off)
      ])
      user.id

pub set_test_mode-Makes :
    (org eid : ℕ) (user : User) (s : Store)
    → Makes (starts org eid EventStatus.test) s (set_test_mode org eid user s)
unfolding set_test_mode
set_test_mode-Makes org eid user s =
    after_get_event (Makes (starts org eid EventStatus.test) s) org eid _ s (λ x. stays)
      (λ e found own. elim (Bool-cases (is_test e.status)) [
        | inl on ↦
            rw on (is_on_already org eid EventStatus.test e found own (test_is e.status on) refl)
        | inr off ↦ rw off (switch_on-Makes org eid EventStatus.test e s found own refl λ h. cc)
      ])
      user.id
  where
    test_is : (st : EventStatus) → is_test st ≡ true → st ≡ EventStatus.test
    test_is EventStatus.active h = cc
    test_is EventStatus.inactive h = cc
    test_is EventStatus.test h = refl
