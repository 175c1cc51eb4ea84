-- ===== src/Events/Lifecycle/Days.antt =====
-- An event that is paid or invoiced cannot be extended by an update of src/modules/events/events.service.ts.
use openeos_api.Base.{
  ℕ, ◌≤◌, ◌≡◌, refl, sym, ◌∙◌, arith, Bool, true, false, ◌&&◌, ◌||◌, Option, some, some-injective,
  get, get-put_self, ltb, is_some,
}
use openeos_api.Entities.{User, Event}
use openeos_api.Store.{
  Store, Env, Result, ok, err, Exception, bad_request, validation_error, raise_if,
}
use openeos_api.Store.Reads.{raises, returns, after_reads, after_guard, Reads-raise_if}
use openeos_api.Organizations.{check_permission}
use openeos_api.Organizations.Reads.{Reads-check_permission}
use openeos_api.Events.Schedule.{count_event_days}
use openeos_api.Events.Rows.{is_billed, save_event}
use openeos_api.Events.Rows.Found.{after_find_one}
use openeos_api.Events.Lifecycle.{
  UpdateEventDto, update, change_dates, assert_chronological, assert_paid_duration_not_extended,
  with_words, is_backwards, next_end, or_old, with_dates, zone_of,
}

-- The days of an event in the time zone of its organization, and whether its dates are in order.
abbrev pub days_of : Env → Store → Event → ℕ
days_of env s e =
    count_event_days env (zone_of (get e.organization_id s.organizations)) e.start_date e.end_date

-- What the new dates may be: unchanged, or in order and not more days for a billed event.
pub data Allowed (env : Env) (s : Store) (e : Event) : Event → Type 0 where
  unchanged : Allowed env s e e
  moved :
      (start end_date : Option ℕ)
      → is_backwards start end_date ≡ false
      → (is_billed e.billing_status
          && ltb (days_of env s e) (days_of env s (with_dates start end_date e)))
        ≡ false
      → Allowed env s e (with_dates start end_date e)

abbrev extends_paid : Env → Store → Event → Event → Bool
extends_paid env s e f = is_billed e.billing_status && ltb (days_of env s e) (days_of env s f)

pub data DatesRead (env : Env) (s : Store) (e : Event) (r : Result Event × Store) : Type 0 where
  refused : (x : Exception) → r ≡ (err x, s) → DatesRead env s e r
  dated : (f : Event) → r ≡ (ok f, s) → Allowed env s e f → DatesRead env s e r

pub change_dates_cases :
    (env : Env) (dto : UpdateEventDto) (e : Event) (b : Bool) (s : Store)
    → DatesRead env s e (change_dates env dto e b s)
unfolding change_dates assert_chronological assert_paid_duration_not_extended
change_dates_cases env dto e false s = dated e refl unchanged
change_dates_cases env dto e true s =
    after_guard (DatesRead env s e)
      (is_backwards (or_old dto.start_date e.start_date) (next_end dto e)) _ _ s (refused _ refl)
      λ ordered.
        elim (Reads-raise_if (extends_paid env s e next) (bad_request validation_error) s) [
          | raises x r ↦ refused x (rw r refl)
          | returns _ r ↦ dated next (rw r refl) (moved _ _ ordered (passed _ r))
        ]
  where
    next : Event
    next = with_dates (or_old dto.start_date e.start_date) (next_end dto e) e

    passed : (b : Bool) → raise_if b (bad_request validation_error) s ≡ (ok tt, s) → b ≡ false
    passed true h = cc
    passed false h = refl

not_longer : (b : Bool) (x y : ℕ) → b ≡ true → (b && ltb x y) ≡ false → y ≤ x
not_longer b x y h k = ground arith

allowed_days :
    (env : Env) (s : Store) (e f : Event)
    → is_billed e.billing_status ≡ true
    → Allowed env s e f
    → days_of env s f ≤ days_of env s e
allowed_days env s e f h unchanged = omega arith
allowed_days env s e f h (moved start end_date _ k) = not_longer _ _ _ h k

-- An answer that raises, or returns an event that is saved and not longer than `e`.
data Answer (env : Env) (eid : ℕ) (s : Store) (e : Event) : Result Event × Store → Type 0 where
  raised : {t : Store} (x : Exception) → Answer env eid s e (err x, t)
  returned :
      {f : Event} {t : Store}
      → get eid t.events ≡ some f
      → days_of env s f ≤ days_of env s e
      → f.billing_status ≡ e.billing_status
      → Answer env eid s e (ok f, t)

update-Answer :
    (env : Env) (org eid : ℕ) (dto : UpdateEventDto) (user : User) (e : Event) (s : Store)
    → get eid s.events ≡ some e
    → is_billed e.billing_status ≡ true
    → Answer env eid s e (update env org eid dto user s)
unfolding update save_event
update-Answer env org eid dto user e s found billed =
    after_reads (Answer env eid s e) (check_permission (λ p. p.events) org user.id) _ s raised
      (Reads-check_permission (λ p. p.events) org user.id s)
      λ _ _.
        after_find_one (Answer env eid s e) org eid _ s raised
          (λ d here _.
            let one = some-injective d e (sym here ∙ found) in
            elim (change_dates_cases env dto d (is_some dto.start_date || is_some dto.end_date) s) [
              | refused x r ↦ rw r (raised x)
              | dated f r a ↦ rw r (
                  returned (get-put_self eid (with_words dto f) s.events)
                    (words_days f (allowed_days env s e f billed (rw one at a)))
                    (words_billing f (rw one at a)))
            ])
          user
  where
    words_days :
        (f : Event)
        → days_of env s f ≤ days_of env s e
        → days_of env s (with_words dto f) ≤ days_of env s e
    words_days f h = h

    words_billing : (f : Event) → Allowed env s e f → f.billing_status ≡ e.billing_status
    words_billing f unchanged = refl
    words_billing f (moved _ _ _ _) = refl

-- An update that returns, of an event that is paid or invoiced: the returned event is saved, it has at
-- most as many days as before in the time zone of its organization, and it stays paid or invoiced.
pub update-days :
    (env : Env) (org eid : ℕ) (dto : UpdateEventDto) (user : User) (e f : Event) (s t : Store)
    → get eid s.events ≡ some e
    → is_billed e.billing_status ≡ true
    → update env org eid dto user s ≡ (ok f, t)
    → (get eid t.events ≡ some f)
      × (days_of env s f ≤ days_of env s e)
      × (f.billing_status ≡ e.billing_status)
update-days env org eid dto user e f s t found billed run =
    facts (rw run at (update-Answer env org eid dto user e s found billed))
  where
    facts :
        Answer env eid s e (ok f, t)
        → (get eid t.events ≡ some f)
          × (days_of env s f ≤ days_of env s e)
          × (f.billing_status ≡ e.billing_status)
    facts (returned saved shorter same) = (saved, shorter, same)
