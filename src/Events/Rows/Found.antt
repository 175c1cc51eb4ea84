-- ===== src/Events/Rows/Found.antt =====
-- The lookup of an event in its organization, and the two lookups that check the caller first.
use openeos_api.Base.{ℕ, ◌≡◌, inl, inr, arith, Option, none, some, ◌==◌, get, Bool-cases}
use openeos_api.Entities.{User, Event}
use openeos_api.Store.{Store, M, Result, err, Exception, ◌>>=◌}
use openeos_api.Store.Reads.{Reads, raises, returns, Reads-bind, Reads-or_raise, after_some}
use openeos_api.Organizations.Reads.{Reads-check_membership, Reads-check_permission}
use openeos_api.Access.{check_membership}
use openeos_api.Orders.Create.{event_in}
use openeos_api.Events.Rows.{find_event, find_one, get_event_and_check_permission, event_of}

pub Reads-find_event : (org eid : ℕ) (s : Store) → Reads (find_event org eid s) s
unfolding find_event
Reads-find_event org eid s = Reads-or_raise (event_of org eid s) _ s

pub Reads-find_one : (org eid : ℕ) (user : User) (s : Store) → Reads (find_one org eid user s) s
unfolding find_one
Reads-find_one org eid user s =
    Reads-bind (check_membership org user.id) _ s (Reads-check_membership org user.id s)
      λ _ _. Reads-find_event org eid s

-- What is found is the row, and its organization is the one that was asked for.
pub event_in-some :
    (org : ℕ) (o : Option Event) (e : Event)
    → event_in org o ≡ some e
    → (o ≡ some e) × (e.organization_id ≡ org)
event_in-some org none e h = cc
event_in-some org (some d) e h = elim (Bool-cases (d.organization_id == org)) [
  | inl y ↦ let d_is_e = rw y at h in (d_is_e, own d e d_is_e (ground arith))
  | inr n ↦ let nothing = rw n at h in cc
]
  where
    own : (d e : Event) → some d ≡ some e → d.organization_id ≡ org → e.organization_id ≡ org
    own d e h g = cc

module _ {ℓ ν} {B : Type ℓ} (P : Result B × Store → Type ν) (org eid : ℕ) (f : Event → M B)
    (s : Store) (bad : (x : Exception) → P (err x, s))
    (good : (e : Event) → get eid s.events ≡ some e → e.organization_id ≡ org → P (f e s)) where
  pub after_find_event : P ((find_event org eid >>= f) s)
  unfolding find_event
  after_find_event =
      after_some P (event_of org eid s) _ f s (bad _)
        λ e h. let row = event_in-some org (get eid s.events) e h in good e row.0 row.1

module _ {ℓ ν} {B : Type ℓ} (P : Result B × Store → Type ν) (org eid : ℕ) (f : Event → M B)
    (s : Store) (bad : (x : Exception) → P (err x, s))
    (good : (e : Event) → get eid s.events ≡ some e → e.organization_id ≡ org → P (f e s)) where
  pub after_find_one : (user : User) → P ((find_one org eid user >>= f) s)
  unfolding find_one
  after_find_one user = elim (Reads-check_membership org user.id s) [
    | raises x e ↦ rw e (bad x)
    | returns a e ↦ rw e (after_find_event P org eid f s bad good)
  ]

  pub after_get_event : (uid : ℕ) → P ((get_event_and_check_permission org eid uid >>= f) s)
  unfolding get_event_and_check_permission
  after_get_event uid = elim (Reads-check_permission (λ p. p.events) org uid s) [
    | raises x e ↦ rw e (bad x)
    | returns a e ↦ rw e (after_find_event P org eid f s bad good)
  ]
