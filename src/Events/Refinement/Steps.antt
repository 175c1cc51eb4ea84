-- ===== src/Events/Refinement/Steps.antt =====
-- Each step of the events of src/modules/events is the transition that it announces.
use openeos_api.Base.{
  ==_eq, ℕ, suc, ◌≡◌, ◌≢◌, refl, sym, ap, ◌∙◌, inl, inr, arith, true, false, not, Option, none,
  some, some-injective, List, [], ◌∷◌, ◌==◌, ==_refl, if◌then◌else◌, map, get, put, get-put,
  get-put_self, get-put_cases, Bool-cases,
}
use openeos_api.Entities.{Event, EventStatus}
use openeos_api.Events.Rows.{is_on, is_unlocked}
use openeos_api.Events.Lifecycle.{is_active, is_sibling, deactivated, with_status}
use openeos_api.Events.Steps.{starts, SameLife}
use openeos_api.Events.Refinement.{Running, transition, IsRow, Refines}

-- A row after its siblings are deactivated.
abbrev after_switch : ℕ → ℕ → ℕ → Option Event → Option Event
after_switch org j k none = none
after_switch org j k (some e) =
    some (if is_sibling org j k e then with_status EventStatus.inactive e else e)

get-deactivated :
    (org j k : ℕ) (rows : List (ℕ × Event))
    → get k (map (deactivated org j) rows) ≡ after_switch org j k (get k rows)
unfolding get
get-deactivated org j k [] = refl
get-deactivated org j k ((i, e) ∷ rows) = elim (Bool-cases (i == k)) [
  | inl y ↦ let same = ==_eq i k y in rw (same, ==_refl k) refl
  | inr n ↦ rw (n, get-deactivated org j k rows) refl
]

-- The row that runs is still there after a save that keeps it.
pub put-IsRow :
    (org j k : ℕ) (status : EventStatus) (v : Event) (rows : List (ℕ × Event))
    → IsRow org j status rows
    → (k ≡ j → (v.organization_id ≡ org) × (v.status ≡ status))
    → IsRow org j status (put k v rows)
put-IsRow org j k status v rows (e, found, own, same, on) keeps = elim (Bool-cases (k == j)) [
  | inl y ↦
      let kept = keeps (ground arith) in (v, rw (get-put k j v rows, y) refl, kept.0, kept.1, on)
  | inr n ↦ (e, rw (get-put k j v rows, n) found, own, same, on)
]

pub same_row :
    (rows : List (ℕ × Event)) (k j : ℕ) (e f : Event)
    → k ≡ j
    → get k rows ≡ some e
    → get j rows ≡ some f
    → e ≡ f
same_row rows k j e f same a b = cc

was_there :
    (org k j : ℕ) (o : Option Event) (g : Event)
    → after_switch org k j o ≡ some g
    → (e : Event) × (o ≡ some e)
was_there org k j none g h = cc
was_there org k j (some e) g h = (e, refl)

active_is_on : (status : EventStatus) → is_active status ≡ true → is_on status ≡ true
active_is_on EventStatus.active h = refl
active_is_on EventStatus.inactive h = h
active_is_on EventStatus.test h = refl

separate : (k j : ℕ) → (k == j) ≡ false → not (j == k) ≡ false → ⊥
separate k j a b = ground arith

-- An event of the organization that is on and is no sibling is the one that is started.
stays_named :
    (spec : Running) (org k j : ℕ) (status : EventStatus) (g : Event)
    → (k == j) ≡ false
    → is_on g.status ≡ true
    → is_sibling org k j g ≡ false
    → spec g.organization_id ≡ some (j, g.status)
    → transition (starts org k status) spec g.organization_id ≡ some (j, g.status)
stays_named spec org k j status g differs on not_sibling named =
    elim (Bool-cases (g.organization_id == org)) [
      | inr n ↦ rw n named
      | inl y ↦ let apart = rw (y, on) at not_sibling in absurd (separate k j differs apart)
    ]

-- The rows of other organizations are not deactivated.
not_touched :
    (rows : List (ℕ × Event)) (org k o j : ℕ) (st : EventStatus)
    → (o == org) ≡ false
    → IsRow o j st rows
    → IsRow o j st (map (deactivated org k) rows)
not_touched rows org k o j st other (d, there, own, same, on) =
    (d, rw (get-deactivated org k j rows, there, own, other) refl, own, same, on)

started :
    (rows : List (ℕ × Event)) (org k o j : ℕ) (e : Event) (status st : EventStatus)
    → e.organization_id ≡ org
    → is_on status ≡ true
    → o ≡ org
    → k ≡ j
    → status ≡ st
    → IsRow o j st (put k (with_status status e) rows)
started rows org k o j e status st own on same_org same_key same_status = (
  with_status status e,
  rw (← same_key) (get-put_self k (with_status status e) rows),
  own ∙ sym same_org,
  same_status,
  rw (← same_status) on,
)

pub elsewhere :
    (o org : ℕ) (d e : Event)
    → (o == org) ≡ false
    → d.organization_id ≡ o
    → e.organization_id ≡ org
    → e ≡ d
    → ⊥
elsewhere o org d e other own_d own same =
    let one = sym own_d ∙ sym (ap (λ x. x.organization_id) same) ∙ own in ground arith

module _ (spec : Running) (rows : List (ℕ × Event)) (n : ℕ) (r : Refines spec rows n) where
  pub insert-Refines :
      (e : Event) → e.status ≡ EventStatus.inactive → Refines spec (put n e rows) (suc n)
  insert-Refines e off = record {
    sound = λ k f found on. elim (get-put_cases n k e f rows found) [
      | inl (_, _, is_e) ↦ let dead = rw (is_e, off) at on in cc
      | inr (_, old) ↦ r.sound k f old on
    ];
    complete = λ org k status named.
        let row = r.complete org k status named in
        put-IsRow org k n status e rows row λ same. absurd (differs k row.0 row.1 same);
    fresh = λ k f found. elim (get-put_cases n k e f rows found) [
      | inl (_, same, _) ↦ omega (arith, same)
      | inr (_, old) ↦ omega (arith, r.fresh k f old)
    ];
    unlocked = λ k f found active. elim (get-put_cases n k e f rows found) [
      | inl (_, _, is_e) ↦ let dead = rw (is_e, off) at active in cc
      | inr (_, old) ↦ r.unlocked k f old active
    ];
  }
    where
      differs : (k : ℕ) (f : Event) → get k rows ≡ some f → n ≢ k
      differs k f h same = let below = r.fresh k f h in omega arith

  pub rewrite-Refines :
      (k : ℕ) (e f : Event) → get k rows ≡ some e → SameLife e f → Refines spec (put k f rows) n
  rewrite-Refines k e f found same = record {
    sound = λ j g here on. elim (get-put_cases k j f g rows here) [
      | inl (_, at, is_f) ↦
          rw (is_f, same.same_organization, same.same_status, at)
            (r.sound k e found (rw (is_f, same.same_status) at on))
      | inr (_, old) ↦ r.sound j g old on
    ];
    complete = λ org j status named.
        let row = r.complete org j status named in
        put-IsRow org j k status f rows row λ at.
          let one = same_row rows k j e row.0 at found row.1 in
          (
            same.same_organization ∙ ap (λ x. x.organization_id) one ∙ row.2,
            same.same_status ∙ ap (λ x. x.status) one ∙ row.3,
          );
    fresh = λ j g here. elim (get-put_cases k j f g rows here) [
      | inl (_, at, _) ↦ omega (arith, at, r.fresh k e found)
      | inr (_, old) ↦ r.fresh j g old
    ];
    unlocked = λ j g here active. elim (get-put_cases k j f g rows here) [
      | inl (_, _, is_f) ↦
          rw is_f
            (same.stays_unlocked (r.unlocked k e found (rw (is_f, same.same_status) at active)))
      | inr (_, old) ↦ r.unlocked j g old active
    ];
  }

  -- An event that is on after the siblings are deactivated is no sibling, and was there before.
  survivor :
      (org k j : ℕ) (o : Option Event) (g : Event)
      → after_switch org k j o ≡ some g
      → is_on g.status ≡ true
      → (o ≡ some g) × (is_sibling org k j g ≡ false)
  survivor org k j none g h on = cc
  survivor org k j (some e) g h on = elim (Bool-cases (is_sibling org k j e)) [
    | inl y ↦ let off = rw y at h in absurd (switched_off e g off on)
    | inr n ↦ let same = rw n at h in (same, same_test e g same n)
  ]
    where
      switched_off :
          (e g : Event)
          → some (with_status EventStatus.inactive e) ≡ some g
          → is_on g.status ≡ true
          → ⊥
      switched_off e g h on = let is_g = some-injective _ _ h in let dead = rw (← is_g) at on in cc

      same_test :
          (e g : Event)
          → some e ≡ some g
          → is_sibling org k j e ≡ false
          → is_sibling org k j g ≡ false
      same_test e g h not_sibling = rw (← (some-injective _ _ h)) not_sibling

  pub start-Refines :
      (org k : ℕ) (status : EventStatus) (e : Event)
      → get k rows ≡ some e
      → e.organization_id ≡ org
      → is_on status ≡ true
      → (is_active status ≡ true → is_unlocked e.billing_status ≡ true)
      → Refines
          (transition (starts org k status) spec)
          (put k (with_status status e) (map (deactivated org k) rows))
          n
  start-Refines org k status e found own on pays = record {
    sound = λ j g here is_on_g.
        elim (get-put_cases k j (with_status status e) g (map (deactivated org k) rows) here) [
          | inl (_, at, is_e) ↦ rw (is_e, own, ==_refl org, at) refl
          | inr (differs, old) ↦
              let here_before =
                survivor org k j (get j rows) g (rw (get-deactivated org k j rows) at old)
                  is_on_g in
              stays_named spec org k j status g differs is_on_g here_before.1
                (r.sound j g here_before.0 is_on_g)
        ];
    complete = λ o j st named. elim (Bool-cases (o == org)) [
      | inl y ↦
          let new = some-injective (k, status) (j, st) (rw y at named) in
          started (map (deactivated org k) rows) org k o j e status st own on (==_eq o org y)
            (ap (λ x. x.0) new) (ap (λ x. x.1) new)
      | inr other ↦
          let row = r.complete o j st (rw other at named) in
          put-IsRow o j k st (with_status status e) _ (not_touched rows org k o j st other row)
            λ same.
              absurd (
                elsewhere o org row.0 e other row.2 own
                  (same_row rows k j e row.0 same found row.1))
    ];
    fresh = λ j g here.
        elim (get-put_cases k j (with_status status e) g (map (deactivated org k) rows) here) [
          | inl (_, at, _) ↦ omega (arith, at, r.fresh k e found)
          | inr (_, old) ↦
              let before =
                was_there org k j (get j rows) g (rw (get-deactivated org k j rows) at old) in
              r.fresh j before.0 before.1
        ];
    unlocked = λ j g here active.
        elim (get-put_cases k j (with_status status e) g (map (deactivated org k) rows) here) [
          | inl (_, _, is_e) ↦ rw is_e (pays (rw is_e at active))
          | inr (_, old) ↦
              let here_before =
                survivor org k j (get j rows) g (rw (get-deactivated org k j rows) at old)
                  (active_is_on g.status active) in
              r.unlocked j g here_before.0 active
        ];
  }
