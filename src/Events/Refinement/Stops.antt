-- ===== src/Events/Refinement/Stops.antt =====
-- Stopping an event of src/modules/events, starting one that runs, and the step relation as a whole.
use openeos_api.Base.{
  ==_eq, ℕ, ◌≡◌, refl, sym, ap, ◌∙◌, ◌⊎◌, inl, inr, arith, true, false, Option, none, some,
  some-injective, List, ◌==◌, get, put, get-put_cases, Bool-cases,
}
use openeos_api.Entities.{Event, EventStatus}
use openeos_api.Events.Rows.{is_on}
use openeos_api.Events.Lifecycle.{with_status}
use openeos_api.Events.Steps.{
  Change, starts, stops, EventStep, stays, inserts, rewrites, switches_on, is_on_already,
  switches_off, is_off_already,
}
use openeos_api.Events.Refinement.{Running, transition, unless_it_is, Refines}
use openeos_api.Events.Refinement.Steps.{
  put-IsRow, same_row, elsewhere, insert-Refines, rewrite-Refines, start-Refines,
}

turned : (k j : ℕ) → (k == j) ≡ false → (j == k) ≡ false
turned k j h = ground arith

-- What still runs after a stop ran before it, and is another event.
unless_it_is-some :
    (k : ℕ) (o : Option (ℕ × EventStatus)) (j : ℕ) (st : EventStatus)
    → unless_it_is k o ≡ some (j, st)
    → (o ≡ some (j, st)) × ((j == k) ≡ false)
unless_it_is-some k none j st h = cc
unless_it_is-some k (some (i, st')) j st h = elim (Bool-cases (i == k)) [
  | inl y ↦ let nothing = rw y at h in cc
  | inr n ↦ let same = rw n at h in (same, rw (← (ap (λ x. x.0) (some-injective _ _ same))) n)
]

-- The other events keep running.
stop-other :
    (spec : Running) (org k o j : ℕ) (st : EventStatus)
    → (j == k) ≡ false
    → spec o ≡ some (j, st)
    → transition (stops org k) spec o ≡ some (j, st)
stop-other spec org k o j st other named = elim (Bool-cases (o == org)) [
  | inl y ↦ rw (y, named, other) refl
  | inr n ↦ rw (n, named) refl
]

ran :
    (spec : Running) (org k o j : ℕ) (st : EventStatus)
    → transition (stops org k) spec o ≡ some (j, st)
    → (spec o ≡ some (j, st)) × (((j == k) ≡ false) ⊎ ((o == org) ≡ false))
ran spec org k o j st h = elim (Bool-cases (o == org)) [
  | inl y ↦ let before = unless_it_is-some k (spec o) j st (rw y at h) in (before.0, inl before.1)
  | inr n ↦ (rw n at h, inr n)
]

not_same : (k j : ℕ) → (j == k) ≡ false → k ≡ j → ⊥
not_same k j h same = ground arith

module _ (spec : Running) (rows : List (ℕ × Event)) (n : ℕ) (r : Refines spec rows n) (org k : ℕ)
    (e : Event) (found : get k rows ≡ some e) (own : e.organization_id ≡ org) where
  stop-Refines :
      Refines (transition (stops org k) spec) (put k (with_status EventStatus.inactive e) rows) n
  stop-Refines = record {
    sound = λ j g here on.
        elim (get-put_cases k j (with_status EventStatus.inactive e) g rows here) [
          | inl (_, _, is_e) ↦ let dead = rw is_e at on in cc
          | inr (differs, old) ↦
              stop-other spec org k g.organization_id j g.status (turned k j differs)
                (r.sound j g old on)
        ];
    complete = λ o j st named.
        let before = ran spec org k o j st named in
        let row = r.complete o j st before.0 in
        put-IsRow o j k st _ rows row λ same. absurd (elim before.1 [
          | inl other ↦ not_same k j other same
          | inr other ↦
              elsewhere o org row.0 e other row.2 own (same_row rows k j e row.0 same found row.1)
        ]);
    fresh = λ j g here. elim (get-put_cases k j _ g rows here) [
      | inl (_, at, _) ↦ omega (arith, at, r.fresh k e found)
      | inr (_, old) ↦ r.fresh j g old
    ];
    unlocked = λ j g here active.
        elim (get-put_cases k j (with_status EventStatus.inactive e) g rows here) [
          | inl (_, _, is_e) ↦ let dead = rw is_e at active in cc
          | inr (_, old) ↦ r.unlocked j g old active
        ];
  }

  off_already-Refines : is_on e.status ≡ false → Refines (transition (stops org k) spec) rows n
  off_already-Refines off = record {
    sound = λ j g here on.
        stop-other spec org k g.organization_id j g.status (off_differs j g here on)
          (r.sound j g here on);
    complete = λ o j st named. r.complete o j st (ran spec org k o j st named).0;
    fresh = r.fresh;
    unlocked = r.unlocked;
  }
    where
      off_differs :
          (j : ℕ) (g : Event) → get j rows ≡ some g → is_on g.status ≡ true → (j == k) ≡ false
      off_differs j g here on = elim (Bool-cases (j == k)) [
        | inr other ↦ other
        | inl y ↦
            let one = same_row rows j k g e (==_eq j k y) here found in
            let dead = rw one at on in cc
      ]

  on_already-Refines :
      (status : EventStatus)
      → e.status ≡ status
      → is_on status ≡ true
      → Refines (transition (starts org k status) spec) rows n
  on_already-Refines status same on = record {
    sound = λ j g here on_g. elim (Bool-cases (g.organization_id == org)) [
      | inr other ↦ rw other (r.sound j g here on_g)
      | inl y ↦
          rw y (sym runs ∙ ap spec (sym (==_eq g.organization_id org y)) ∙ r.sound j g here on_g)
    ];
    complete = λ o j st named. elim (Bool-cases (o == org)) [
      | inr other ↦ r.complete o j st (rw other at named)
      | inl y ↦
          let new = some-injective (k, status) (j, st) (rw y at named) in
          r.complete o j st (ap spec (==_eq o org y) ∙ runs ∙ ap some new)
    ];
    fresh = r.fresh;
    unlocked = r.unlocked;
  }
    where
      runs : spec org ≡ some (k, status)
      runs = rw (← own, ← same) (r.sound k e found (rw same on))

pub step-Refines :
    {c : Change} {rows : List (ℕ × Event)} {n : ℕ} {after : List (ℕ × Event)} {m : ℕ}
    (spec : Running)
    → EventStep c rows n after m
    → Refines spec rows n
    → Refines (transition c spec) after m
step-Refines spec stays r = r
step-Refines {rows} {n} spec (inserts e off) r = insert-Refines spec rows n r e off
step-Refines {rows} {n} spec (rewrites k e f found same) r =
    rewrite-Refines spec rows n r k e f found same
step-Refines {rows} {n} spec (switches_on org k status e found own on pays) r =
    start-Refines spec rows n r org k status e found own on pays
step-Refines {rows} {n} spec (is_on_already org k status e found own same on) r =
    on_already-Refines spec rows n r org k e found own status same on
step-Refines {rows} {n} spec (switches_off org k e found own) r =
    stop-Refines spec rows n r org k e found own
step-Refines {rows} {n} spec (is_off_already org k e found own off) r =
    off_already-Refines spec rows n r org k e found own off
