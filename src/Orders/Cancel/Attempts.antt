-- ===== src/Orders/Cancel/Attempts.antt =====
-- The loop of forceCancelOrder of src/modules/orders/orders.service.ts over the captured payments: it
-- reverses all of them, or stops at the first whose signing failed.
use openeos_api.Base.{
  ℕ, suc, ◌≡◌, refl, sym, ◌∙◌, pos, true, none, some, String, List, [], ◌∷◌, ◌++◌, append-nil,
  append_assoc, ◌⊎◌, inl, inr, put,
}
use openeos_api.Entities.{Order, User, Payment, TseTransactionData}
use openeos_api.Store.{Store, Env, ok, err, bad_request, tse_reversal_required}
use openeos_api.Payments.Reversal.{reversal_of, captured_payments}
use openeos_api.Payments.Reversal.Run.{
  attempt_cases, Reversed, Reversed-nil, Reversed-cons, OfOrder, reverse_payment_run,
  captured_payments-OfOrder, IsFresh-next,
}
use openeos_api.Payments.Net.{IsFresh, put-fresh, net_of, net_captured}
use openeos_api.Orders.Status.{save_audit}
use openeos_api.Orders.Cancel.{
  cancel_audit, abort_if_failed, force_reverse_all, payments_of, has_unloaded,
}
use openeos_api.Orders.Cancel.Stale.{SignedReversals, has_unloaded-new}

-- An aborted call: orders, products and stock movements are as before, and the failed attempt is one
-- entry of the audit trail.
pub record IsAborted (org oid : ℕ) (o : Order) (reason : String) (user : User) (s t : Store)
    : Type 0 where
  pub orders_eq : t.orders ≡ s.orders
  pub products_eq : t.products ≡ s.products
  pub movements_eq : t.movements ≡ s.movements
  pub failed_attempt : TseTransactionData
  pub is_failed_attempt : failed_attempt.failed ≡ true
  pub audit_eq : t.audit ≡ cancel_audit org oid o reason user none (some failed_attempt) ∷ s.audit

pub List-cases : {A : Type 0} (xs : List A) → (xs ≡ []) ⊎ ((y : A) × (ys : List A) × (xs ≡ y ∷ ys))
List-cases [] = inl refl
List-cases (x ∷ xs) = inr (x, xs, refl)

pub nothing_captured :
    (oid : ℕ) (rows : List (ℕ × Payment))
    → captured_payments oid rows ≡ []
    → net_captured oid rows ≡ pos 0
unfolding net_captured net_of
nothing_captured oid rows h = rw h refl

appended :
    (n : ℕ) (q : Payment) (rows new : List (ℕ × Payment))
    → IsFresh n rows
    → put n q rows ++ new ≡ rows ++ (n, q) ∷ new
appended n q rows new h = rw (put-fresh n q rows h) (append_assoc rows ((n, q) ∷ []) new)

-- After a signed reversal the order has a payment that was not loaded.
pub stale_after :
    (oid pid : ℕ) (p : Payment) (rows : List (ℕ × Payment)) (n : ℕ)
    (before after new : List (ℕ × Payment))
    → captured_payments oid before ≡ (pid, p) ∷ rows
    → IsFresh n before
    → SignedReversals n (captured_payments oid before) new
    → after ≡ before ++ new
    → has_unloaded oid (payments_of oid before) after ≡ true
unfolding reversal_of
stale_after oid pid p rows n before after new e fresh signed grown =
    let (tse, rest, first, good, more) = rw e at signed in
    let own = rw e at (captured_payments-OfOrder oid before) in
    rw (grown, first) (has_unloaded-new oid n (reversal_of pid p tse) before rest fresh own.0)

module _ (env : Env) (org oid : ℕ) (o : Order) (reason : String) (user : User) where
  abbrev pub Aborts : List (ℕ × Payment) → Store → Type 0
  Aborts rows s =
      (t : Store) × (force_reverse_all env org oid o reason user rows s
        ≡ (err (bad_request tse_reversal_required), t))
      × IsAborted org oid o reason user s t

  abbrev pub Passes : List (ℕ × Payment) → Store → Type 0
  Passes rows s =
      (t : Store) × (force_reverse_all env org oid o reason user rows s ≡ (ok tt, t))
      × Reversed oid rows s t
      × (t.audit ≡ s.audit)
      × (new : List (ℕ × Payment)) × SignedReversals s.next_id rows new
      × (t.payments ≡ s.payments ++ new)

  pub force_reverse_all_cases :
      (rows : List (ℕ × Payment)) (s : Store)
      → OfOrder oid rows
      → IsFresh s.next_id s.payments
      → Aborts rows s ⊎ Passes rows s
  unfolding force_reverse_all abort_if_failed save_audit
  force_reverse_all_cases [] s q h =
      inr (s, refl, Reversed-nil oid s h, refl, [], refl, sym (append-nil s.payments))
  force_reverse_all_cases ((pid, p) ∷ rows) s (mine, q) h =
      let (t, d, g, e) = reverse_payment_run env org o pid p s in
      let w : Store = record s {
        devices = d;
        signed = g;
        next_id = suc s.next_id;
        payments = put s.next_id (reversal_of pid p t) s.payments;
      } in
      elim (attempt_cases t) [
        | inr (attempt, same, bad) ↦ inl (
          record w { audit = cancel_audit org oid o reason user none t ∷ s.audit },
          rw (e, same, bad),
          record {
            orders_eq = refl;
            products_eq = refl;
            movements_eq = refl;
            failed_attempt = attempt;
            is_failed_attempt = bad;
            audit_eq = rw same;
          },
        )
        | inl good ↦
            elim (force_reverse_all_cases rows w q (IsFresh-next s (reversal_of pid p t) h)) [
              | inl (u, f, a) ↦ inl (
                u,
                rw (e, good, f),
                record {
                  orders_eq = a.orders_eq;
                  products_eq = a.products_eq;
                  movements_eq = a.movements_eq;
                  failed_attempt = a.failed_attempt;
                  is_failed_attempt = a.is_failed_attempt;
                  audit_eq = a.audit_eq;
                },
              )
              | inr (u, f, r, a, new, signed, grown) ↦ inr (
                u,
                rw (e, good, f),
                Reversed-cons oid pid p rows t d g s u h mine r,
                a,
                (s.next_id, reversal_of pid p t) ∷ new,
                (t, new, refl, good, signed),
                grown ∙ appended s.next_id (reversal_of pid p t) s.payments new h,
              )
            ]
      ]
