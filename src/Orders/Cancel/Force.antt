-- ===== src/Orders/Cancel/Force.antt =====
-- forceCancelOrder of src/modules/orders/orders.service.ts: all captured payments are reversed before
-- anything else is written, and a failed reversal aborts it.
use openeos_api.Base.{ℕ, ◌≡◌, pos, none, some, String, List, ◌∷◌, ◌++◌}
use openeos_api.Entities.{Order, User, Payment}
use openeos_api.Store.{Store, Env, ok, err, bad_request, tse_reversal_required, query_failed}
use openeos_api.Payments.Reversal.{captured_payments}
use openeos_api.Payments.Net.{net_captured}
use openeos_api.Payments.Create.Laws.{IsBooked}
use openeos_api.Orders.Cancel.{cancelled_order, cancel_audit, force_cancel_order}
use openeos_api.Orders.Cancel.Net.{IsCancelledTo}
use openeos_api.Orders.Cancel.Stale.{SignedReversals}
use openeos_api.Orders.Cancel.Attempts.{IsAborted}

-- A call that fails at saving the order: the reversals are stored, each with a signing that did not
-- fail, and the payments sum to zero, but the order still has its status, and the audit trail has no
-- entry.
pub record IsHalfDone (org oid : ℕ) (o : Order) (s t : Store) : Type 0 where
  pub reversals : List (ℕ × Payment)
  pub are_signed : SignedReversals s.next_id (captured_payments oid s.payments) reversals
  pub payments_eq : t.payments ≡ s.payments ++ reversals
  pub net_zero : net_captured oid t.payments ≡ pos 0
  pub booked_eq : IsBooked org oid o t
  pub audit_eq : t.audit ≡ s.audit

-- What follows the reversals, in the two cases.
module _ (env : Env) (org oid : ℕ) (o : Order) (reason : String) (user : User) where
  abbrev c : Order
  c = cancelled_order env (some reason) o

  abbrev pub Refused : Store → Type 0
  Refused s =
      (t : Store) × (force_cancel_order env org oid reason user s
        ≡ (err (bad_request tse_reversal_required), t))
      × IsAborted org oid o reason user s t

  abbrev pub Unsaved : Store → Type 0
  Unsaved s =
      (t : Store) × (force_cancel_order env org oid reason user s ≡ (err query_failed, t))
      × IsHalfDone org oid o s t

  abbrev pub Cancelled : Store → Type 0
  Cancelled s =
      (t : Store) × (force_cancel_order env org oid reason user s ≡ (ok c, t))
      × IsCancelledTo org oid c t
      × (t.audit ≡ cancel_audit org oid o reason user (some c) none ∷ s.audit)
