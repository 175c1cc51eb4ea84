-- ===== src/Payments/Refund/Force.antt =====
-- What forceRefund of src/modules/payments/payments.service.ts does on every branch.
mod Tests
use openeos_api.Base.{
  ℕ, ◌≡◌, sym, ℤ, Bool, true, false, not, Option, none, some, String, List, [], ◌∷◌, put, get-put,
  ◌==◌, if◌then◌else◌,
}
use openeos_api.Entities.{Payment, User, TseTransactionData}
use openeos_api.Store.{Store, M, ◌>>=◌, ◌>>◌}
use openeos_api.Orders.Rows.{is_live}
use openeos_api.Payments.Reversal.{reversal_of}
use openeos_api.Payments.Rows.{find_one}
use openeos_api.Payments.Create.Laws.{IsBooked}
use openeos_api.Payments.Refund.{refunded_payment, refund_audit}

-- An aborted call: orders and payments are as before, and the failed attempt is one entry of the audit
-- trail.
pub record IsAborted (org pid : ℕ) (p : Payment) (reason : String) (user : User) (s t : Store)
    : Type 0 where
  pub orders_eq : t.orders ≡ s.orders
  pub payments_eq : t.payments ≡ s.payments
  pub failed_attempt : TseTransactionData
  pub is_failed_attempt : failed_attempt.failed ≡ true
  pub audit_eq : t.audit ≡ refund_audit org pid p reason user false (some failed_attempt) ∷ s.audit

-- What a completed call adds: the signed reversal, and an entry of the audit trail.
pub record IsRecorded (org pid : ℕ) (p : Payment) (reason : String) (user : User)
    (tse : Option TseTransactionData) (s t : Store) : Type 0 where
  pub payments_eq :
      t.payments ≡ put pid (refunded_payment p) (put s.next_id (reversal_of pid p tse) s.payments)
  pub audit_eq : t.audit ≡ refund_audit org pid p reason user true none ∷ s.audit
