-- ===== src/Orders/Ledger/Reversals.antt =====
-- The reversals of captured payments write no order, no product and no stock movement.
use openeos_api.Base.{
  ℕ, Bool, true, false, Option, none, some, String, List, [], ◌∷◌, get, Bool-cases, Option-cases,
  inl, inr,
}
use openeos_api.Entities.{
  Order, User, Payment, TseTransactionData, TseRequest, Device, OrderAuditLog,
}
use openeos_api.Store.{Store, Env}
use openeos_api.Store.Keeps.{Keeps, Keeps-bind}
use openeos_api.Tse.{
  transact, TseInput, record_transaction, reverse_transaction, resolve_client_id, client_of_device,
}
use openeos_api.Payments.Reversal.{reverse_payment, is_failed, save_payment, captured_payments}
use openeos_api.Orders.Status.{save_audit}
use openeos_api.Orders.Cancel.{
  reverse_all, reverse_captured_payments_for_order, abort_if_failed, force_reverse_all,
}

-- What does not depend on devices, payments, signing requests, ids and the audit trail.
abbrev pub IsOrderly : (Store → Type 0) → Type 0
IsOrderly I =
    (s : Store) (d : List (ℕ × Device)) (p : List (ℕ × Payment)) (r : List TseRequest) (n : ℕ)
    (a : List OrderAuditLog)
    → I s
    → I (record s { devices = d; payments = p; signed = r; next_id = n; audit = a })

module _ (I : Store → Type 0) (orderly : IsOrderly I) where
  device_lem : (device_id : ℕ) (d : Option Device) → Keeps I (client_of_device device_id d)
  unfolding client_of_device
  device_lem device_id none = record { run = λ s v. v }
  device_lem device_id (some d) = record {
    run = λ s v. elim (Option-cases d.tse_client_id) [
      | inl e ↦ rw e (orderly s _ _ _ _ _ v)
      | inr (c, e) ↦ rw e v
    ];
  }

  client_lem : (org : ℕ) (device : Option ℕ) → Keeps I (resolve_client_id org device)
  unfolding resolve_client_id
  client_lem org none = record { run = λ s v. v }
  client_lem org (some d) = record { run = λ s v. (device_lem d (get d s.devices)).run s v }

  transact_lem :
      (env : Env) (org : ℕ) (device : Option ℕ) (input : TseInput) (ready : Bool)
      → Keeps I (transact env org device input ready)
  unfolding transact
  transact_lem env org device input false = record { run = λ s v. v }
  transact_lem env org device input true =
      Keeps-bind I _ _ (client_lem org device) λ c. record { run = λ t w. orderly t _ _ _ _ _ w }

  signed_lem :
      (env : Env) (org : ℕ) (device : Option ℕ) (input : TseInput)
      → Keeps I (record_transaction env org device input)
  unfolding record_transaction
  signed_lem env org device input = record {
    run = λ s v. (transact_lem env org device input _).run s v;
  }

  reverse_lem :
      (env : Env) (org : ℕ) (o : Order) (pid : ℕ) (p : Payment)
      → Keeps I (reverse_payment env org o pid p)
  unfolding reverse_payment reverse_transaction save_payment
  reverse_lem env org o pid p =
      Keeps-bind I _ _ (signed_lem env org o.created_by_device_id _)
        λ tse. record { run = λ s v. orderly s _ _ _ _ _ v }

  reverse_all_lem :
      (env : Env) (org : ℕ) (o : Order) (rows : List (ℕ × Payment))
      → Keeps I (reverse_all env org o rows)
  unfolding reverse_all
  reverse_all_lem env org o [] = record { run = λ s v. v }
  reverse_all_lem env org o ((pid, p) ∷ rows) =
      Keeps-bind I _ _ (reverse_lem env org o pid p) λ _. reverse_all_lem env org o rows

  pub reverse_captured_lem :
      (env : Env) (org oid : ℕ) (o : Order)
      → Keeps I (reverse_captured_payments_for_order env org oid o)
  unfolding reverse_captured_payments_for_order
  reverse_captured_lem env org oid o = record {
    run = λ s v. (reverse_all_lem env org o (captured_payments oid s.payments)).run s v;
  }

  abort_lem :
      (org oid : ℕ) (o : Order) (reason : String) (user : User) (tse : Option TseTransactionData)
      → Keeps I (abort_if_failed org oid o reason user tse)
  unfolding abort_if_failed save_audit
  abort_lem org oid o reason user tse = record {
    run = λ s v. elim (Bool-cases (is_failed tse)) [
      | inl e ↦ rw e (orderly s _ _ _ _ _ v)
      | inr e ↦ rw e v
    ];
  }

  pub force_reverse_all_lem :
      (env : Env) (org oid : ℕ) (o : Order) (reason : String) (user : User)
      (rows : List (ℕ × Payment))
      → Keeps I (force_reverse_all env org oid o reason user rows)
  unfolding force_reverse_all
  force_reverse_all_lem env org oid o reason user [] = record { run = λ s v. v }
  force_reverse_all_lem env org oid o reason user ((pid, p) ∷ rows) =
      Keeps-bind I _ _ (reverse_lem env org o pid p) λ tse.
        Keeps-bind I _ _ (abort_lem org oid o reason user tse)
          λ _. force_reverse_all_lem env org oid o reason user rows
