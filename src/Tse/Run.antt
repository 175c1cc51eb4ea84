-- ===== src/Tse/Run.antt =====
-- recordTransaction never raises, and writes to devices and to the requests that were sent alone.
use openeos_api.Base.{
  ℕ, ◌≡◌, refl, ◌∷◌, List, Bool, true, false, Option, none, some, get, put, Option-cases, inl, inr,
}
use openeos_api.Entities.{Device, TseRequest, TseTransactionData}
use openeos_api.Store.{Store, Env, ok}
use openeos_api.Tse.{
  TseInput, client_of_device, resolve_client_id, send, transact, record_transaction,
  transaction_data,
}

abbrev pub with_signing : List (ℕ × Device) → List TseRequest → Store → Store
with_signing d g s = record s { devices = d; signed = g }

device_run :
    (id : ℕ) (found : Option Device) (s : Store)
    → (d : List (ℕ × Device)) × (c : ℕ) × (client_of_device id found s
        ≡ (ok c, with_signing d s.signed s))
unfolding client_of_device
device_run id none s = (s.devices, id, refl)
device_run id (some d) s = elim (Option-cases d.tse_client_id) [
  | inl e ↦ (put id (record d { tse_client_id = some id }) s.devices, id, rw e)
  | inr (c, e) ↦ (s.devices, c, rw e)
]

client_run :
    (org : ℕ) (device : Option ℕ) (s : Store)
    → (d : List (ℕ × Device)) × (c : ℕ) × (resolve_client_id org device s
        ≡ (ok c, with_signing d s.signed s))
unfolding resolve_client_id
client_run org none s = (s.devices, org, refl)
client_run org (some id) s = device_run id (get id s.devices) s

transact_run :
    (env : Env) (org : ℕ) (device : Option ℕ) (input : TseInput) (ready : Bool) (s : Store)
    → (t : Option TseTransactionData) × (d : List (ℕ × Device)) × (g : List TseRequest) × (transact
          env org device input ready s
        ≡ (ok t, with_signing d g s))
unfolding transact send
transact_run env org device input false s = (none, s.devices, s.signed, refl)
transact_run env org device input true s =
    let (d, c, e) = client_run org device s in
    let request : TseRequest = record {
      client_id = c;
      amount = input.amount;
      payment_method = input.payment_method;
      vat_splits = input.vat_splits;
    } in
    (some (transaction_data request (env.sign s.signed request)), d, request ∷ s.signed, rw e)

pub record_transaction_run :
    (env : Env) (org : ℕ) (device : Option ℕ) (input : TseInput) (s : Store)
    → (t : Option TseTransactionData) × (d : List (ℕ × Device)) × (g : List TseRequest)
      × (record_transaction env org device input s ≡ (ok t, with_signing d g s))
unfolding record_transaction
record_transaction_run env org device input s = transact_run env org device input _ s
