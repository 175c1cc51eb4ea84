-- ===== src/Tse.antt =====
-- src/modules/tse/tse.service.ts, the part that signs: resolveProvider, resolveClientId,
-- recordTransaction and reverseTransaction. A provider's answer is `Env.sign`; what goes wrong in
-- `ensureClient` counts as a refusal.
pub mod Run
use openeos_api.Base.{
  ℕ, ℤ, neg, pos, abs_ℕ, String, Bool, true, false, ◌&&◌, Option, none, some, List, ◌∷◌, get, put,
}
use openeos_api.Entities.{
  Organization, TseConfig, TseProviderName, fiskaly, local, no_provider, Device, TseVatSplit,
  TseRequest, TseTransactionData, PaymentMethod,
}
use openeos_api.Store.{
  Store, Env, M, pure, gets, modify, ◌>>=◌, ◌>>◌, SignOutcome, signature, refusal, ok,
}

-- The argument `input` of recordTransaction and reverseTransaction.
pub record TseInput : Type 0 where
  pub amount : ℤ
  pub payment_method : PaymentMethod
  pub vat_splits : List TseVatSplit

-- Is there a provider with its configuration? (`resolveProvider` returns more than null.)
unfoldable pub by_provider : Bool → TseConfig → TseProviderName → Bool
by_provider platform c fiskaly = c.has_fiskaly && elim c.reseller [ true ↦ platform | false ↦ true ]
by_provider platform c local = c.has_local
by_provider platform c no_provider = false

unfoldable pub resolve_provider : Env → Option TseConfig → Bool
unfolding by_provider
resolve_provider env none = false
resolve_provider env (some c) = c.enabled && by_provider env.has_platform_credential c c.provider

-- `resolveClientId`: the client of a device is remembered on its first use.
unfoldable pub client_of_device : ℕ → Option Device → M ℕ
client_of_device device_id none = pure device_id
client_of_device device_id (some d) = elim d.tse_client_id [
  | some client ↦ pure client
  | none ↦ do
    modify λ s. record s {
      devices = put device_id (record d { tse_client_id = some device_id }) s.devices;
    }
    pure device_id
]

unfoldable pub resolve_client_id : ℕ → Option ℕ → M ℕ
unfolding client_of_device
resolve_client_id org none = pure org
resolve_client_id org (some device_id) =
    gets (λ s. get device_id s.devices) >>= client_of_device device_id

-- The stored record of an attempt, by the provider's answer.
abbrev pub transaction_data : TseRequest → SignOutcome → TseTransactionData
transaction_data r (signature v) = record {
  client_id = r.client_id;
  signature = some v;
  vat_splits = r.vat_splits;
  failed = false;
  failure = none;
}
transaction_data r (refusal f) = record {
  client_id = r.client_id;
  signature = none;
  vat_splits = r.vat_splits;
  failed = true;
  failure = some f;
}

unfoldable pub send : Env → TseRequest → M TseTransactionData
send env r s = (ok (transaction_data r (env.sign s.signed r)), record s { signed = r ∷ s.signed })

abbrev pub tse_setting : Option Organization → Option TseConfig
tse_setting none = none
tse_setting (some o) = o.tse

-- Without a provider nothing is signed.
unfoldable pub transact : Env → ℕ → Option ℕ → TseInput → Bool → M (Option TseTransactionData)
unfolding resolve_client_id send
transact env org device input false = pure none
transact env org device input true = do
  client ← resolve_client_id org device
  done ← send env (record {
    client_id = client;
    amount = input.amount;
    payment_method = input.payment_method;
    vat_splits = input.vat_splits;
  })
  pure (some done)

unfoldable pub record_transaction : Env → ℕ → Option ℕ → TseInput → M (Option TseTransactionData)
unfolding transact resolve_provider
record_transaction env org device input =
    gets (λ s. resolve_provider env (tse_setting (get org s.organizations)))
    >>= transact env org device input

-- The amount is negated whatever its sign was, the splits go out as they are.
unfoldable pub reverse_transaction : Env → ℕ → Option ℕ → TseInput → M (Option TseTransactionData)
unfolding record_transaction
reverse_transaction env org device input =
    record_transaction env org device (record input { amount = neg (pos (abs_ℕ input.amount)) })
