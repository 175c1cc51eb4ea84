-- ===== src/PfandReturns/Tests.antt =====
-- A payout of two kinds of deposit, as src/modules/pfand-types/pfand-returns.service.ts books it.
use openeos_api.Base.{pos, none, some, List, [], ◌∷◌}
use openeos_api.Samples.{paid_store}
use openeos_api.Store.{Store}
use openeos_api.PfandReturns.{PfandReturnLineDto, PfandReturnContext, create_return}
use openeos_api.PfandReturns.Outcome.{Paid, create_return_lem}

abbrev glasses : Store
glasses = record paid_store {
  pfand_types =
      (2, record { organization_id = 1; name = "Glass"; amount = pos 100 })
      ∷ (3, record { organization_id = 1; name = "Jug"; amount = pos 500 })
      ∷ [];
}

abbrev returned : List PfandReturnLineDto
returned =
    record { pfand_type_id = 3; quantity = 1 } ∷ record { pfand_type_id = 2; quantity = 4 } ∷ []

abbrev at_the_bar : PfandReturnContext
at_the_bar = record { event_id = some 3; device_id = none; user_id = some 9 }

create_return_lem_example :
    Paid 1 returned at_the_bar glasses (create_return 1 returned at_the_bar glasses)
create_return_lem_example = create_return_lem 1 returned at_the_bar glasses
