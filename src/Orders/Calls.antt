-- ===== src/Orders/Calls.antt =====
-- The methods of OrdersService that write, as one type of calls, and what a sequence of calls makes of
-- the store. A call that raises keeps what it saved before.
use openeos_api.Base.{ℕ, Option, String, List, [], ◌∷◌}
use openeos_api.Entities.{OrderStatus, User}
use openeos_api.Store.{Store, Env, M, pure, ◌>>◌}
use openeos_api.Orders.Items.{
  AddOrderItemDto, UpdateOrderItemDto, add_item, update_item, remove_item,
}
use openeos_api.Orders.Create.{CreateOrderDto, UpdateOrderDto, create, update, remove}
use openeos_api.Orders.Status.{
  mark_item_ready, mark_item_ready_from_device, mark_item_delivered, complete_order,
  force_update_status,
}
use openeos_api.Orders.Cancel.{cancel_order, force_cancel_order}

pub data OrderCall : Type 0 where
  create_call : CreateOrderDto → OrderCall
  update_call : ℕ → UpdateOrderDto → OrderCall
  remove_call : ℕ → OrderCall
  add_item_call : ℕ → AddOrderItemDto → OrderCall
  update_item_call : ℕ → ℕ → UpdateOrderItemDto → OrderCall
  remove_item_call ready_call delivered_call : ℕ → ℕ → OrderCall
  device_ready_call : ℕ → OrderCall
  complete_call : ℕ → OrderCall
  cancel_call : ℕ → Option String → OrderCall
  force_cancel_call : ℕ → String → OrderCall
  force_status_call : ℕ → OrderStatus → String → OrderCall

-- Who calls, and in which surroundings.
pub record Request : Type 0 where
  pub env : Env
  pub organization_id : ℕ
  pub user : User
  pub call : OrderCall

abbrev pub done {ℓ} : {A : Type ℓ} → M A → M (Unit {0})
done m = m >> pure tt

unfoldable pub perform : Env → ℕ → User → OrderCall → M (Unit {0})
perform env org user (create_call dto) = done (create env org dto user)
perform env org user (update_call oid dto) = done (update org oid dto user)
perform env org user (remove_call oid) = remove env org oid user
perform env org user (add_item_call oid dto) = done (add_item org oid dto user)
perform env org user (update_item_call oid iid dto) = done (update_item org oid iid dto user)
perform env org user (remove_item_call oid iid) = done (remove_item org oid iid user)
perform env org user (ready_call oid iid) = done (mark_item_ready env org oid iid user)
perform env org user (delivered_call oid iid) = done (mark_item_delivered env org oid iid user)
perform env org user (device_ready_call iid) = done (mark_item_ready_from_device env org iid)
perform env org user (complete_call oid) = done (complete_order env org oid user)
perform env org user (cancel_call oid reason) = done (cancel_order env org oid reason user)
perform env org user (force_cancel_call oid reason) =
    done (force_cancel_order env org oid reason user)
perform env org user (force_status_call oid status reason) =
    done (force_update_status org oid status reason user)

unfoldable pub serve : Request → Store → Store
unfolding perform
serve r s = (perform r.env r.organization_id r.user r.call s).1

unfoldable pub serve_all : List Request → Store → Store
unfolding serve
serve_all [] s = s
serve_all (r ∷ rs) s = serve_all rs (serve r s)
