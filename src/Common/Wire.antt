-- ===== src/Common/Wire.antt =====
-- proto/: the messages that the services send one another, and the two generated clients, which
-- are parameters. A call of a client changes the state of the service at the other end.
use micro_market.Base.{String, ◌≡◌, Bool}
use micro_market.Base.Int.{ℤ}
use micro_market.Common.AppError.{Status, rpc}
use micro_market.Common.Action.{Result, err, Action}

pub record Product : Type 0 where
  pub sid : String
  pub name : String
  pub price : ℤ
  pub currency : String
  pub out_of_stock : Bool

pub record AddNewProductRequest : Type 0 where
  pub product : Product

pub record UpdateProductRequest : Type 0 where
  pub sid : String
  pub name : String
  pub price : ℤ
  pub currency : String
  pub available_quantity : ℤ
  pub out_of_stock : Bool

pub record DeleteProductRequest : Type 0 where
  pub sid : String

-- The three responses of the checkout service hold one field, `success`.
pub record Success : Type 0 where
  pub success : Bool

pub record ReserveProductRequest : Type 0 where
  pub sid : String
  pub quantity : ℤ

pub record ReserveProductResponse : Type 0 where
  pub available_quantity : ℤ
  pub out_of_stock : Bool
  pub is_available : Bool

pub record RegisterOrderRequest : Type 0 where
  pub order_sid : String
  pub user_id : ℤ
  pub product_sid : String
  pub quantity : ℤ

-- `checkoutv1.CheckoutServiceClient`
pub record CheckoutClient (Peer : Type 0) : Type 0 where
  pub add_new_product : AddNewProductRequest → Action Peer Success
  pub update_product : UpdateProductRequest → Action Peer Success
  pub delete_product : DeleteProductRequest → Action Peer Success

-- `inventoryv1.InventoryServiceClient`
pub record InventoryClient (Peer : Type 0) : Type 0 where
  pub reserve_product : ReserveProductRequest → Action Peer ReserveProductResponse
  pub register_order : RegisterOrderRequest → Action Peer Success

-- How a call of a remote handler may end: it is answered; the request is lost; or the answer is
-- lost, and the handler has run all the same. A call that is not answered returns a status.
module _ {Req Res Peer : Type 0} (handler : Req → Action Peer Res) (req : Req) (peer : Peer)
    (end : Result Res × Peer) where
  pub data CallEnds : Type 0 where
    answered : end ≡ handler req peer → CallEnds
    request_lost : (s : Status) → end ≡ (err (rpc s), peer) → CallEnds
    answer_lost : (s : Status) → end ≡ (err (rpc s), (handler req peer).1) → CallEnds
