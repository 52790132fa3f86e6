-- ===== src/Tests/MarketTests.antt =====
-- The theorems on the two services together at concrete inputs. The inventory service of its
-- tests is at the other end of the client.
use micro_market.Common.AppError.{Error}
use micro_market.Base.{length, String, ℕ, ◌^◌, ◌<◌, ◌≡◌, refl, subst, ◌↔◌, some, [], arith}
use micro_market.Base.Int.{pos, IsInt32}
use micro_market.Common.Wire.{answer_lost, InventoryClient, answered}
use micro_market.Inventory.Grpc
use micro_market.Inventory.Environment as InventoryEnvironment
use micro_market.Market.Links.{IsInventoryClient}
use micro_market.Market.Orders
use micro_market.Market.Refusals
use micro_market.Common.AppError.{rpc, unavailable, new_app_error}
use micro_market.Common.Action.{err}
use micro_market.Checkout.Orders.{translate}
use micro_market.Market.Wire
use micro_market.Market.Overflow
use micro_market.Inventory.Orders.{is_short, taken}
use micro_market.Base.{false, ◌-◌, ◌+◌}
use micro_market.Checkout.Orders.{PlaceOrderRequest}
use micro_market.Checkout.Model.{OrderModel}
use micro_market.Checkout.Environment.{Environment, World}
use micro_market.Checkout.Orders.{place_new_order, register_request, new_order}
use micro_market.Inventory.Grpc.{placed_request}
use micro_market.Common.Grpc.{answer}
use micro_market.Inventory.Products.{check_product_availability}
use micro_market.Tests.InventoryDb as Stores
use micro_market.Tests.InventoryTests as Inventory
use micro_market.Tests.CheckoutDb as Shops
use micro_market.Tests.CheckoutTests as Checkout

abbrev text : Error → String
text e = "error"

abbrev Peer : Type 0
Peer = InventoryEnvironment.World Stores.Db ℕ ℕ

-- Every call is answered.
abbrev client : InventoryClient Peer
client = record {
  reserve_product = Grpc.reserve_product Inventory.env text;
  register_order = Grpc.register_order Inventory.env text;
}

abbrev env : Environment Shops.Db Peer ℕ ℕ
env = Shops.environment (some client)

abbrev world : World Shops.Db Peer ℕ ℕ
world = record {
  db = Checkout.world.db;
  inventory = Inventory.world;
  redis = 0;
  chaos = [];
  rng = 3;
  log = [];
}

linked :
    (other : InventoryClient Peer)
    → some client ≡ some other
    → IsInventoryClient Inventory.env text other
linked other e =
    subst (IsInventoryClient Inventory.env text) (cc)
      (record { reserve_product = λ req w. answered refl; register_order = λ req w. answered refl })

place_new_order-InBoth_example :
    Orders.InBoth Inventory.env
      (Stores.contract (some Inventory.counting))
      env
      (Shops.contract (some client))
      text
      linked
      Checkout.two_chairs
      world
      (place_new_order env Checkout.two_chairs world).1
unfolding Inventory.runs Checkout.runs Grpc.reserve_product Grpc.register_order answer
    check_product_availability Grpc.reserve_response placed_request
place_new_order-InBoth_example =
    Orders.place_new_order-InBoth Inventory.env (Stores.contract (some Inventory.counting)) env
      (Shops.contract (some client)) text linked Checkout.two_chairs world
      (place_new_order env Checkout.two_chairs world).1
      (record {
        internal_id = 1;
        sid = "01K";
        user_id = 1;
        user_name = "";
        user_email = "";
        product_id = 2;
        product_name = "";
        price_per_item = pos 40;
        quantity = pos 2;
        total = pos 80;
        created_at = 9;
      })
      refl

abbrev order : OrderModel
order = new_order Checkout.two_chairs Checkout.chair

placed_request-register_request_iff_example :
    (((placed_request (register_request Checkout.two_chairs Checkout.chair order)).user_id
        ≡ Checkout.two_chairs.user_id)
      × ((placed_request (register_request Checkout.two_chairs Checkout.chair order)).quantity
          ≡ Checkout.two_chairs.quantity))
    ↔ ((Checkout.two_chairs.user_id < 2 ^ 31) × IsInt32 Checkout.two_chairs.quantity)
placed_request-register_request_iff_example =
    Wire.placed_request-register_request_iff Checkout.two_chairs Checkout.chair order (omega arith)

-- The registration is carried out, and its answer does not come back.
abbrev losing : InventoryClient Peer
losing = record {
  reserve_product = Grpc.reserve_product Inventory.env text;
  register_order = λ req w. (
    err (rpc (record { code = unavailable; message = "connection reset" })),
    (Grpc.register_order Inventory.env text req w).1,
  );
}

linked_losing :
    (other : InventoryClient Peer)
    → some losing ≡ some other
    → IsInventoryClient Inventory.env text other
linked_losing other e = subst (IsInventoryClient Inventory.env text) (cc) (record {
  reserve_product = λ req w. answered refl;
  register_order =
      λ req w. answer_lost (record { code = unavailable; message = "connection reset" }) refl;
})

abbrev lost : World Shops.Db Peer ℕ ℕ
lost = (place_new_order (Shops.environment (some losing)) Checkout.two_chairs world).1

place_new_order-Leaves_example :
    (lost.db.sales ≡ world.db.sales)
    × Refusals.Leaves Inventory.env
        (Stores.contract (some Inventory.counting))
        (Shops.environment (some losing))
        (Shops.contract (some losing))
        text
        linked_losing
        Checkout.two_chairs
        world.inventory
        lost.inventory
unfolding Inventory.runs Checkout.runs Grpc.reserve_product Grpc.register_order answer
    check_product_availability Grpc.reserve_response placed_request translate
place_new_order-Leaves_example =
    Refusals.place_new_order-Leaves Inventory.env (Stores.contract (some Inventory.counting))
      (Shops.environment (some losing)) (Shops.contract (some losing)) text linked_losing
      Checkout.two_chairs world lost (new_app_error 503 "inventory unavailable") refl

-- The order is not in the checkout service, and it is in the inventory service.
lost_test : (lost.db.sales ≡ []) × (length lost.inventory.db.sales ≡ 1)
unfolding Inventory.runs Checkout.runs Grpc.reserve_product Grpc.register_order answer
    check_product_availability Grpc.reserve_response placed_request translate
lost_test = (refl, refl)

-- Five chairs, and an order of 2 ^ 32 - 7.
abbrev too_many : PlaceOrderRequest
too_many = record { user_id = 1; product_id = 2; quantity = pos 4294967289 }

taken-register_request_example :
    (is_short Inventory.chair
        (placed_request (register_request too_many Checkout.chair order)).quantity
      ≡ false)
    × ((taken Inventory.chair
          (placed_request
            (register_request too_many Checkout.chair order)).quantity).available_quantity
        ≡ some (pos (5 + (2 ^ 32 - 4294967289))))
unfolding Inventory.runs
taken-register_request_example =
    Overflow.taken-register_request too_many 4294967289 5 Checkout.chair order Inventory.chair refl
      (omega arith) (omega arith) refl refl (omega arith)
