-- ===== src/Tests/CatalogTests.antt =====
-- The theorems on a product in the two services at concrete inputs. The checkout service of its
-- tests is at the other end of the client.
use micro_market.Base.{String, ℕ, ◌≡◌, refl, subst, false, some, []}
use micro_market.Base.Int.{pos}
use micro_market.Common.AppError.{Error}
use micro_market.Common.Wire.{CheckoutClient, answered}
use micro_market.Common.Grpc.{answer}
use micro_market.Inventory.Environment.{World, Environment}
use micro_market.Inventory.Products.{create_product, update_product, delete_product}
use micro_market.Checkout.Environment as ShopsEnvironment
use micro_market.Checkout.Products as ShopsProducts
use micro_market.Checkout.Grpc
use micro_market.Checkout.Orders.{place_new_order}
use micro_market.Inventory.Model.{product_resource}
use micro_market.Market.Links.{IsCheckoutClient}
use micro_market.Market.Products as Creating
use micro_market.Market.Products.Updating
use micro_market.Market.Products.Deleting
use micro_market.Market.Mirror
use micro_market.Market.Mirror.Changes
use micro_market.Tests.InventoryDb as Stores
use micro_market.Tests.InventoryTests as StoresTests
use micro_market.Tests.CheckoutDb as Shops
use micro_market.Tests.CheckoutTests as ShopsTests

abbrev text : Error → String
text e = "error"

abbrev Shop : Type 0
Shop = ShopsEnvironment.World Shops.Db ℕ ℕ ℕ

abbrev client : CheckoutClient Shop
client = record {
  add_new_product = Grpc.add_new_product ShopsTests.env text;
  update_product = Grpc.update_product ShopsTests.env text;
  delete_product = Grpc.delete_product ShopsTests.env text;
}

abbrev env : Environment Stores.Db Shop ℕ
env = Stores.environment (some client)

-- Both services have the chair, with the key 2.
abbrev world : World Stores.Db Shop ℕ
world = record { db = StoresTests.world.db; checkout = ShopsTests.world; chaos = []; rng = 3 }

linked :
    (shop : CheckoutClient Shop)
    → some client ≡ some shop
    → IsCheckoutClient ShopsTests.env text shop
linked shop e = subst (IsCheckoutClient ShopsTests.env text) (cc) (record {
  add_new_product = λ req w. answered refl;
  update_product = λ req w. answered refl;
  delete_product = λ req w. answered refl;
})

-- What the calls compute with.
unfoldable runs : Unit {0}
unfolding StoresTests.runs Grpc.add_new_product Grpc.update_product Grpc.delete_product answer
    ShopsProducts.add_new_product ShopsProducts.update_product ShopsProducts.delete_product
    ShopsProducts.new_product ShopsProducts.updated_product ShopsEnvironment.maybe_fail
    ShopsEnvironment.or_zero Shops.insert_product ShopsProducts.find_product
runs = tt

create_product-CreatedInBoth_example :
    Creating.CreatedInBoth env
      (Stores.contract (some client))
      ShopsTests.env
      (Shops.contract (some ShopsTests.counting))
      text
      linked
      world
      (create_product env StoresTests.table world).1
unfolding runs
create_product-CreatedInBoth_example =
    Creating.create_product-CreatedInBoth env (Stores.contract (some client)) ShopsTests.env
      (Shops.contract (some ShopsTests.counting)) text linked StoresTests.table world
      (create_product env StoresTests.table world).1
      (record {
        internal_id = 3;
        sid = "01J";
        name = "table";
        price = pos 90;
        currency = "USD";
        available_quantity = pos 1;
        out_of_stock = false;
        created_at = 9;
      })
      refl

update_product-UpdatedInBoth_example :
    Updating.UpdatedInBoth env
      (Stores.contract (some client))
      ShopsTests.env
      (Shops.contract (some ShopsTests.counting))
      text
      linked
      2
      StoresTests.table
      world
      (update_product env 2 StoresTests.table world).1
unfolding runs
update_product-UpdatedInBoth_example =
    Updating.update_product-UpdatedInBoth env (Stores.contract (some client)) ShopsTests.env
      (Shops.contract (some ShopsTests.counting)) text linked 2 StoresTests.table world
      (update_product env 2 StoresTests.table world).1
      (record {
        internal_id = 2;
        sid = "C";
        name = "table";
        price = pos 90;
        currency = "USD";
        available_quantity = pos 1;
        out_of_stock = false;
        created_at = 0;
      })
      refl

delete_product-DeletedInBoth_example :
    Deleting.DeletedInBoth env
      (Stores.contract (some client))
      ShopsTests.env
      (Shops.contract (some ShopsTests.counting))
      text
      linked
      2
      world
      (delete_product env 2 world).1
unfolding runs
delete_product-DeletedInBoth_example =
    Deleting.delete_product-DeletedInBoth env (Stores.contract (some client)) ShopsTests.env
      (Shops.contract (some ShopsTests.counting)) text linked 2 world (delete_product env 2 world).1
      refl

world-IsMirror :
    Changes.IsMirror env
      (Stores.contract (some client))
      ShopsTests.env
      (Shops.contract (some ShopsTests.counting))
      text
      linked
      world
world-IsMirror = record { same = refl; distinct = (refl, tt) }

-- A table is created, chairs are ordered at the checkout service, and the chair is deleted.
abbrev with_table : World Stores.Db Shop ℕ
with_table = (create_product env StoresTests.table world).1

abbrev with_order : World Stores.Db Shop ℕ
with_order = record with_table {
  checkout = (place_new_order ShopsTests.env ShopsTests.two_chairs with_table.checkout).1;
}

abbrev without_chair : World Stores.Db Shop ℕ
without_chair = (delete_product env 2 with_order).1

chair-Runs :
    Mirror.Runs env
      (Stores.contract (some client))
      ShopsTests.env
      (Shops.contract (some ShopsTests.counting))
      text
      linked
      world
      without_chair
unfolding runs ShopsTests.runs
chair-Runs =
    Mirror.step {w' = with_order}
      (Mirror.step {w' = with_table}
        (Mirror.step Mirror.start (
          Mirror.created StoresTests.table
            (product_resource (record StoresTests.chair {
              id = 3;
              sid = "01J";
              name = "table";
              price = pos 90;
              available_quantity = some (pos 1);
              created_at = 9;
              updated_at = 9;
            }))
            refl))
        (Mirror.ordered ShopsTests.two_chairs))
      (Mirror.deleted 2 refl)

Runs-IsMirror_example :
    Changes.IsMirror env
      (Stores.contract (some client))
      ShopsTests.env
      (Shops.contract (some ShopsTests.counting))
      text
      linked
      without_chair
Runs-IsMirror_example =
    Mirror.Runs-IsMirror env (Stores.contract (some client)) ShopsTests.env
      (Shops.contract (some ShopsTests.counting)) text linked world-IsMirror chair-Runs
