-- ===== src/Inventory/Routes/Paths.antt =====
-- The key of a product in a path of inventory-service/api_routes.go.
use micro_market.Base.{ℕ, ◌^◌, ◌<◌, String, ◌≡◌, arith}
use micro_market.Base.Text.{decimal}
use micro_market.Base.Strconv.Decimal.{parse_uint-decimal}
use micro_market.Common.Action.{ok}
use micro_market.Inventory.Routes.{Web, path_id}

-- A key below 2 ^ 64 that is printed in decimal in a path is read back.
pub path_id-decimal :
    (web : Web) (n : ℕ) (body : String)
    → n < 2 ^ 64
    → path_id web (record { id = decimal n; body = body }) ≡ ok n
unfolding path_id
path_id-decimal web n body h = let p = parse_uint-decimal n h in ground arith
