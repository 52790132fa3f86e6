-- ===== src/Common/StatusCode.antt =====
-- The statuses of net/http that the code names.
use micro_market.Base.{ℕ}

abbrev pub bad_request : ℕ
bad_request = 400

abbrev pub not_found : ℕ
not_found = 404

abbrev pub gone : ℕ
gone = 410

abbrev pub unprocessable_entity : ℕ
unprocessable_entity = 422

abbrev pub internal_server_error : ℕ
internal_server_error = 500

abbrev pub bad_gateway : ℕ
bad_gateway = 502

abbrev pub service_unavailable : ℕ
service_unavailable = 503

abbrev pub gateway_timeout : ℕ
gateway_timeout = 504
