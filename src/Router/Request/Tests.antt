-- ===== src/Router/Request/Tests.antt =====
-- Codes of requests of src/router.rs, as its own test has them.
use dd2_server.Prelude.{ℕ, ◌≡◌, some, string_eq}
use dd2_server.Prelude.HashMap
use dd2_server.Router.Request.{Request, ty, report_hat_unlock, get_hats_mine}
use dd2_server.Router.Request.Names.{name}
use dd2_server.Router.Request.Tables.{discriminants}
use dd2_server.Router.Request.Codes.{ty-discriminants}

abbrev unlock : Request ℕ
unlock = report_hat_unlock "abcdefghijklmnopqrstuvwxyza" "Hat-1" 1

abbrev mine : Request ℕ
mine = get_hats_mine "abcdefghijklmnopqrstuvwxyza"

ty-discriminants_example : HashMap.get "ReportHatUnlock" discriminants ≡ some 84
unfolding ty name
ty-discriminants_example = ty-discriminants unlock
