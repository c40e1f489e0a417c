-- ===== src/Router/Response/Tests.antt =====
-- Codes of responses of src/router.rs, as its own test has them.
use dd2_server.Prelude.{ℕ, ◌≡◌, refl, []}
use dd2_server.Router.Response.{Response, into, hats_mine, hats_on_map}

abbrev mine : Response ℕ
mine = hats_mine "abcdefghijklmnopqrstuvwxyza" "" []

abbrev on_map : Response ℕ
on_map = hats_on_map "abcdefghijklmnopqrstuvwxyza" []

codes : (into mine ≡ 213) × (into on_map ≡ 214)
unfolding into
codes = (refl, refl)
