-- ===== src/Router/Context.antt =====
-- src/router.rs, `PlayerCtx` and `Map`: what a player reports to be doing, and whether that is
-- official.
pub mod Laws
use dd2_server.Prelude.{ℕ, Bool, true, false, not, ◌&&◌, Option, none, some, String, if◌then◌else◌}
use text.Mathlib.Text.{starts_with}
use dd2_server.Player.ContextFlags.{check_flags_sf_mi}
use dd2_server.Router.Values.{Map}

abbrev pub dd2_map_uid : String
dd2_map_uid = "DeepDip2__The_Storm_Is_Here"

pub is_dd2 : Map → Bool
is_dd2 map = starts_with map.uid dd2_map_uid

-- `is_official` is the answer once it is known.
pub record PlayerCtx : Type 0 where
  pub sf : ℕ
  pub mi : ℕ
  pub map : Option Map
  pub i : Bool
  pub e : Option Bool
  pub is_official : Option Bool

pub new : ℕ → ℕ → Option Map → Bool → Option Bool → PlayerCtx
new sf mi map i e = record { sf = sf; mi = mi; map = map; i = i; e = e; is_official = none }

abbrev pub is_true : Option Bool → Bool
is_true none = false
is_true (some b) = b

abbrev pub on_dd2 : Option Map → Bool
on_dd2 none = false
on_dd2 (some map) = is_dd2 map

abbrev pub remembered : PlayerCtx → Option Bool → Bool × PlayerCtx
remembered ctx (some v) = (v, ctx)
remembered ctx none =
    let ans = not (is_true ctx.e) && check_flags_sf_mi ctx.sf ctx.mi && on_dd2 ctx.map in
    (ans, record ctx { is_official = some ans })

pub check_official : PlayerCtx → Bool × PlayerCtx
check_official ctx = remembered ctx ctx.is_official
