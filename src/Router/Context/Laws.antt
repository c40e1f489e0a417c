-- ===== src/Router/Context/Laws.antt =====
-- The answer that `PlayerCtx::is_official` of src/router.rs remembers.
use dd2_server.Prelude.{ℕ, zero, suc, ◌≡◌, refl, Bool, not, ◌&&◌, Option, some}
use dd2_server.Player.ContextFlags.{check_flags_sf_mi}
use dd2_server.Router.Values.{Map}
use dd2_server.Router.Context.{PlayerCtx, new, is_true, on_dd2, check_official}

-- The context after that many questions.
abbrev pub asked : ℕ → PlayerCtx → PlayerCtx
asked zero ctx = ctx
asked (suc n) ctx = asked n (check_official ctx).1

-- The context with its answer.
abbrev pub known : ℕ → ℕ → Option Map → Bool → Option Bool → PlayerCtx
known sf mi map i e = record {
  sf = sf;
  mi = mi;
  map = map;
  i = i;
  e = e;
  is_official = some (not (is_true e) && check_flags_sf_mi sf mi && on_dd2 map);
}

asked-known :
    (n sf mi : ℕ) (map : Option Map) (i : Bool) (e : Option Bool)
    → asked n (known sf mi map i e) ≡ known sf mi map i e
unfolding check_official
asked-known zero sf mi map i e = refl
asked-known (suc n) sf mi map i e = asked-known n sf mi map i e

-- However often it was asked before, a context answers that it is official exactly when it does
-- not report the editor, its flags are accepted, and its map is a Deep Dip 2 map.
pub check_official-asked :
    (n sf mi : ℕ) (map : Option Map) (i : Bool) (e : Option Bool)
    → (check_official (asked n (new sf mi map i e))).0
      ≡ (not (is_true e) && check_flags_sf_mi sf mi && on_dd2 map)
unfolding check_official new
check_official-asked zero sf mi map i e = refl
check_official-asked (suc n) sf mi map i e = rw (asked-known n sf mi map i e) refl
