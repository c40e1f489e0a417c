-- ===== src/Server/Reports.antt =====
-- src/server2.rs, `on_report_stats` and `on_report_pb_height`: which reports reach the database.
pub mod Laws
mod Tests
use dd2_server.Prelude.{
  ℕ, Bool, true, false, not, Option, none, some, if◌then◌else◌, Result, ok, err,
}
use dd2_server.Router.Context.{PlayerCtx, check_official}

-- The result, the context after it, and the writes to the database, the newest first.
pub record Reported (E A W : Type 0) : Type 0 where
  pub result : Result E A
  pub ctx : Option PlayerCtx
  pub writes : W

abbrev pub official : Option PlayerCtx → Bool × Option PlayerCtx
official none = (false, none)
official (some ctx) = let (answer, ctx') = check_official ctx in (answer, some ctx')

module _ {E S : Type 0} where
  -- `update` is the database's answer to storing the report.
  pub on_report_stats : Result E Unit → Option PlayerCtx → S → Reported E Unit (Option S)
  on_report_stats update ctx stats =
      let (answer, ctx') = official ctx in
      if answer
      then record { result = update; ctx = ctx'; writes = some stats }
      else record { result = ok tt; ctx = ctx'; writes = none }

module _ {E R : Type 0} where
  abbrev pub stored : Result E R → Result E (Option R)
  stored (ok res) = ok (some res)
  stored (err e) = err e

  -- A report that is not official is dropped, with a reason in the log.
  pub on_report_pb_height : Result E R → Option PlayerCtx → ℕ → Reported E (Option R) (Option ℕ)
  on_report_pb_height update ctx h =
      let (answer, ctx') = official ctx in
      if not answer
      then record { result = ok none; ctx = ctx'; writes = none }
      else record { result = stored update; ctx = ctx'; writes = some h }
