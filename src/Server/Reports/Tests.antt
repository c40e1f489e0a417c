-- ===== src/Server/Reports/Tests.antt =====
-- A personal best of src/server2.rs on the Deep Dip 2 map, in the editor, whose context was asked once before.
use dd2_server.Prelude.{ℕ, ◌≡◌, true, false, none, some, String, ok, Result}
use dd2_server.Router.Values.{Map}
use dd2_server.Router.Context.{new}
use dd2_server.Router.Context.Laws.{asked}
use dd2_server.Server.Reports.{on_report_pb_height}
use dd2_server.Server.Reports.Laws.{on_report_pb_height-exact}

abbrev tower : Map
tower = record { uid = "DeepDip2__The_Storm_Is_Here"; name = "DD2"; hash = "" }

abbrev answer : Result String ℕ
answer = ok 7

on_report_pb_height-exact_example :
    ((on_report_pb_height answer
        (some (asked 1 (new 136 0 (some tower) false (some true))))
        5).writes
      ≡ none)
    × ((on_report_pb_height answer
          (some (asked 1 (new 136 0 (some tower) false (some true))))
          5).result
        ≡ ok none)
on_report_pb_height-exact_example =
    on_report_pb_height-exact 1 136 0 (some tower) false (some true) answer 5
