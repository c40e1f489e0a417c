-- ===== src/Moderation/Standing.antt =====
-- src/moderation_http.rs, `routes`: the requests that change the tables, and what any run of them
-- keeps: a player who is banned from a map has no official standing there.
use dd2_server.Prelude.{
  ℕ, ◌≡◌, Bool, true, false, Option, none, some, [], String, ◌==◌, string_eq, nat_eq, pair_eq, inl,
  inr, arith, if◌then◌else◌, Bool-cases,
}
use dd2_server.Prelude.HashMap
use dd2_server.Prelude.HashMap.{get-insert, get-remove}
use dd2_server.Moderation.Tables.{
  Db, MapBan, Statement, run, mark_lifted, get_active_ban, is_unofficial, is_some, is_active,
  filtered, map_ban, ban_lift, oauth_take, taken, MapUser,
}
use dd2_server.Moderation.Handling.{World, respond}
use dd2_server.Moderation.Handlers.{Env}
use dd2_server.Moderation.Requests.{Request, handle}
use dd2_server.Moderation.Requests.Keeps.{respond-handle-Keeps}
use dd2_server.Moderation.Handling.Keeps.{IsStable}

-- Every ban that is not lifted has its mark.
pub record IsMarked (db : Db) : Type 0 where
  pub at :
      (k : MapUser) (ban : MapBan)
      → HashMap.get k db.map_bans ≡ some ban
      → ban.lifted_at ≡ none
      → is_unofficial k.0 k.1 db ≡ true

abbrev same_key : MapUser → MapUser → Bool
same_key k j = k == j

module _ (k : MapUser) (by : ℕ) (db : Db) (v : IsMarked db) where
  banned-IsMarked :
      (ban : MapBan)
      → IsMarked (record db {
        map_bans = HashMap.insert k ban db.map_bans;
        map_unofficial = HashMap.insert k by db.map_unofficial;
      })
  unfolding is_unofficial
  banned-IsMarked ban = record {
    at = λ j b found open_ban. elim (Bool-cases (same_key k j)) [
      | inl same ↦ rw (get-insert k by db.map_unofficial j, same)
      | inr other ↦
          rw (get-insert k by db.map_unofficial j, other)
            (v.at j b (rw (get-insert k ban db.map_bans j, other) at found) open_ban)
    ];
  }

  kept_mark :
      (keep : Bool) (j : MapUser)
      → same_key k j ≡ false
      → is_unofficial j.0 j.1 db ≡ true
      → is_some
          (HashMap.get j (if keep then db.map_unofficial else HashMap.remove k db.map_unofficial))
        ≡ true
  unfolding is_unofficial
  kept_mark true j other h = h
  kept_mark false j other h = rw (get-remove k j db.map_unofficial, other) h

  lifted_now :
      (ban b : MapBan) (now : ℕ)
      → b.lifted_at ≡ none
      → some (record ban { lifted_at = some now; lifted_by = some by }) ≡ some b
      → ⊥
  lifted_now ban b now open_ban same = cc

  mark_lifted-IsMarked :
      (keep : Bool) (now : ℕ) (o : Option MapBan)
      → IsMarked (mark_lifted k.0 k.1 by keep now o db).1
  unfolding is_unofficial
  mark_lifted-IsMarked keep now none = v
  mark_lifted-IsMarked keep now (some ban) = record {
    at = λ j b found open_ban.
        let lifted : MapBan = record ban { lifted_at = some now; lifted_by = some by } in
        let row : HashMap.get j (HashMap.insert k lifted db.map_bans) ≡ some b = found in
        elim (Bool-cases (same_key k j)) [
          | inl same ↦
              absurd (
                lifted_now ban b now open_ban (rw (get-insert k lifted db.map_bans j, same) at row))
          | inr other ↦
              kept_mark keep j other
                (v.at j b (rw (get-insert k lifted db.map_bans j, other) at row) open_ban)
        ];
  }

taken-IsMarked :
    (state : String) (o : Option ℕ) (db : Db) → IsMarked db → IsMarked (taken state o db).1
unfolding is_unofficial
taken-IsMarked state none db v = v
taken-IsMarked state (some t) db v = record { at = v.at }

statement-IsMarked : (s : Statement) (now : ℕ) (db : Db) → IsMarked db → IsMarked (run s now db).1
unfolding run is_unofficial
statement-IsMarked (map_ban uid user by reason message expires) now db v =
    banned-IsMarked (uid, user) by db v _
statement-IsMarked (ban_lift uid user by keep) now db v =
    mark_lifted-IsMarked (uid, user) by db v keep now (get_active_ban uid user now db)
statement-IsMarked (oauth_take state) now db v = taken-IsMarked state _ db v
statement-IsMarked _ now db v = record { at = v.at }

IsMarked-IsStable : IsStable IsMarked
IsMarked-IsStable = record { at = statement-IsMarked }

-- The databases that requests lead to from one without bans. Each request may run among the
-- statements of any others, and any of its queries may fail.
pub data Reach (e : Env) : Db → Type 0 where
  start : {db : Db} → db.map_bans ≡ [] → Reach e db
  answers : {db : Db} (r : Request) (w : World) → Reach e db → Reach e (respond (handle e r) w db).1

Reach-IsMarked : {e : Env} {db : Db} → Reach e db → IsMarked db
unfolding HashMap.get
Reach-IsMarked (start none_yet) = record {
  at = λ k b found open_ban. absurd (cc (rw none_yet at found));
}
Reach-IsMarked {e} (answers {db} r w reach) =
    respond-handle-Keeps e r w db IsMarked-IsStable (Reach-IsMarked reach)

active_row :
    (now : ℕ) (o : Option MapBan) (ban : MapBan)
    → filtered (is_active now) o ≡ some ban
    → (o ≡ some ban) × (ban.lifted_at ≡ none)
active_row now none ban h = cc
active_row now (some b) ban h = ground arith

-- Whatever requests ran, in any order, also among one another, and whichever of their queries
-- failed: a player with an active ban from a map is marked unofficial there.
pub Reach-is_unofficial :
    {e : Env} {db : Db}
    → Reach e db
    → (uid : String) (user now : ℕ) (ban : MapBan) → get_active_ban uid user now db ≡ some ban
    → is_unofficial uid user db ≡ true
unfolding get_active_ban
Reach-is_unofficial {db} r uid user now ban h =
    let (row, open_ban) = active_row now (HashMap.get (uid, user) db.map_bans) ban h in
    (Reach-IsMarked r).at (uid, user) ban row open_ban
