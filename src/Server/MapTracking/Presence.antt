-- ===== src/Server/MapTracking/Presence.antt =====
-- The hats that the pushes of one connection of src/server2.rs show on each map.
use dd2_server.Prelude.{
  ℕ, ◌≡◌, refl, Bool, true, false, ◌&&◌, Option, none, some, List, [], ◌∷◌, String, if◌then◌else◌,
  string_eq, option_eq, nat_eq, ◌==◌, Result, ok, err, arith, Bool-cases, inl, inr,
}
use dd2_server.Router.Values.{HatOnMapPlayer}
use dd2_server.Router.Response.{Response, hats_on_map_update}
use dd2_server.Server.Delivery.{ToPlayerMgr, broadcast_to_map}
use dd2_server.Server.CommentBind.{States}
use dd2_server.Server.MapTracking.{
  Tracking, Player, Equipped, is_map_uid, push_leave, push_entry, push_join,
  broadcast_hat_context_transition, moved, set_wayfinder_map, observe, adopt_wayfinder_map,
  adopt_wayfinder_map_or_tracked, or_tracked, update_last_map, apply_context_map_change,
  refers_to_tracked, report_context_map,
}

abbrev pub pushed_or : Option String → String → String
pushed_or none before = before
pushed_or (some slug) before = slug

module _ {J : Type 0} where
  abbrev pub pushed_slug : Response J → Option String
  pushed_slug (hats_on_map_update uid (entry ∷ [])) = some entry.slug
  pushed_slug other = none

  abbrev pub pushed : String → ToPlayerMgr J → Option String
  pushed uid (broadcast_to_map map_uid response) =
      if map_uid == uid then pushed_slug response else none
  pushed uid other = none

  -- The hat that the players of a map see: of the last push there, and none before the first.
  unfoldable pub shown : String → List (ToPlayerMgr J) → String
  shown uid [] = ""
  shown uid (message ∷ sent) = pushed_or (pushed uid message) (shown uid sent)

  -- The map is a real one, and no other map shows a hat.
  pub record IsPresent (s : Tracking J) : Type 0 where
    pub real : (uid : String) → s.tracked ≡ some uid → is_map_uid uid ≡ true
    pub quiet : (uid : String) → (s.tracked == some uid) ≡ false → shown uid s.sent ≡ ""

  pub shown-push_leave :
      (player : Player) (previous : Option String) (s : Tracking J) (uid : String)
      → shown uid (push_leave player previous s).sent
        ≡ (if previous == some uid && is_map_uid uid then "" else shown uid s.sent)
  unfolding push_leave shown
  shown-push_leave player none s uid = refl
  shown-push_leave player (some previous) s uid = ground (arith, string_eq.beq_iff previous uid)

  push_leave-tracked :
      (player : Player) (previous : Option String) (s : Tracking J)
      → (push_leave player previous s).tracked ≡ s.tracked
  unfolding push_leave
  push_leave-tracked player none s = refl
  push_leave-tracked player (some previous) s = ground arith

  pub observe-IsPresent :
      (configured : Bool) (now : ℕ) (uid : String) (s : Tracking J)
      → IsPresent s
      → IsPresent (observe configured now uid s)
  unfolding observe
  observe-IsPresent configured now uid s v = record { real = v.real; quiet = v.quiet }

some_real :
    (uid map_uid : String)
    → is_map_uid uid ≡ true
    → some uid ≡ some map_uid
    → is_map_uid map_uid ≡ true
some_real uid map_uid h e = ground arith

module _ {J E : Type 0} where
  push_entry-elsewhere :
      (target : String) (answer : Result E (Option HatOnMapPlayer)) (s : Tracking J) (uid : String)
      → (target == uid) ≡ false
      → shown uid (push_entry target answer s).1.sent ≡ shown uid s.sent
  unfolding shown
  push_entry-elsewhere target (err e) s uid h = refl
  push_entry-elsewhere target (ok none) s uid h = refl
  push_entry-elsewhere target (ok (some entry)) s uid h = rw h refl

  push_join-elsewhere :
      (equipped : Equipped E) (next : Option String) (s : Tracking J) (uid : String)
      → (next == some uid) ≡ false
      → shown uid (push_join equipped next s).1.sent ≡ shown uid s.sent
  unfolding push_join
  push_join-elsewhere equipped none s uid h = refl
  push_join-elsewhere equipped (some target) s uid h =
      ground (arith, push_entry-elsewhere target (equipped target) s uid h)

  push_entry-tracked :
      (target : String) (answer : Result E (Option HatOnMapPlayer)) (s : Tracking J)
      → (push_entry target answer s).1.tracked ≡ s.tracked
  push_entry-tracked target (err e) s = refl
  push_entry-tracked target (ok none) s = refl
  push_entry-tracked target (ok (some entry)) s = refl

  push_join-tracked :
      (equipped : Equipped E) (next : Option String) (s : Tracking J)
      → (push_join equipped next s).1.tracked ≡ s.tracked
  unfolding push_join
  push_join-tracked equipped none s = refl
  push_join-tracked equipped (some target) s =
      ground (arith, push_entry-tracked target (equipped target) s)

  moved-state : (next : Option String) (r : Result E Unit × Tracking J) → (moved next r).1 ≡ r.1
  moved-state next (ok u, s) = refl
  moved-state next (err e, s) = refl

  or_tracked-state : (r : Result E (Option String) × Tracking J) → (or_tracked r).1 ≡ r.1
  or_tracked-state (ok current, s) = refl
  or_tracked-state (err e, s) = refl

  -- The state once the map has changed to `next`.
  changed : Player → Equipped E → Option String → Tracking J → Tracking J
  changed player equipped next s =
      (push_join equipped next (push_leave player s.tracked (record s { tracked = next }))).1

  set_wayfinder_map_lem :
      (player : Player) (equipped : Equipped E) (next : Option String) (s : Tracking J)
      → (set_wayfinder_map player equipped next s).1
        ≡ (if s.tracked == next then s else changed player equipped next s)
  unfolding set_wayfinder_map broadcast_hat_context_transition changed
  set_wayfinder_map_lem player equipped next s = elim (Bool-cases (s.tracked == next)) [
    | inl same ↦ rw same refl
    | inr other ↦ rw (other, moved-state) refl
  ]

  changed-tracked :
      (player : Player) (equipped : Equipped E) (next : Option String) (s : Tracking J)
      → (changed player equipped next s).tracked ≡ next
  unfolding changed
  changed-tracked player equipped next s = rw (push_join-tracked, push_leave-tracked) refl

  changed-elsewhere :
      (player : Player) (equipped : Equipped E) (next : Option String) (s : Tracking J)
      (uid : String)
      → IsPresent s
      → (next == some uid) ≡ false
      → shown uid (changed player equipped next s).sent ≡ ""
  unfolding changed
  changed-elsewhere player equipped next s uid v h =
      rw (push_join-elsewhere equipped next _ uid h, shown-push_leave)
        (elim (Bool-cases (s.tracked == some uid)) [
          | inl here ↦ rw (here, v.real uid ((option_eq.beq_iff s.tracked (some uid)).0 here)) refl
          | inr away ↦ rw away (v.quiet uid away)
        ])

  set_wayfinder_map-IsPresent :
      (player : Player) (equipped : Equipped E) (next : Option String) (s : Tracking J)
      → ((uid : String) → next ≡ some uid → is_map_uid uid ≡ true)
      → IsPresent s
      → IsPresent (set_wayfinder_map player equipped next s).1
  set_wayfinder_map-IsPresent player equipped next s real v =
      rw set_wayfinder_map_lem (elim (Bool-cases (s.tracked == next)) [
        | inl same ↦ rw same v
        | inr other ↦ rw other (record {
          real = λ uid e. real uid (rw changed-tracked at e);
          quiet = λ uid h. changed-elsewhere player equipped next s uid v (rw changed-tracked at h);
        })
      ])

  adopt_wayfinder_map-IsPresent :
      (player : Player) (equipped : Equipped E) (configured : Bool) (now : ℕ) (uid : String)
      (s : Tracking J)
      → IsPresent s
      → IsPresent (adopt_wayfinder_map player equipped configured now uid s).1
  unfolding adopt_wayfinder_map
  adopt_wayfinder_map-IsPresent player equipped configured now uid s v =
      elim (Bool-cases (is_map_uid uid)) [
        | inl real ↦ rw real (
            set_wayfinder_map-IsPresent player equipped (some uid) _ (λ m e. some_real uid m real e)
              (observe-IsPresent configured now uid s v))
        | inr other ↦ rw other v
      ]

  module _ (md5_hex : String → String) where
    apply_context_map_change-IsPresent :
        (player : Player) (equipped : Equipped E) (context_uid : Option String) (s : Tracking J)
        → IsPresent s
        → IsPresent (apply_context_map_change md5_hex player equipped context_uid s).1
    unfolding apply_context_map_change
    apply_context_map_change-IsPresent player equipped context_uid s v =
        elim (Bool-cases (refers_to_tracked md5_hex context_uid s.tracked)) [
          | inl same ↦ rw same v
          | inr other ↦
              rw other (set_wayfinder_map-IsPresent player equipped none s (λ uid e. cc) v)
        ]

    report_context_map-IsPresent :
        (player : Player) (equipped : Equipped E) (context_uid : Option String) (s : Tracking J)
        → IsPresent s
        → IsPresent (report_context_map md5_hex player equipped context_uid s)
    unfolding report_context_map update_last_map
    report_context_map-IsPresent player equipped context_uid s v =
        elim (Bool-cases (s.context_map_uid == context_uid)) [
          | inl same ↦ rw same (record { real = v.real; quiet = v.quiet })
          | inr other ↦ rw other (
              apply_context_map_change-IsPresent player equipped context_uid _
                (record { real = v.real; quiet = v.quiet }))
        ]

-- The requests and reports of one connection, each with the database's answers at its time.
pub data Reach {J : Type 0} (E : Type 0) (md5_hex : String → String) (player : Player)
    : Tracking J → Type 0 where
  starts :
      (binds : States)
      → Reach E md5_hex player (record {
        tracked = none;
        context_map_uid = none;
        sent = [];
        binds = binds;
        spawned = [];
      })
  adopts :
      {s : Tracking J} (equipped : Equipped E) (configured : Bool) (now : ℕ) (uid : String)
      → Reach E md5_hex player s
      → Reach E md5_hex player (adopt_wayfinder_map player equipped configured now uid s).1
  answers :
      {s : Tracking J} (equipped : Equipped E) (configured : Bool) (now : ℕ) (uid : String)
      → Reach E md5_hex player s
      → Reach E md5_hex player
          (adopt_wayfinder_map_or_tracked player equipped configured now uid s).1
  reports :
      {s : Tracking J} (equipped : Equipped E) (context_uid : Option String)
      → Reach E md5_hex player s
      → Reach E md5_hex player (report_context_map md5_hex player equipped context_uid s)

pub Reach-IsPresent :
    {J E : Type 0} {md5_hex : String → String} {player : Player} {s : Tracking J}
    → Reach {J = J} E md5_hex player s
    → IsPresent s
unfolding adopt_wayfinder_map_or_tracked shown
Reach-IsPresent (starts binds) = record { real = λ uid e. cc; quiet = λ uid h. refl }
Reach-IsPresent {md5_hex = md5_hex} {player = player} (adopts {s} equipped configured now uid r) =
    adopt_wayfinder_map-IsPresent player equipped configured now uid s (Reach-IsPresent r)
Reach-IsPresent {md5_hex = md5_hex} {player = player} (answers {s} equipped configured now uid r) =
    rw or_tracked-state
      (adopt_wayfinder_map-IsPresent player equipped configured now uid s (Reach-IsPresent r))
Reach-IsPresent {md5_hex = md5_hex} {player = player} (reports {s} equipped context_uid r) =
    report_context_map-IsPresent md5_hex player equipped context_uid s (Reach-IsPresent r)

pub Reach-shown_elsewhere :
    {J E : Type 0} {md5_hex : String → String} {player : Player} {s : Tracking J} (uid : String)
    → Reach {J = J} E md5_hex player s
    → (s.tracked == some uid) ≡ false
    → shown uid s.sent ≡ ""
Reach-shown_elsewhere uid r h = (Reach-IsPresent r).quiet uid h
