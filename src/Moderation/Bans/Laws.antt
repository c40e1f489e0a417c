-- ===== src/Moderation/Bans/Laws.antt =====
-- What the handler of a new ban in src/moderation_http.rs comes to while no other request runs.
use dd2_server.Prelude.{
  ℕ, ◌≡◌, ◌≢◌, Bool, true, false, ◌||◌, Option, none, some, String, arith, if◌then◌else◌, Result,
  ok, err,
}
use dd2_server.Moderation.Tables.{Db, MapMeta, run, is_super_mod, is_map_author, is_map_delegate}
use dd2_server.Moderation.Handling.{
  Query, Reply, json_ok, query_error, World, Handler, read, pure, ◌>>=◌,
}
use dd2_server.Moderation.Handling.Triples.{
  IsAlone, IsRead, Triple, Triple-pure, Triple-or_reply, Triple-guard, Triple-bind, Triple-weaken,
  Triple-from, Triple-if, Triple-try_read, Triple-read, Triple-try_execute,
}
use dd2_server.Moderation.Handlers.{
  Env, session_by, session_user, fetched_meta, refresh_meta, use_meta, ensure_map_meta,
  can_moderate_map, require_moderator,
}

-- The tables that say who may do what, and the standing of the players, are those of `start`.
pub record IsUntouched (start db : Db) : Type 0 where
  pub super_mods : db.super_mods ≡ start.super_mods
  pub map_delegates : db.map_delegates ≡ start.map_delegates
  pub map_bans : db.map_bans ≡ start.map_bans
  pub map_unofficial : db.map_unofficial ≡ start.map_unofficial

-- Author, delegate or super mod.
abbrev pub can_moderate : String → ℕ → Db → Bool
can_moderate map_uid user_id db =
    is_super_mod user_id db
    || is_map_author map_uid user_id db
    || is_map_delegate map_uid user_id db

module _ (start : Db) (w : World) (alone : IsAlone w) where
  abbrev pub Refused : Reply → Db → Type 0
  Refused r db = IsUntouched start db × (r ≢ json_ok)

  abbrev Same : Db → Type 0
  Same db = IsUntouched start db

  abbrev pub T : {A : Type 0} → (Db → Type 0) → Handler A → (A → Db → Type 0) → Type 0
  T Pre m P = Triple w Refused Pre m P

  session_triple : (e : Env) (o : Option ℕ) → T Same (session_by e o) (λ _ db. Same db)
  unfolding session_by
  session_triple e none = Triple-weaken (Triple-pure Same none) (λ a db h. h.0)
  session_triple e (some sid) =
      Triple-bind (Triple-try_read alone Same _ _)
        (λ o. Triple-weaken (Triple-pure Same _) (λ a db h. h.0))

  fetched_triple :
      (e : Env) (uid : String) (r : Result String (ℕ × Option String × Option String))
      → T Same (fetched_meta e uid r) (λ _ db. Same db)
  unfolding fetched_meta run
  fetched_triple e uid (err error) = Triple-weaken (Triple-pure Same false) (λ a db h. h.0)
  fetched_triple e uid (ok (author_id, name, url)) =
      Triple-bind (Triple-try_execute alone Same _ _ (λ now db h. ground arith))
        (λ o. Triple-weaken (Triple-pure Same _) (λ a db h. h.0))

  refresh_triple : (e : Env) (uid : String) → T Same (refresh_meta e uid) (λ _ db. Same db)
  unfolding refresh_meta
  refresh_triple e uid =
      Triple-if e.is_configured (λ _. fetched_triple e uid _)
        (λ _.
          Triple-bind (Triple-try_read alone Same _ _)
            (λ o. Triple-weaken (Triple-pure Same _) (λ a db h. h.0)))

  use_triple :
      (e : Env) (uid : String) (o : Option (ℕ × Option MapMeta))
      → T Same (use_meta e uid o) (λ _ db. Same db)
  unfolding use_meta
  use_triple e uid none = Triple-weaken (Triple-pure Same false) (λ a db h. h.0)
  use_triple e uid (some (now, none)) = refresh_triple e uid
  use_triple e uid (some (now, some meta)) =
      Triple-if _ (λ _. Triple-weaken (Triple-pure Same true) (λ a db h. h.0))
        (λ _. refresh_triple e uid)

  -- Three tests in a row, the later ones made where the earlier fail.
  pub any_triple :
      {P : Db → Type 0} (q r s : Query) (f g h : Db → Bool)
      → ((db : Db) → P db → IsUntouched start db)
      → T P
          (do
            a ← read q (λ now. f)
            b ← if a then pure true else read r (λ now. g)
            if b then pure true else read s (λ now. h))
          (λ c db. P db × (c ≡ (f db || g db || h db)))
  any_triple {P} q r s f g h same = Triple-bind (Triple-read alone P q (λ now. f) failed) (λ a.
      Triple-bind
        (Triple-if {Pre = λ db. P db × IsRead (λ now. f) a db} a
          {P = λ b db. P db × (b ≡ (f db || g db))}
          (λ holds. Triple-weaken (Triple-pure _ true) (λ b db k. (k.0.0, ground (arith, k.0.1.1))))
          (λ fails.
            Triple-weaken (Triple-read alone _ r (λ now. g) (λ q' db k. failed q' db k.0))
              (λ b db k. (k.0.0, ground (arith, k.0.1.1, k.1.1)))))
        (λ b.
          Triple-if b
            (λ holds. Triple-weaken (Triple-pure _ true) (λ c db k. (k.0.0, ground (arith, k.0.1))))
            (λ fails.
              Triple-weaken (Triple-read alone _ s (λ now. h) (λ q' db k. failed q' db k.0))
                (λ c db k. (k.0.0, ground (arith, k.0.1, k.1.1))))))
    where
      failed : (q' : Query) (db : Db) → P db → Refused (query_error q') db
      failed q' db h' = (same db h', cc)

  pub moderator_triple :
      (e : Env) (uid : String) (cookie : Option String)
      → T Same
          (require_moderator e uid cookie)
          (λ actor db. Same db × (can_moderate uid actor db ≡ true))
  unfolding require_moderator session_user ensure_map_meta can_moderate_map
  moderator_triple e uid cookie = Triple-bind (session_triple e _) (λ session.
      Triple-bind (Triple-or_reply Same _ session (λ db h. (h, cc))) (λ user.
        Triple-bind
          (Triple-from (Triple-bind (Triple-try_read alone Same _ _) (λ o. use_triple e uid o))
            (λ db h. h.0))
          (λ ensured. Triple-bind (any_triple _ _ _ _ _ _ (λ db h. h)) (λ can.
            Triple-bind (Triple-guard _ can _ (λ db h. (h.0, cc))) (λ unit.
              Triple-weaken (Triple-pure _ user.0)
                (λ actor db h. (h.0.0.0, ground (arith, h.0.0.1, h.0.1, h.1))))))))
