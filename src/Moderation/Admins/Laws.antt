-- ===== src/Moderation/Admins/Laws.antt =====
-- Whether the removal of a super mod in src/moderation_http.rs leaves one.
use dd2_server.Prelude.{
  ℕ, ◌≡◌, ◌≢◌, ◌≤◌, refl, sym, true, false, not, Option, none, some, List, [], ◌∷◌, String, nat_eq,
  beq_ne, beq_refl, arith, leb,
}
use dd2_server.Prelude.HashMap
use dd2_server.Prelude.HashMap.{IsUnique, length-remove_le}
use dd2_server.Moderation.Tables.{
  Db, Statement, run, run_all, count_super_mods, remove_super_mod, is_super_mod, get_web_session,
  insert_audit_event,
}
use dd2_server.Moderation.Handling.{
  Query, Reply, json_ok, World, Handler, Outcome, returned, replied, respond, answer, ◌>>=◌, read,
  try_read, attempt, or_reply, execute, try_execute, guard, pure,
}
use dd2_server.Moderation.Handling.Triples.{
  IsAlone, Ends, Triple, Triple-pure, Triple-or_reply, Triple-guard, Triple-bind, Triple-weaken,
  Triple-from, Triple-read, Triple-try_read, Triple-try_execute, Triple-execute,
}
use dd2_server.Moderation.Handlers.{Env, session_by, session_user, sid_of}
use dd2_server.Moderation.Bans.{audited}
use dd2_server.Moderation.Admins.{handle_remove_super_mod, require_super_mod, require_session}

-- Rows by their key, and one at least.
pub record HasSuperMod (db : Db) : Type 0 where
  pub unique : IsUnique db.super_mods
  pub some_mod : 1 ≤ count_super_mods db

module _ (w : World) (alone : IsAlone w) where
  abbrev T : {A : Type 0} → (Db → Type 0) → Handler A → (A → Db → Type 0) → Type 0
  T Pre m P = Triple w (λ _ db. HasSuperMod db) Pre m P

  session_triple :
      (e : Env) (o : Option ℕ) → T HasSuperMod (session_by e o) (λ _ db. HasSuperMod db)
  unfolding session_by
  session_triple e none = Triple-weaken (Triple-pure HasSuperMod none) (λ a db h. h.0)
  session_triple e (some sid) =
      Triple-bind (Triple-try_read alone HasSuperMod _ _)
        (λ o. Triple-weaken (Triple-pure HasSuperMod _) (λ a db h. h.0))

  admin_triple :
      (e : Env) (cookie : Option String)
      → T HasSuperMod (require_super_mod e cookie) (λ _ db. HasSuperMod db)
  unfolding require_super_mod require_session session_user
  admin_triple e cookie =
      Triple-bind
        (Triple-bind (session_triple e _) (λ session.
          Triple-weaken (Triple-or_reply HasSuperMod _ session (λ db h. h)) (λ a db h. h.0)))
        (λ user. Triple-bind (Triple-read alone HasSuperMod _ _ (λ q db h. h)) (λ super.
          Triple-bind (Triple-guard _ super _ (λ db h. h.0))
            (λ unit. Triple-weaken (Triple-pure _ user.0) (λ a db h. h.0.0.0))))

  audited_triple :
      (actor : ℕ) (action : String) (uid : Option String) (target : Option ℕ)
      → T HasSuperMod (audited actor action uid target) (λ _ db. HasSuperMod db)
  unfolding audited run insert_audit_event count_super_mods
  audited_triple actor action uid target =
      Triple-bind
        (Triple-try_execute alone HasSuperMod _ _
          (λ now db v. record { unique = v.unique; some_mod = v.some_mod }))
        (λ written. Triple-weaken (Triple-pure HasSuperMod json_ok) (λ a db h. h.0))

  two_left :
      (target count : ℕ) (db : Db)
      → HasSuperMod db
      → count ≡ count_super_mods db
      → not (leb count 1) ≡ true
      → HasSuperMod (remove_super_mod target db).1
  unfolding remove_super_mod count_super_mods
  two_left target count db v e h = record {
    unique = HashMap.remove-IsUnique target db.super_mods v.unique;
    some_mod = ground (arith, length-remove_le target db.super_mods v.unique);
  }

  remove_triple :
      (e : Env) (user_id : String) (cookie : Option String)
      → T HasSuperMod (handle_remove_super_mod e user_id cookie) (λ _ db. HasSuperMod db)
  unfolding handle_remove_super_mod run
  remove_triple e user_id cookie = Triple-bind (admin_triple e cookie) (λ actor.
      Triple-bind (Triple-or_reply HasSuperMod _ _ (λ db h. h)) (λ target.
        Triple-bind (Triple-read alone _ _ _ (λ q db h. h.0)) (λ count.
          Triple-bind (Triple-guard _ _ _ (λ db h. h.0.0)) (λ unit.
            Triple-bind
              (Triple-execute alone _ _ _ {P = λ _ db. HasSuperMod db} (λ q db h. h.0.0.0)
                (λ now db h. two_left target count db h.0.0.0 h.0.1.1 h.1))
              (λ removed.
                Triple-bind (Triple-guard HasSuperMod removed _ (λ db h. h))
                  (λ unit. Triple-from (audited_triple actor _ _ _) (λ db h. h.0)))))))

  -- While no other request runs, no request removes the last super mod, whatever its reply.
  pub respond-handle_remove_super_mod :
      (e : Env) (user_id : String) (cookie : Option String) (db : Db)
      → HasSuperMod db
      → HasSuperMod (respond (handle_remove_super_mod e user_id cookie) w db).1
  unfolding respond
  respond-handle_remove_super_mod e user_id cookie db v =
      ended (handle_remove_super_mod e user_id cookie w db)
        ((remove_triple e user_id cookie).at db v)
    where
      ended :
          (o : Outcome Reply)
          → Ends (λ _ db'. HasSuperMod db') (λ _ db'. HasSuperMod db') o
          → HasSuperMod (answer o).1
      ended (returned r db') h = h
      ended (replied r db') h = h

-- Before the removal another request removes `a`, at the time `t`.
abbrev pub removing : ℕ → ℕ → Query → List (ℕ × Statement)
removing t a Query.super_mod_remove = (t, Statement.super_mod_remove a) ∷ []
removing t a _ = []

abbrev pub racing : ℕ → ℕ → World
racing t a = record { fails = λ _. false; now = λ _. t; others = removing t a }

pub respond-handle_remove_super_mod_race :
    (e : Env) (t a b x y sid : ℕ) (name id : String) (cookie : Option String) (db : Db)
    → a ≢ b
    → db.super_mods ≡ (a, x) ∷ (b, y) ∷ []
    → sid_of e cookie ≡ some sid
    → get_web_session sid t db ≡ some (a, name)
    → e.parse_uuid id ≡ some b
    → ((respond (handle_remove_super_mod e id cookie) (racing t a) db).0 ≡ json_ok)
      × (count_super_mods (respond (handle_remove_super_mod e id cookie) (racing t a) db).1 ≡ 0)
unfolding respond handle_remove_super_mod require_super_mod require_session session_user session_by
    ◌>>=◌ try_read read attempt or_reply execute try_execute guard pure audited run run_all
    count_super_mods remove_super_mod is_super_mod insert_audit_event HashMap.get HashMap.remove
respond-handle_remove_super_mod_race e t a b x y sid name id cookie db ne mods h1 h2 h3 =
    let apart : b ≢ a = λ e'. ne (sym e') in
    rw (h1, h2, mods, beq_refl a, h3, beq_refl a, beq_ne b a apart, beq_refl b) (refl, refl)
