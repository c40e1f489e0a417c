-- ===== src/Moderation/Bans/Created.antt =====
-- The handler of a new ban in src/moderation_http.rs, while no other request runs.
use dd2_server.Prelude.{
  ℕ, ◌≡◌, ◌≢◌, ◌⊎◌, refl, ap, not, ◌||◌, true, false, Option, none, some, String, inl, inr, arith,
  Result, ok, err, pair_eq, string_eq, nat_eq,
}
use dd2_server.Prelude.Text.{trim, is_empty}
use dd2_server.Prelude.HashMap
use dd2_server.Moderation.Tables.{
  Db, MapBan, Statement, run, apply_map_ban, ensure_user_reference, insert_audit_event,
  is_super_mod, is_map_author, is_map_delegate,
}
use dd2_server.Moderation.Handling.{
  Query, Reply, json_ok, World, respond, reply, execute, ◌>>◌, Outcome, returned, replied, answer,
}
use dd2_server.Moderation.Handling.Triples.{
  IsAlone, Ends, Triple-pure, Triple-or_reply, Triple-guard, Triple-bind, Triple-weaken,
  Triple-from, Triple-read, Triple-try_execute, Triple-execute,
}
use dd2_server.Moderation.Handlers.{Env, parse_ban_expires_at}
use dd2_server.Moderation.Bans.{
  CreateBanBody, handle_create_ban, target_of, parsed_or_reply, audited, is_protected_from_map_ban,
  ensure_reference,
}
use dd2_server.Moderation.Bans.Laws.{
  IsUntouched, can_moderate, Refused, T, any_triple, moderator_triple,
}

abbrev pub ban_row : CreateBanBody → ℕ → ℕ → Option ℕ → MapBan
ban_row body actor at expires_at = record {
  private_reason = trim body.private_reason;
  public_message = trim body.public_message;
  created_by = actor;
  created_at = at;
  expires_at = expires_at;
  lifted_at = none;
  lifted_by = none;
}

-- Neither the reason nor the message is blank.
pub record IsStated (body : CreateBanBody) : Type 0 where
  pub reason : is_empty (trim body.private_reason) ≡ false
  pub message : is_empty (trim body.public_message) ≡ false

not_blank-IsStated :
    (body : CreateBanBody)
    → not (is_empty (trim body.private_reason) || is_empty (trim body.public_message)) ≡ true
    → IsStated body
not_blank-IsStated body h = record { reason = ground (arith, h); message = ground (arith, h) }

-- The one row that a ban writes, the mark beside it, and who may have asked for it.
pub record IsBanned (e : Env) (now : ℕ) (uid : String) (body : CreateBanBody) (start db : Db)
    : Type 0 where
  pub actor : ℕ
  pub target : ℕ
  pub at : ℕ
  pub expires_at : Option ℕ
  pub allowed : can_moderate uid actor db ≡ true
  pub unprotected : can_moderate uid target db ≡ false
  pub named : (id : String) → body.user_id ≡ some id → e.parse_uuid id ≡ some target
  pub lasting : parse_ban_expires_at e now body.expires_at ≡ ok expires_at
  pub stated : IsStated body
  pub bans :
      db.map_bans ≡ HashMap.insert (uid, target) (ban_row body actor at expires_at) start.map_bans
  pub marks : db.map_unofficial ≡ HashMap.insert (uid, target) actor start.map_unofficial

module _ (start : Db) (w : World) (alone : IsAlone w) where
  some_eq : (id j : String) → some id ≡ some j → id ≡ j
  some_eq id j e = cc

  target_triple :
      {P : Db → Type 0} (parse_uuid : String → Option ℕ) (missing : String)
      (user_id display_name : Option String)
      → ((db : Db) → P db → IsUntouched start db)
      → T start w alone P
          (target_of parse_uuid missing user_id display_name)
          (λ target db. P db × ((id : String) → user_id ≡ some id → parse_uuid id ≡ some target))
  unfolding target_of reply
  target_triple {P} parse_uuid missing (some id) name same =
      Triple-weaken (Triple-or_reply P _ (parse_uuid id) (λ db h. (same db h, cc)))
        (λ target db h. (h.0, λ j e. cc (ap parse_uuid (some_eq id j e), h.1)))
  target_triple {P} parse_uuid missing none (some name) same =
      Triple-bind (Triple-read alone P _ _ (λ q db h. (same db h, cc))) (λ found.
        Triple-weaken (Triple-or_reply _ _ found (λ db h. (same db h.0, cc)))
          (λ target db h. (h.0.0, λ j e. absurd (cc))))
  target_triple {P} parse_uuid missing none none same = record { at = λ db h. (same db h, cc) }

  parsed_triple :
      {P : Db → Type 0} (r : Result String (Option ℕ))
      → ((db : Db) → P db → IsUntouched start db)
      → T start w alone P (parsed_or_reply r) (λ expires db. P db × (r ≡ ok expires))
  unfolding parsed_or_reply reply
  parsed_triple {P} (ok expires) same = Triple-weaken (Triple-pure P expires) (λ a db h. (h.0, cc))
  parsed_triple {P} (err error) same = record { at = λ db h. (same db h, cc) }

  audited_triple :
      (P : Db → Type 0) (actor : ℕ) (action : String) (uid : Option String) (target : Option ℕ)
      → ((now : ℕ) (db : Db) → P db → P (insert_audit_event actor action uid target now db))
      → T start w alone P (audited actor action uid target) (λ r db. P db × (r ≡ json_ok))
  unfolding audited run
  audited_triple P actor action uid target kept =
      Triple-bind (Triple-try_execute alone P _ _ kept) (λ written. Triple-pure P json_ok)

  module _ (e : Env) (now : ℕ) (uid : String) (body : CreateBanBody) where
    abbrev Done : Db → Type 0
    Done db = IsBanned e now uid body start db

    record IsReady (actor target : ℕ) (expires_at : Option ℕ) (db : Db) : Type 0 where
      same : IsUntouched start db
      allowed : can_moderate uid actor db ≡ true
      unprotected : can_moderate uid target db ≡ false
      named : (id : String) → body.user_id ≡ some id → e.parse_uuid id ≡ some target
      lasting : parse_ban_expires_at e now body.expires_at ≡ ok expires_at
      stated : IsStated body

    module _ (actor target : ℕ) (expires_at : Option ℕ) where
      ready_audit :
          (action : String) (m : Option String) (t : Option ℕ) (at : ℕ) (db : Db)
          → Done db
          → Done (insert_audit_event actor action m t at db)
      unfolding insert_audit_event is_super_mod is_map_author is_map_delegate
      ready_audit action m t at db d = record {
        actor = d.actor;
        target = d.target;
        at = d.at;
        expires_at = d.expires_at;
        allowed = d.allowed;
        unprotected = d.unprotected;
        named = d.named;
        lasting = d.lasting;
        stated = d.stated;
        bans = d.bans;
        marks = d.marks;
      }

      IsReady-reference :
          (name : Option String) (db : Db)
          → IsReady actor target expires_at db
          → IsReady actor target expires_at (ensure_user_reference target name db)
      unfolding ensure_user_reference is_super_mod is_map_author is_map_delegate
      IsReady-reference name db d = record {
        same = ground arith;
        allowed = d.allowed;
        unprotected = d.unprotected;
        named = d.named;
        lasting = d.lasting;
        stated = d.stated;
      }

      ready_ban :
          (at : ℕ) (db : Db)
          → IsReady actor target expires_at db
          → Done (
              apply_map_ban uid target actor
                (trim body.private_reason)
                (trim body.public_message)
                expires_at
                at
                db)
      unfolding apply_map_ban is_super_mod is_map_author is_map_delegate
      ready_ban at db d = record {
        actor = actor;
        target = target;
        at = at;
        expires_at = expires_at;
        allowed = d.allowed;
        unprotected = d.unprotected;
        named = d.named;
        lasting = d.lasting;
        stated = d.stated;
        bans =
            ap (λ bans. HashMap.insert (uid, target) (ban_row body actor at expires_at) bans)
              d.same.map_bans;
        marks = ap (λ marks. HashMap.insert (uid, target) actor marks) d.same.map_unofficial;
      }

      -- From the last check on.
      write_triple :
          T start w alone
            (λ db. IsReady actor target expires_at db)
            (do
              ensure_reference target body.display_name
              execute Query.map_ban (
                  Statement.map_ban uid target actor
                    (trim body.private_reason)
                    (trim body.public_message)
                    expires_at)
              audited actor "ban.create" (some uid) (some target))
            (λ r db. Done db × (r ≡ json_ok))
      unfolding ensure_reference run
      write_triple =
          Triple-bind
            (Triple-execute alone _ _ _ {P = λ _ db. IsReady actor target expires_at db}
              (λ q db d. (d.same, cc)) (λ at db d. IsReady-reference body.display_name db d))
            (λ referenced.
              Triple-bind
                (Triple-execute alone _ _ _ {P = λ _ db. Done db} (λ q db d. (d.same, cc))
                  ready_ban)
                (λ banned. audited_triple Done actor _ _ _ (ready_audit _ _ _)))

    create_triple :
        (cookie : Option String)
        → T start w alone
            (IsUntouched start)
            (handle_create_ban e now uid cookie body)
            (λ r db. Done db × (r ≡ json_ok))
    unfolding handle_create_ban is_protected_from_map_ban
    create_triple cookie = Triple-bind (moderator_triple start w alone e uid cookie) (λ actor.
        Triple-bind (Triple-guard _ _ _ (λ db h. (h.0, cc))) (λ texts.
          Triple-bind
            (Triple-from
              {Pre = λ db.
                (IsUntouched start db × (can_moderate uid actor db ≡ true)) × IsStated body}
              (parsed_triple (parse_ban_expires_at e now body.expires_at) (λ db h. h.0.0))
              (λ db h. (h.0, not_blank-IsStated body h.1)))
            (λ expires.
              Triple-bind
                (target_triple e.parse_uuid _ body.user_id body.display_name (λ db h. h.0.0.0))
                (λ target.
                  Triple-bind (any_triple start w alone _ _ _ _ _ _ (λ db h. h.0.0.0.0))
                    (λ protected.
                      Triple-bind (Triple-guard _ _ _ (λ db h. (h.0.0.0.0.0, cc))) (λ unit.
                        Triple-from (write_triple actor target expires) (λ db h. record {
                          same = h.0.0.0.0.0.0;
                          allowed = h.0.0.0.0.0.1;
                          stated = h.0.0.0.0.1;
                          unprotected = ground (arith, h.0.1, h.1);
                          named = h.0.0.1;
                          lasting = h.0.0.0.1;
                        })))))))

  -- While no other request runs, a request for a ban either is refused and changes no standing, or
  -- it replies `ok` and one ban is written, with the mark beside it: of the player whose id it gives,
  -- if it gives one, until the parsed time, with a reason and a message that are not blank, by
  -- someone who may moderate the map, of someone who may not.
  pub respond-handle_create_ban :
      (e : Env) (now : ℕ) (uid : String) (cookie : Option String) (body : CreateBanBody)
      → ((respond (handle_create_ban e now uid cookie body) w start).0 ≡ json_ok
          × IsBanned e now uid body start
              (respond (handle_create_ban e now uid cookie body) w start).1)
        ⊎ ((respond (handle_create_ban e now uid cookie body) w start).0 ≢ json_ok
            × IsUntouched start (respond (handle_create_ban e now uid cookie body) w start).1)
  unfolding respond
  respond-handle_create_ban e now uid cookie body =
      ended (handle_create_ban e now uid cookie body w start) (
        (create_triple e now uid body cookie).at start (record {
          super_mods = refl;
          map_delegates = refl;
          map_bans = refl;
          map_unofficial = refl;
        }))
    where
      ended :
          (o : Outcome Reply)
          → Ends
              (λ r db. IsBanned e now uid body start db × (r ≡ json_ok))
              (Refused start w alone)
              o
          → ((answer o).0 ≡ json_ok × IsBanned e now uid body start (answer o).1)
            ⊎ ((answer o).0 ≢ json_ok × IsUntouched start (answer o).1)
      ended (returned r db) h = inl (h.1, h.0)
      ended (replied r db) h = inr (h.1, h.0)
