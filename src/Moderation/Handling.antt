-- ===== src/Moderation/Handling.antt =====
-- How a handler of src/moderation_http.rs runs: it makes queries, other requests run between
-- them, any query may fail, and a reply ends it.
pub mod Keeps
pub mod Triples
use dd2_server.Prelude.{ℕ, Bool, true, false, Option, none, some, List, String, if◌then◌else◌}
use dd2_server.Moderation.Tables.{Db, Statement, run, run_all}

-- Each call of the database in the handlers.
pub data Query : Type 0 where
  web_session session_delete map_meta map_meta_again map_meta_upsert : Query
  super_mod map_author map_delegate super_mod_again map_author_again : Query
  protected_super_mod protected_author protected_delegate : Query
  user_by_name user_reference active_ban map_ban ban_lift : Query
  delegate_add delegate_remove audit super_mod_count super_mod_add super_mod_remove : Query
  oauth_save oauth_take user_upsert session_insert : Query

pub data Status : Type 0 where
  bad_request unauthorized forbidden not_found conflict too_many_requests : Status
  bad_gateway internal_server_error service_unavailable : Status

-- The replies; a failed query is answered with its error.
pub data Reply : Type 0 where
  json_ok logged_out rejected_not_found : Reply
  sent_to_login : (state : String) → Reply
  logged_in : (session_id : ℕ) → Reply
  json_err : Status → String → Reply
  query_error : Query → Reply

-- What one request meets: which of its queries fail, at what time each runs, and what other
-- requests do to the database before it, by their own statements.
pub record World : Type 0 where
  pub fails : Query → Bool
  pub now : Query → ℕ
  pub others : Query → List (ℕ × Statement)

pub data Outcome (A : Type 0) : Type 0 where
  returned : A → Db → Outcome A
  replied : Reply → Db → Outcome A

abbrev pub Handler : Type 0 → Type 0
Handler A = World → Db → Outcome A

module _ {A : Type 0} where
  unfoldable pub pure : A → Handler A
  pure a w db = returned a db

  unfoldable pub reply : Reply → Handler A
  reply r w db = replied r db

  -- A query with its error as `none`; one that fails changes nothing.
  unfoldable pub attempt : Query → (ℕ → Db → A × Db) → Handler (Option A)
  unfolding run_all
  attempt q ask w db =
      let before = run_all (w.others q) db in
      let (a, after) = ask (w.now q) before in
      if w.fails q then returned none before else returned (some a) after

  unfoldable pub or_reply : Reply → Option A → Handler A
  unfolding pure reply
  or_reply r none = reply r
  or_reply r (some a) = pure a

module _ {A B : Type 0} where
  abbrev pub continue : Outcome A → (A → Handler B) → World → Outcome B
  continue (returned a db) f w = f a w db
  continue (replied r db) f w = replied r db

  infixl 10 ◌>>=◌
  unfoldable pub ◌>>=◌ : Handler A → (A → Handler B) → Handler B
  ◌>>=◌ m f w db = continue (m w db) f w

module _ {B : Type 0} where
  infixl 10 ◌>>◌
  abbrev pub ◌>>◌ : {A : Type 0} → Handler A → Handler B → Handler B
  m >> n = m >>= λ _. n

module _ {A : Type 0} where
  -- A reading query, with what to do on its error left to the caller.
  unfoldable pub try_read : Query → (ℕ → Db → A) → Handler (Option A)
  unfolding attempt
  try_read q f = attempt q (λ now db. (f now db, db))

  -- A reading query whose error is answered.
  unfoldable pub read : Query → (ℕ → Db → A) → Handler A
  unfolding try_read or_reply ◌>>=◌
  read q f = try_read q f >>= or_reply (query_error q)

unfoldable pub try_execute : Query → Statement → Handler (Option Bool)
unfolding attempt run
try_execute q statement = attempt q (run statement)

unfoldable pub execute : Query → Statement → Handler Bool
unfolding try_execute or_reply ◌>>=◌
execute q statement = try_execute q statement >>= or_reply (query_error q)

unfoldable pub guard : Bool → Reply → Handler (Unit {0})
unfolding pure reply
guard true r = pure tt
guard false r = reply r

abbrev pub answer : Outcome Reply → Reply × Db
answer (returned r db) = (r, db)
answer (replied r db) = (r, db)

-- A request, with its reply and the database it leaves.
unfoldable pub respond : Handler Reply → World → Db → Reply × Db
respond m w db = answer (m w db)
