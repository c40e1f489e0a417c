-- ===== src/Moderation/Handling/Keeps.antt =====
-- What every statement keeps, every handler keeps, whatever other requests do between its queries.
use dd2_server.Prelude.{ℕ, Bool, true, false, Option, none, some, List, [], ◌∷◌, if◌then◌else◌}
use dd2_server.Moderation.Tables.{Db, Statement, run, run_all}
use dd2_server.Moderation.Handling.{
  Query, Reply, World, Outcome, returned, replied, Handler, pure, reply, attempt, or_reply,
  continue, ◌>>=◌, try_read, read, try_execute, execute, guard, answer, respond,
}

abbrev left : {A : Type 0} → Outcome A → Db
left (returned a db) = db
left (replied r db) = db

-- Every statement keeps `P`.
pub record IsStable (P : Db → Type 0) : Type 0 where
  pub at : (statement : Statement) (now : ℕ) (db : Db) → P db → P (run statement now db).1

run_all-kept :
    {P : Db → Type 0}
    → IsStable P
    → (statements : List (ℕ × Statement)) (db : Db) → P db
    → P (run_all statements db)
unfolding run_all
run_all-kept stable [] db h = h
run_all-kept stable ((now, statement) ∷ rest) db h =
    run_all-kept stable rest (run statement now db).1 (stable.at statement now db h)

pub record Keeps {A : Type 0} (P : Db → Type 0) (m : Handler A) : Type 0 where
  pub at : (w : World) (db : Db) → IsStable P → P db → P (left (m w db))

left-if :
    {A : Type 0} (P : Db → Type 0) (b : Bool) (x y : Db) (a : A)
    → P x
    → P y
    → P (left (if b then returned none x else returned (some a) y))
left-if P true x y a hx hy = hx
left-if P false x y a hx hy = hy

module _ {P : Db → Type 0} where
  module _ {A : Type 0} where
    pub Keeps-pure : (a : A) → Keeps P (pure a)
    unfolding pure
    Keeps-pure a = record { at = λ w db stable h. h }

    pub Keeps-reply : (r : Reply) → Keeps P (reply {A = A} r)
    unfolding reply
    Keeps-reply r = record { at = λ w db stable h. h }

    pub Keeps-or_reply : (r : Reply) (o : Option A) → Keeps P (or_reply r o)
    unfolding or_reply
    Keeps-or_reply r none = Keeps-reply r
    Keeps-or_reply r (some a) = Keeps-pure a

    Keeps-attempt :
        (q : Query) (ask : ℕ → Db → A × Db)
        → (IsStable P → (now : ℕ) (db : Db) → P db → P (ask now db).1)
        → Keeps P (attempt q ask)
    unfolding attempt
    Keeps-attempt q ask k = record {
      at = λ w db stable h.
          let before = run_all (w.others q) db in
          let kept = run_all-kept stable (w.others q) db h in
          left-if P (w.fails q) before (ask (w.now q) before).1 (ask (w.now q) before).0 kept
            (k stable (w.now q) before kept);
    }

    pub Keeps-try_read : (q : Query) (f : ℕ → Db → A) → Keeps P (try_read q f)
    unfolding try_read
    Keeps-try_read q f = Keeps-attempt q (λ now db. (f now db, db)) (λ stable now db h. h)

    pub Keeps-if :
        (b : Bool) (m n : Handler A) → Keeps P m → Keeps P n → Keeps P (if b then m else n)
    Keeps-if true m n km kn = km
    Keeps-if false m n km kn = kn

  module _ {A B : Type 0} where
    left-continue :
        (w : World) (o : Outcome A) (f : A → Handler B)
        → IsStable P
        → P (left o)
        → ((a : A) → Keeps P (f a))
        → P (left (continue o f w))
    left-continue w (returned a db) f stable h kf = (kf a).at w db stable h
    left-continue w (replied r db) f stable h kf = h

    pub Keeps-bind :
        (m : Handler A) (f : A → Handler B)
        → Keeps P m
        → ((a : A) → Keeps P (f a))
        → Keeps P (m >>= f)
    unfolding ◌>>=◌
    Keeps-bind m f km kf = record {
      at = λ w db stable h. left-continue w (m w db) f stable (km.at w db stable h) kf;
    }

  module _ {A : Type 0} where
    pub Keeps-read : (q : Query) (f : ℕ → Db → A) → Keeps P (read q f)
    unfolding read
    Keeps-read q f = Keeps-bind (try_read q f) _ (Keeps-try_read q f) (λ o. Keeps-or_reply _ o)

  pub Keeps-try_execute : (q : Query) (statement : Statement) → Keeps P (try_execute q statement)
  unfolding try_execute
  Keeps-try_execute q statement =
      Keeps-attempt q (run statement) (λ stable now db h. stable.at statement now db h)

  pub Keeps-execute : (q : Query) (statement : Statement) → Keeps P (execute q statement)
  unfolding execute
  Keeps-execute q statement =
      Keeps-bind (try_execute q statement) _ (Keeps-try_execute q statement)
        (λ o. Keeps-or_reply _ o)

  pub Keeps-guard : (b : Bool) (r : Reply) → Keeps P (guard b r)
  unfolding guard
  Keeps-guard true r = Keeps-pure tt
  Keeps-guard false r = Keeps-reply r

  pub respond-Keeps :
      (m : Handler Reply) (w : World) (db : Db)
      → Keeps P m
      → IsStable P
      → P db
      → P (respond m w db).1
  unfolding respond
  respond-Keeps m w db k stable h = answered (m w db) (k.at w db stable h)
    where
      answered : (o : Outcome Reply) → P (left o) → P (answer o).1
      answered (returned r db') h' = h'
      answered (replied r db') h' = h'

pub ruleset keeps_rules = (
  Keeps-pure, Keeps-reply, Keeps-or_reply, Keeps-try_read, Keeps-read, Keeps-try_execute,
  Keeps-execute, Keeps-guard, Keeps-if, Keeps-bind,
)
