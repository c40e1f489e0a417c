-- ===== src/Moderation/Handling/Triples.antt =====
-- What a handler returns and leaves, while no other request runs: one rule for each way to build
-- a handler. `Q` is what holds at a reply that ends it early.
use dd2_server.Prelude.{
  ℕ, ◌≡◌, refl, Bool, true, false, Option, none, some, [], if◌then◌else◌, Bool-cases, inl, inr,
}
use dd2_server.Moderation.Tables.{Db, Statement, run, run_all}
use dd2_server.Moderation.Handling.{
  Query, Reply, query_error, World, Outcome, returned, replied, Handler, pure, reply, attempt,
  or_reply, continue, ◌>>=◌, try_read, read, try_execute, execute, guard,
}

pub record IsAlone (w : World) : Type 0 where
  pub at : (q : Query) → w.others q ≡ []

abbrev pub Ends : {A : Type 0} → (A → Db → Type 0) → (Reply → Db → Type 0) → Outcome A → Type 0
Ends P Q (returned a db) = P a db
Ends P Q (replied r db) = Q r db

pub record Triple {A : Type 0} (w : World) (Q : Reply → Db → Type 0) (Pre : Db → Type 0)
    (m : Handler A) (P : A → Db → Type 0) : Type 0 where
  pub at : (db : Db) → Pre db → Ends P Q (m w db)

-- A value that was read of the database as it is.
abbrev pub IsRead : {A : Type 0} → (ℕ → Db → A) → A → Db → Type 0
IsRead f a db = (now : ℕ) × (a ≡ f now db)

Ends-weaken :
    {A : Type 0} (Q : Reply → Db → Type 0) (P P' : A → Db → Type 0) (o : Outcome A)
    → Ends P Q o
    → ((a : A) (db : Db) → P a db → P' a db)
    → Ends P' Q o
Ends-weaken Q P P' (returned a db) h k = k a db h
Ends-weaken Q P P' (replied r db) h k = h

-- What holds after a statement, or after its failure.
abbrev IsLeftBy : (Db → Type 0) → (Bool → Db → Type 0) → Option Bool → Db → Type 0
IsLeftBy Pre P none = Pre
IsLeftBy Pre P (some b) = P b

module _ {w : World} {Q : Reply → Db → Type 0} where
  module _ {A : Type 0} (Pre : Db → Type 0) where
    pub Triple-pure : (a : A) → Triple w Q Pre (pure a) (λ b db. Pre db × (b ≡ a))
    unfolding pure
    Triple-pure a = record { at = λ db h. (h, refl) }

    pub Triple-or_reply :
        (r : Reply) (o : Option A)
        → ((db : Db) → Pre db → Q r db)
        → Triple w Q Pre (or_reply r o) (λ a db. Pre db × (o ≡ some a))
    unfolding or_reply reply pure
    Triple-or_reply r none k = record { at = λ db h. k db h }
    Triple-or_reply r (some a) k = record { at = λ db h. (h, refl) }

  pub Triple-guard :
      (Pre : Db → Type 0) (b : Bool) (r : Reply)
      → ((db : Db) → Pre db → Q r db)
      → Triple w Q Pre (guard b r) (λ _ db. Pre db × (b ≡ true))
  unfolding guard reply pure
  Triple-guard Pre true r k = record { at = λ db h. (h, refl) }
  Triple-guard Pre false r k = record { at = λ db h. k db h }

  module _ {A B : Type 0} where
    Ends-continue :
        (o : Outcome A) (f : A → Handler B) {M : A → Db → Type 0} {P : B → Db → Type 0}
        → Ends M Q o
        → ((a : A) → Triple w Q (M a) (f a) P)
        → Ends P Q (continue o f w)
    Ends-continue (returned a db) f h k = (k a).at db h
    Ends-continue (replied r db) f h k = h

    pub Triple-bind :
        {Pre : Db → Type 0} {m : Handler A} {M : A → Db → Type 0} {f : A → Handler B}
        {P : B → Db → Type 0}
        → Triple w Q Pre m M
        → ((a : A) → Triple w Q (M a) (f a) P)
        → Triple w Q Pre (m >>= f) P
    unfolding ◌>>=◌
    Triple-bind {m} {f} t k = record { at = λ db h. Ends-continue (m w db) f (t.at db h) k }

  module _ {A : Type 0} where
    -- The postcondition may be weakened, and the precondition strengthened.
    pub Triple-weaken :
        {Pre : Db → Type 0} {m : Handler A} {P P' : A → Db → Type 0}
        → Triple w Q Pre m P
        → ((a : A) (db : Db) → P a db → P' a db)
        → Triple w Q Pre m P'
    Triple-weaken {m} {P} {P'} t k = record {
      at = λ db h. Ends-weaken Q P P' (m w db) (t.at db h) k;
    }

    pub Triple-from :
        {Pre Pre' : Db → Type 0} {m : Handler A} {P : A → Db → Type 0}
        → Triple w Q Pre m P
        → ((db : Db) → Pre' db → Pre db)
        → Triple w Q Pre' m P
    Triple-from t k = record { at = λ db h. t.at db (k db h) }

    pub Triple-if :
        {Pre : Db → Type 0} (b : Bool) {m n : Handler A} {P : A → Db → Type 0}
        → (b ≡ true → Triple w Q Pre m P)
        → (b ≡ false → Triple w Q Pre n P)
        → Triple w Q Pre (if b then m else n) P
    Triple-if true km kn = km refl
    Triple-if false km kn = kn refl

  module _ (alone : IsAlone w) {A : Type 0} (Pre : Db → Type 0) where
    -- A query, and the same query if it fails.
    Triple-attempt :
        (q : Query) (ask : ℕ → Db → A × Db) {P : Option A → Db → Type 0}
        → ((db : Db) → Pre db → P none db)
        → ((now : ℕ) (db : Db) → Pre db → P (some (ask now db).0) (ask now db).1)
        → Triple w Q Pre (attempt q ask) P
    unfolding attempt run_all
    Triple-attempt q ask failed asked = record {
      at = λ db h. elim (Bool-cases (w.fails q)) [
        | inl yes_fails ↦ rw (alone.at q, yes_fails) (failed db h)
        | inr no_fails ↦ rw (alone.at q, no_fails) (asked (w.now q) db h)
      ];
    }

    pub Triple-try_read :
        (q : Query) (f : ℕ → Db → A) → Triple w Q Pre (try_read q f) (λ _ db. Pre db)
    unfolding try_read
    Triple-try_read q f = Triple-attempt q (λ now db. (f now db, db)) (λ db h. h) (λ now db h. h)

    pub Triple-read :
        (q : Query) (f : ℕ → Db → A)
        → ((q' : Query) (db : Db) → Pre db → Q (query_error q') db)
        → Triple w Q Pre (read q f) (λ a db. Pre db × IsRead f a db)
    unfolding read try_read
    Triple-read q f failed =
        Triple-bind
          (Triple-attempt q (λ now db. (f now db, db))
            {P = λ o db. Pre db × ((a : A) → o ≡ some a → IsRead f a db)}
            (λ db h. (h, λ a e. absurd (cc))) (λ now db h. (h, λ a e. (now, cc))))
          (λ o.
            Triple-weaken (Triple-or_reply _ (query_error q) o (λ db h. failed q db h.0))
              (λ a db h. (h.0.0, h.0.1 a h.1)))

  module _ (alone : IsAlone w) (Pre : Db → Type 0) where
    answered :
        (q : Query) (P : Bool → Db → Type 0) (o : Option Bool)
        → ((q' : Query) (db : Db) → Pre db → Q (query_error q') db)
        → Triple w Q (IsLeftBy Pre P o) (or_reply (query_error q) o) P
    unfolding or_reply pure reply
    answered q P none failed = record { at = λ db h. failed q db h }
    answered q P (some b) failed = record { at = λ db h. h }

    -- A statement whose effect keeps what is known.
    pub Triple-try_execute :
        (q : Query) (statement : Statement)
        → ((now : ℕ) (db : Db) → Pre db → Pre (run statement now db).1)
        → Triple w Q Pre (try_execute q statement) (λ _ db. Pre db)
    unfolding try_execute
    Triple-try_execute q statement kept =
        Triple-attempt alone Pre q (run statement) (λ db h. h) kept

    pub Triple-execute :
        (q : Query) (statement : Statement) {P : Bool → Db → Type 0}
        → ((q' : Query) (db : Db) → Pre db → Q (query_error q') db)
        → ((now : ℕ) (db : Db) → Pre db → P (run statement now db).0 (run statement now db).1)
        → Triple w Q Pre (execute q statement) P
    unfolding execute try_execute
    Triple-execute q statement {P} failed done =
        Triple-bind
          (Triple-attempt alone Pre q (run statement) {P = IsLeftBy Pre P} (λ db h. h) done)
          (λ o. answered q P o failed)
