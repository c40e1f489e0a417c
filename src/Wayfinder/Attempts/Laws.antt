-- ===== src/Wayfinder/Attempts/Laws.antt =====
-- The best score of src/queries/minigames.rs is the best of the finishes.
use dd2_server.Prelude.{
  ℕ, ◌+◌, ◌≤◌, ◌≡◌, ◌≢◌, ◌⊎◌, refl, sym, ap, ◌∙◌, Bool, true, false, ◌&&◌, ◌||◌, Option, none, some,
  List, [], ◌∷◌, length, String, ◌==◌, beq_refl, nat_eq, string_eq, pair_eq, if◌then◌else◌, All,
  any, Bool-cases, inl, inr, arith,
}
use dd2_server.Prelude.HashMap
use dd2_server.Prelude.HashMap.{get-insert}
use dd2_server.Catalog.{Json}
use dd2_server.Catalog.Collectibles.{Numbers}
use dd2_server.Catalog.Minigames.{CatalogGame}
use dd2_server.Wayfinder.Tables.{Db}
use dd2_server.Wayfinder.Hats.{lock_materialized_spec}
use dd2_server.Wayfinder.Attempts.{
  Pb, Scores, is_negative, find_game, games_in, attempted, is_better, finished, played,
  report_attempt,
}

-- A status and a time.
abbrev pub Try : Type 0
Try = String × ℕ

-- The times of the finishes.
abbrev pub finishes : List Try → List ℕ
finishes [] = []
finishes ((status, elapsed_ms) ∷ tries) =
    if status == "finish" then elapsed_ms ∷ finishes tries else finishes tries

abbrev pub is_in : ℕ → List ℕ → Bool
is_in score times = any (λ t. t == score) times

-- As good as a score, or worse.
abbrev pub IsBehind : Bool → ℕ → ℕ → Type 0
IsBehind true score elapsed_ms = score ≤ elapsed_ms
IsBehind false score elapsed_ms = elapsed_ms ≤ score

-- The row of one player at one game after these tries, of which the last is the first.
pub record IsBest (lower_is_better : Bool) (tries : List Try) (pb : Pb) : Type 0 where
  pub attempts : pb.attempt_count ≡ length tries
  pub finish_count : pb.finish_count ≡ length (finishes tries)
  pub is_finish : (finishes tries ≡ []) ⊎ (is_in pb.score (finishes tries) ≡ true)
  pub best : All (IsBehind lower_is_better pb.score) (finishes tries)

-- No row before the first of them.
abbrev pub IsRow : Bool → List Try → Option Pb → Type 0
IsRow lower_is_better tries none = tries ≡ []
IsRow lower_is_better tries (some pb) = IsBest lower_is_better tries pb

IsBehind-All :
    (lower : Bool) (a b : ℕ) (times : List ℕ)
    → IsBehind lower a b
    → All (IsBehind lower b) times
    → All (IsBehind lower a) times
IsBehind-All lower a b [] h k = tt
IsBehind-All true a b (t ∷ times) h (p, k) = (omega arith, IsBehind-All true a b times h k)
IsBehind-All false a b (t ∷ times) h (p, k) = (omega arith, IsBehind-All false a b times h k)

-- The row that counts the new attempt, whose finishes are still those before it.
record IsCounted (lower : Bool) (tries : List Try) (pb : Pb) : Type 0 where
  attempts : pb.attempt_count ≡ length tries + 1
  finish_count : pb.finish_count ≡ length (finishes tries)
  is_finish : (finishes tries ≡ []) ⊎ (is_in pb.score (finishes tries) ≡ true)
  best : All (IsBehind lower pb.score) (finishes tries)

attempted-IsCounted :
    (lower : Bool) (tries : List Try) (o : Option Pb)
    → IsRow lower tries o
    → IsCounted lower tries (attempted o)
attempted-IsCounted lower tries none h =
    rw h (record { attempts = refl; finish_count = refl; is_finish = inl refl; best = tt })
attempted-IsCounted lower tries (some pb) h = record {
  attempts = ap (λ n. n + 1) h.attempts;
  finish_count = h.finish_count;
  is_finish = h.is_finish;
  best = h.best;
}

or_true : (b : Bool) → (b || true) ≡ true
or_true true = refl
or_true false = refl

length-zero : (times : List ℕ) → length times ≡ 0 → times ≡ []
length-zero [] h = refl
length-zero (t ∷ times) h = absurd (omega arith)

-- What makes a time the new score.
better_cases :
    (lower : Bool) (elapsed_ms : ℕ) (pb : Pb)
    → is_better lower elapsed_ms pb ≡ true
    → (pb.finish_count ≡ 0) ⊎ IsBehind lower elapsed_ms pb.score
unfolding is_better
better_cases true elapsed_ms pb h = ground (arith, h, nat_eq.beq_iff pb.finish_count 0)
better_cases false elapsed_ms pb h = ground (arith, h, nat_eq.beq_iff pb.finish_count 0)

worse :
    (lower : Bool) (elapsed_ms : ℕ) (pb : Pb)
    → is_better lower elapsed_ms pb ≡ false
    → (pb.finish_count ≢ 0) × IsBehind lower pb.score elapsed_ms
unfolding is_better
worse true elapsed_ms pb h = ground (arith, h, nat_eq.beq_iff pb.finish_count 0)
worse false elapsed_ms pb h = ground (arith, h, nat_eq.beq_iff pb.finish_count 0)

IsBehind-self : (lower : Bool) (score : ℕ) → IsBehind lower score score
IsBehind-self true score = omega arith
IsBehind-self false score = omega arith

best_of :
    (lower : Bool) (elapsed_ms : ℕ) (pb : Pb) (times : List ℕ)
    → pb.finish_count ≡ length times
    → All (IsBehind lower pb.score) times
    → (pb.finish_count ≡ 0) ⊎ IsBehind lower elapsed_ms pb.score
    → All (IsBehind lower elapsed_ms) times
best_of lower elapsed_ms pb times count best (inl zero) =
    rw (length-zero times (sym count ∙ zero)) tt
best_of lower elapsed_ms pb times count best (inr behind) =
    IsBehind-All lower elapsed_ms pb.score times behind best

still_in :
    (score elapsed_ms : ℕ) (times : List ℕ)
    → (times ≡ []) ⊎ (is_in score times ≡ true)
    → length times ≢ 0
    → is_in score (elapsed_ms ∷ times) ≡ true
still_in score elapsed_ms times (inl nil) some_time = absurd (some_time (ap length nil))
still_in score elapsed_ms times (inr found) some_time = rw found (or_true (elapsed_ms == score))

finished-IsBest :
    (lower : Bool) (status : String) (elapsed_ms : ℕ) (tries : List Try) (pb : Pb)
    → IsCounted lower tries pb
    → (status == "finish") ≡ true
    → IsBest lower ((status, elapsed_ms) ∷ tries) (finished lower elapsed_ms pb)
unfolding finished
finished-IsBest lower status elapsed_ms tries pb c done =
    let times = finishes tries in
    elim (Bool-cases (is_better lower elapsed_ms pb)) [
      | inl better ↦
          let all_behind =
            best_of lower elapsed_ms pb times c.finish_count c.best
              (better_cases lower elapsed_ms pb better) in
          rw better (record {
            attempts = omega arith;
            finish_count = rw done (omega arith);
            is_finish = rw done (inr (rw (beq_refl elapsed_ms) refl));
            best = rw done (IsBehind-self lower elapsed_ms, all_behind);
          })
      | inr slower ↦
          let (counted, behind) = worse lower elapsed_ms pb slower in
          rw slower (record {
            attempts = omega arith;
            finish_count = rw done (omega arith);
            is_finish = rw done (
                inr (
                  still_in pb.score elapsed_ms times c.is_finish
                    (λ zero. counted (c.finish_count ∙ zero))));
            best = rw done (behind, c.best);
          })
    ]

played-IsBest :
    (lower : Bool) (status : String) (elapsed_ms : ℕ) (tries : List Try) (o : Option Pb)
    → IsRow lower tries o
    → IsBest lower ((status, elapsed_ms) ∷ tries) (played lower status elapsed_ms o)
unfolding played
played-IsBest lower status elapsed_ms tries o h =
    let c = attempted-IsCounted lower tries o h in
    elim (Bool-cases (status == "finish")) [
      | inl done ↦ rw done (finished-IsBest lower status elapsed_ms tries (attempted o) c done)
      | inr other ↦ rw other (record {
        attempts = omega arith;
        finish_count = rw other c.finish_count;
        is_finish = rw other c.is_finish;
        best = rw other c.best;
      })
    ]

-- The tries that are not refused: a finish in negative time is.
abbrev pub accepted : List Try → List Try
accepted [] = []
accepted ((status, elapsed_ms) ∷ tries) =
    if (status == "finish") && is_negative elapsed_ms
    then accepted tries
    else (status, elapsed_ms) ∷ accepted tries

module _ {V : Type 0} (json : Json V) (numbers : Numbers V) (hash : V → String)
    (minigame_key : String → String → String) (user_id : ℕ) (map_uid slug : String) (spec_id : ℕ)
    (db : Db V) where
  abbrev pub reported : List Try → Scores → Scores
  reported [] scores = scores
  reported ((status, elapsed_ms) ∷ tries) scores =
      report_attempt minigame_key json numbers hash user_id map_uid slug spec_id elapsed_ms status
        db (reported tries scores)

  abbrev pub row_in : Scores → Option Pb
  row_in scores = HashMap.get (user_id, minigame_key map_uid slug) scores.pbs

  -- However a player tries a game of a map that is bound, from no row on: the row counts the tries
  -- that are not finishes in negative time, and the finishes among them, and its score is the best
  -- of the finishes, the least in a sprint and else the greatest.
  pub report_attempt-IsRow :
      (game : CatalogGame)
      → lock_materialized_spec json numbers hash map_uid spec_id db ≡ true
      → find_game slug (games_in (HashMap.get map_uid db.on_map)) ≡ some game
      → (tries : List Try) (scores : Scores) → row_in scores ≡ none
      → IsRow (game.kind == "Sprint") (accepted tries) (row_in (reported tries scores))
  unfolding report_attempt
  report_attempt-IsRow game locked known [] scores new = rw new refl
  report_attempt-IsRow game locked known ((status, elapsed_ms) ∷ tries) scores new =
      elim (Bool-cases ((status == "finish") && is_negative elapsed_ms)) [
        | inl refused ↦ rw refused (report_attempt-IsRow game locked known tries scores new)
        | inr taken ↦
            rw (taken, locked, known)
              (let at : ℕ × String = (user_id, minigame_key map_uid slug) in
                let before = reported tries scores in
                let pb = played (game.kind == "Sprint") status elapsed_ms (row_in before) in
                rw (get-insert at pb before.pbs at, beq_refl {A = ℕ × String} at)
                  (played-IsBest (game.kind == "Sprint") status elapsed_ms (accepted tries)
                    (row_in before) (report_attempt-IsRow game locked known tries scores new)))
      ]
