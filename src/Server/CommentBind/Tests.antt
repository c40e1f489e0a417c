-- ===== src/Server/CommentBind/Tests.antt =====
-- Runs of the debounce of src/server2.rs, with the instants of its own test.
use dd2_server.Prelude.{◌+◌, ◌<◌, ◌≡◌, refl, true, some, string_eq, arith, length, [], ◌∷◌}
use dd2_server.Prelude.HashMap
use dd2_server.Server.CommentBind.{
  States, skip, schedule, comment_bind_backoff, prune, admit_found, comment_bind_admit,
  comment_bind_reschedule, bound, conclude, observe_map,
}
use dd2_server.Server.CommentBind.Laws.{comment_bind_admit_exact}

abbrev one : States
one = ("a", record { next_attempt = 300; attempts = 0 }) ∷ []

debounced :
    (comment_bind_admit "a" 0 8192 [] ≡ (schedule, one))
    × (comment_bind_admit "a" 60 8192 one ≡ (skip, one))
    × ((comment_bind_admit "a" 301 8192 one).1
        ≡ ("a", record { next_attempt = 1201; attempts = 1 }) ∷ [])
    × ((comment_bind_admit "b" 60 8192 one).0 ≡ schedule)
unfolding comment_bind_admit prune admit_found comment_bind_backoff HashMap.get HashMap.insert
debounced = (refl, refl, refl, refl)

observed : (observe_map true "AAAAAAAAAAAAAAAAAAAAAAAAAAA" 0 []).0 ≡ true
unfolding observe_map comment_bind_admit prune admit_found comment_bind_backoff HashMap.get
    HashMap.insert
observed = refl

found_one : HashMap.get "a" one ≡ some (record { next_attempt = 300; attempts = 0 })
unfolding HashMap.get
found_one = refl

comment_bind_admit_exact_example :
    ((comment_bind_admit "a" 60 8192 []).0 ≡ schedule)
    × (HashMap.get "a" (comment_bind_admit "a" 60 8192 []).1
        ≡ some (record { next_attempt = 60 + comment_bind_backoff 0; attempts = 0 }))
unfolding HashMap.get
comment_bind_admit_exact_example = comment_bind_admit_exact "a" 60 8192 [] (omega arith)

length_concluded : length (conclude "a" 100 bound one) < 8192
unfolding conclude comment_bind_reschedule HashMap.get HashMap.insert
length_concluded = omega arith
