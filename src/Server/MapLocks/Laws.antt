-- ===== src/Server/MapLocks/Laws.antt =====
-- The lock of a map in src/server2.rs: one for each map while anyone holds it.
use dd2_server.Prelude.{
  ℕ, zero, suc, ◌<◌, ◌≡◌, ◌↔◌, inl, inr, Bool, true, false, Option, none, some, List, [], ◌∷◌,
  String, string_eq, nat_eq, pair_eq, arith, Option-cases,
}
use dd2_server.Prelude.HashMap
use dd2_server.Prelude.HashMap.{
  get-insert, get-retain, retain_value, IsUnique, insert-IsUnique, retain-IsUnique,
}
use dd2_server.Prelude.HashSet
use dd2_server.Server.MapLocks.{
  Locks, is_alive, prune, upgrade, handed, find_or_make, drop_nth, drop_holder, drop_holders,
  for_map, Reach, start, asks, drops,
}

abbrev pub is_held : String → ℕ → List (String × ℕ) → Bool
is_held map_uid lock holders = HashSet.member (map_uid, lock) holders

-- Every lock that is held is the one that its map has in the registry, no two maps share one, and
-- those to come are new.
pub record IsRegistry (s : Locks) : Type 0 where
  pub unique : IsUnique s.locks
  pub registered :
      (m : String) (l : ℕ) → is_held m l s.holders ≡ true → HashMap.get m s.locks ≡ some l
  pub below : (m : String) (l : ℕ) → HashMap.get m s.locks ≡ some l → l < s.next_lock
  pub apart :
      (m n : String) (l : ℕ)
      → HashMap.get m s.locks ≡ some l
      → HashMap.get n s.locks ≡ some l
      → m ≡ n

is_held-alive :
    (m : String) (l : ℕ) (holders : List (String × ℕ))
    → is_held m l holders ≡ true
    → is_alive holders l ≡ true
unfolding is_alive HashSet.member
is_held-alive m l [] h = cc
is_held-alive m l ((n, k) ∷ holders) h = ground (arith, is_held-alive m l holders)

is_held-drop_nth :
    (n : ℕ) (m : String) (l : ℕ) (holders : List (String × ℕ))
    → is_held m l (drop_nth n holders) ≡ true
    → is_held m l holders ≡ true
unfolding HashSet.member
is_held-drop_nth n m l [] h = h
is_held-drop_nth zero m l (holder ∷ holders) h = ground arith
is_held-drop_nth (suc n) m l (holder ∷ holders) h = ground (arith, is_held-drop_nth n m l holders)

retained_some :
    (p : ℕ → Bool) (r : Option ℕ) (l : ℕ) → retain_value p r ≡ some l → (r ≡ some l) × (p l ≡ true)
retained_some p none l h = cc
retained_some p (some k) l h = ground arith

pub prune-IsRegistry : (s : Locks) → IsRegistry s → IsRegistry (prune s)
unfolding prune
prune-IsRegistry s v =
    let kept =
      λ (m : String). get-retain (λ uid lock. is_alive s.holders lock) m s.locks v.unique in
    let was = λ (m : String) (l : ℕ) (h : HashMap.get m (prune s).locks ≡ some l).
      (retained_some (is_alive s.holders) (HashMap.get m s.locks) l (rw (kept m) at h)).0 in
    record {
      unique = retain-IsUnique _ s.locks v.unique;
      registered =
          λ m l h. ground (arith, kept m, v.registered m l h, is_held-alive m l s.holders h);
      below = λ m l h. v.below m l (was m l h);
      apart = λ m n l h k. v.apart m n l (was m l h) (was n l k);
    }

drop_holder-IsRegistry : (n : ℕ) (s : Locks) → IsRegistry s → IsRegistry (drop_holder n s)
drop_holder-IsRegistry n s v = record {
  unique = v.unique;
  registered = λ m l h. v.registered m l (is_held-drop_nth n m l s.holders h);
  below = v.below;
  apart = v.apart;
}

drop_holders-IsRegistry : (ns : List ℕ) (s : Locks) → IsRegistry s → IsRegistry (drop_holders ns s)
drop_holders-IsRegistry [] s v = v
drop_holders-IsRegistry (n ∷ ns) s v =
    drop_holders-IsRegistry ns (drop_holder n s) (drop_holder-IsRegistry n s v)

-- A lock that is alive is handed on.
shared-IsRegistry :
    (m : String) (l : ℕ) (s : Locks)
    → HashMap.get m s.locks ≡ some l
    → IsRegistry s
    → IsRegistry (record s { holders = (m, l) ∷ s.holders })
unfolding HashSet.member
shared-IsRegistry m l s found v = record {
  unique = v.unique;
  registered =
      λ n k h. ground (arith, found, v.registered n k, string_eq.beq_iff m n, nat_eq.beq_iff l k);
  below = v.below;
  apart = v.apart;
}

module _ (m : String) (s : Locks) (v : IsRegistry s)
    (dead : upgrade s.holders (HashMap.get m s.locks) ≡ none) where
  unheld : (l : ℕ) → is_held m l s.holders ≡ true → true ≡ false
  unfolding upgrade
  unheld l h = ground (arith, v.registered m l h, is_held-alive m l s.holders h)

  made-apart :
      (a b : String) (l : ℕ)
      → HashMap.get a (HashMap.insert m s.next_lock s.locks) ≡ some l
      → HashMap.get b (HashMap.insert m s.next_lock s.locks) ≡ some l
      → a ≡ b
  made-apart a b l h k = ground (
    arith,
    get-insert m s.next_lock s.locks a,
    get-insert m s.next_lock s.locks b,
    v.apart a b l,
    v.below a l,
    v.below b l,
    string_eq.beq_iff m a,
    string_eq.beq_iff m b,
  )

  made-registered :
      (n : String) (l : ℕ)
      → is_held n l ((m, s.next_lock) ∷ s.holders) ≡ true
      → HashMap.get n (HashMap.insert m s.next_lock s.locks) ≡ some l
  unfolding HashSet.member
  made-registered n l h =
      ground (
        arith,
        get-insert m s.next_lock s.locks n,
        v.registered n l,
        unheld l,
        string_eq.beq_iff m n,
      )

  made-IsRegistry : IsRegistry (handed m none s).1
  made-IsRegistry = record {
    unique = insert-IsUnique m s.next_lock s.locks v.unique;
    registered = made-registered;
    below = λ n l h. ground (arith, get-insert m s.next_lock s.locks n, v.below n l);
    apart = made-apart;
  }

upgrade-some :
    (holders : List (String × ℕ)) (r : Option ℕ) (l : ℕ) → upgrade holders r ≡ some l → r ≡ some l
unfolding upgrade
upgrade-some holders none l h = h
upgrade-some holders (some k) l h = ground arith

find_or_make-IsRegistry : (m : String) (s : Locks) → IsRegistry s → IsRegistry (find_or_make m s).1
unfolding find_or_make
find_or_make-IsRegistry m s v = elim (Option-cases (upgrade s.holders (HashMap.get m s.locks))) [
  | inl dead ↦ rw dead (made-IsRegistry m s v dead)
  | inr (l, alive) ↦
      rw alive (shared-IsRegistry m l s (upgrade-some s.holders (HashMap.get m s.locks) l alive) v)
]

pub Reach-IsRegistry : {s : Locks} → Reach s → IsRegistry s
unfolding for_map HashMap.get HashSet.member
Reach-IsRegistry start = record {
  unique = tt;
  registered = λ m l h. cc;
  below = λ m l h. cc;
  apart = λ m n l h k. cc;
}
Reach-IsRegistry (asks {s} map_uid ended r) =
    find_or_make-IsRegistry map_uid (drop_holders ended (prune s))
      (drop_holders-IsRegistry ended (prune s) (prune-IsRegistry s (Reach-IsRegistry r)))
Reach-IsRegistry (drops {s} n r) = drop_holder-IsRegistry n s (Reach-IsRegistry r)

-- Of two holders of locks, whatever was asked and dropped before, in any order, and also between
-- the steps of a request, both have the same lock exactly when they asked for the same map.
pub Reach-same_lock_iff :
    {s : Locks} (m n : String) (l k : ℕ)
    → Reach s
    → is_held m l s.holders ≡ true
    → is_held n k s.holders ≡ true
    → (m ≡ n) ↔ (l ≡ k)
Reach-same_lock_iff {s} m n l k r h j =
    let v = Reach-IsRegistry r in
    let p = v.registered m l h in
    let q = v.registered n k j in ((λ e. ground (arith, e, p, q)), λ e. v.apart m n l p (rw e q))
