-- ===== src/Prelude/HashMap.antt =====
-- std::collections::HashMap as an association list with one entry for a key. The code never reads
-- the order of the entries.
use Prim.Native.Nat.{◌+◌, ◌≤◌}
use mathlib.Core.Path.{◌≡◌, refl}
use mathlib.Core.Bool.{Bool}
use mathlib.Core.Option.{Option, none, some}
use mathlib.Core.List.{List, [], ◌∷◌}
use native.Mathlib.Omega.{arith}
use dd2_server.Prelude.Tests.{if◌then◌else◌}
use dd2_server.Prelude.Lists.{length}
use dd2_server.Prelude.Equality.{Eq, ◌==◌}

abbrev pub HashMap : Type 0 → Type 0 → Type 0
HashMap K V = List (K × V)

abbrev pub retain_value : {V : Type 0} → (V → Bool) → Option V → Option V
retain_value p none = none
retain_value p (some v) = if p v then some v else none

module _ {K V : Type 0} ⦃e : Eq K⦄ where
  unfoldable pub get : K → HashMap K V → Option V
  get key [] = none
  get key (entry ∷ rest) = if entry.0 == key then some entry.1 else get key rest

  unfoldable pub insert : K → V → HashMap K V → HashMap K V
  insert key value (entry ∷ rest) =
      if entry.0 == key then (key, value) ∷ rest else entry ∷ insert key value rest
  insert key value [] = (key, value) ∷ []

  unfoldable pub remove : K → HashMap K V → HashMap K V
  remove k [] = []
  remove k ((j, v) ∷ m) = let rest = remove k m in if j == k then rest else (j, v) ∷ rest

  -- No key occurs twice.
  abbrev pub IsUnique : HashMap K V → Type 0
  IsUnique [] = Unit
  IsUnique ((k, v) ∷ m) = (get k m ≡ none) × IsUnique m

  pub get-insert :
      (k : K) (v : V) (m : HashMap K V) (j : K)
      → get j (insert k v m) ≡ (if k == j then some v else get j m)
  unfolding get insert
  get-insert k v [] j = refl
  get-insert k v ((i, w) ∷ m) j =
      ground (arith, get-insert k v m j, e.beq_iff i k, e.beq_iff i j, e.beq_iff k j)

  pub get-remove :
      (k j : K) (m : HashMap K V) → get j (remove k m) ≡ (if k == j then none else get j m)
  unfolding get remove
  get-remove k j [] = ground arith
  get-remove k j ((i, w) ∷ m) =
      ground (arith, e.beq_iff k j, e.beq_iff i k, e.beq_iff i j, get-remove k j m)

  pub insert-IsUnique : (k : K) (v : V) (m : HashMap K V) → IsUnique m → IsUnique (insert k v m)
  unfolding get insert
  insert-IsUnique k v [] h = (refl, tt)
  insert-IsUnique k v ((j, w) ∷ m) h =
      ground (arith, insert-IsUnique k v m, get-insert k v m j, e.beq_iff k j, e.beq_iff j k)

  pub length-insert_le : (k : K) (v : V) (m : HashMap K V) → length (insert k v m) ≤ length m + 1
  unfolding insert
  length-insert_le k v [] = omega arith
  length-insert_le k v ((j, w) ∷ m) = ground (arith, length-insert_le k v m)

  pub length-insert_old :
      (k : K) (v w : V) (m : HashMap K V) → get k m ≡ some w → length (insert k v m) ≡ length m
  unfolding get insert
  length-insert_old k v w [] h = cc
  length-insert_old k v w ((j, u) ∷ m) h = ground (arith, length-insert_old k v w m)

  remove-none : (k : K) (m : HashMap K V) → get k m ≡ none → remove k m ≡ m
  unfolding get remove
  remove-none k [] h = refl
  remove-none k ((j, v) ∷ m) h = ground (arith, remove-none k m)

  pub remove-IsUnique : (k : K) (m : HashMap K V) → IsUnique m → IsUnique (remove k m)
  unfolding get remove
  remove-IsUnique k [] h = tt
  remove-IsUnique k ((j, v) ∷ m) (fresh, h) =
      ground (arith, remove-IsUnique k m h, get-remove k j m)

  pub length-remove_le : (k : K) (m : HashMap K V) → IsUnique m → length m ≤ length (remove k m) + 1
  unfolding get remove
  length-remove_le k [] h = omega arith
  length-remove_le k ((j, v) ∷ m) (fresh, h) =
      ground (arith, length-remove_le k m h, remove-none j m fresh, e.beq_iff j k)

module _ {K V : Type 0} where
  unfoldable pub retain : (K → V → Bool) → HashMap K V → HashMap K V
  retain p [] = []
  retain p ((k, v) ∷ m) = let rest = retain p m in if p k v then (k, v) ∷ rest else rest

  pub length-retain_le : (p : K → V → Bool) (m : HashMap K V) → length (retain p m) ≤ length m
  unfolding retain
  length-retain_le p [] = omega arith
  length-retain_le p ((k, v) ∷ m) = ground (arith, length-retain_le p m)

module _ {K V : Type 0} ⦃e : Eq K⦄ where
  get-retain-none :
      (p : K → V → Bool) (k : K) (m : HashMap K V) → get k m ≡ none → get k (retain p m) ≡ none
  unfolding get retain
  get-retain-none p k [] h = refl
  get-retain-none p k ((j, v) ∷ m) h = ground (arith, get-retain-none p k m)

  pub get-retain :
      (p : K → V → Bool) (k : K) (m : HashMap K V)
      → IsUnique m
      → get k (retain p m) ≡ retain_value (p k) (get k m)
  unfolding get retain
  get-retain p k [] h = refl
  get-retain p k ((j, v) ∷ m) (fresh, h) =
      ground (arith, e.beq_iff j k, get-retain p k m h, get-retain-none p j m fresh)

  pub retain-IsUnique : (p : K → V → Bool) (m : HashMap K V) → IsUnique m → IsUnique (retain p m)
  unfolding retain
  retain-IsUnique p [] h = tt
  retain-IsUnique p ((j, v) ∷ m) (fresh, h) =
      ground (arith, retain-IsUnique p m h, get-retain-none p j m fresh)
