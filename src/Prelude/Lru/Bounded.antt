-- ===== src/Prelude/Lru/Bounded.antt =====
-- A map that behaves as the crate `lru` documents: the latest `cap` keys, the last one first.
use Prim.Native.Nat.{ℕ, zero, suc, ◌-◌}
use mathlib.Core.Path.{◌≡◌, refl}
use mathlib.Core.Logic.{◌≢◌, ◌⊎◌, inl, inr}
use mathlib.Core.Option.{none, some}
use mathlib.Core.List.{[], ◌∷◌}
use native.Mathlib.Omega.{arith}
use dd2_server.Prelude.Tests.{Bool-cases}
use dd2_server.Prelude.Lists.{take}
use dd2_server.Prelude.Equality.{Eq, ◌==◌, beq_refl, beq_ne}
use dd2_server.Prelude.HashMap.{HashMap, get, remove, get-remove}
use dd2_server.Prelude.Lru.{Lru}

pub record Bounded (K V : Type 0) : Type 0 where
  pub room : ℕ
  pub entries : HashMap K V

module _ {K V : Type 0} ⦃e : Eq K⦄ where
  abbrev pub bounded_put : Bounded K V → K → V → Bounded K V
  bounded_put c k v = record c { entries = (k, v) ∷ take c.room (remove k c.entries) }

  pub bounded_peek-put :
      (c : Bounded K V) (k : K) (v : V) → get k (bounded_put c k v).entries ≡ some v
  unfolding get
  bounded_peek-put c k v = rw (beq_refl k)

  get-take :
      (n : ℕ) (j : K) (m : HashMap K V) → (get j (take n m) ≡ get j m) ⊎ (get j (take n m) ≡ none)
  unfolding get
  get-take zero j m = inr refl
  get-take (suc n) j [] = inl refl
  get-take (suc n) j ((k, v) ∷ m) = elim (Bool-cases (k == j)) [
    | inl same ↦ inl (rw same)
    | inr other ↦ rw other (get-take n j m)
  ]

  pub bounded_peek-put_ne :
      (c : Bounded K V) (k j : K) (v : V)
      → k ≢ j
      → (get j (bounded_put c k v).entries ≡ get j c.entries)
        ⊎ (get j (bounded_put c k v).entries ≡ none)
  unfolding get
  bounded_peek-put_ne c k j v h =
      ground
        (arith, e.beq_iff k j, get-take c.room j (remove k c.entries), get-remove k j c.entries)

pub bounded_peek-empty : {K V : Type 0} ⦃e : Eq K⦄ (n : ℕ) (k : K) → get {V = V} k [] ≡ none
unfolding get
bounded_peek-empty n k = refl

module _ {K V : Type 0} ⦃e : Eq K⦄ where
  -- The entry of the key moves to the front.
  unfoldable pub bounded_promote : Bounded K V → K → Bounded K V
  bounded_promote c k = elim (get k c.entries) [
    | none ↦ c
    | some v ↦ record c { entries = (k, v) ∷ remove k c.entries }
  ]

  pub bounded_peek-promote :
      (c : Bounded K V) (k j : K) → get j (bounded_promote c k).entries ≡ get j c.entries
  unfolding bounded_promote get
  bounded_peek-promote c k j = ground (arith, e.beq_iff k j, get-remove k j c.entries)

  abbrev pub bounded_pop : Bounded K V → K → Bounded K V
  bounded_pop c k = record c { entries = remove k c.entries }

  pub bounded_peek-pop : (c : Bounded K V) (k : K) → get k (bounded_pop c k).entries ≡ none
  bounded_peek-pop c k = rw (get-remove, beq_refl k)

  pub bounded_peek-pop_ne :
      (c : Bounded K V) (k j : K) → k ≢ j → get j (bounded_pop c k).entries ≡ get j c.entries
  bounded_peek-pop_ne c k j h = rw (get-remove, beq_ne k j h)

-- `room` is one less than the capacity, which is never 0.
abbrev pub bounded_lru : {K V : Type 0} ⦃e : Eq K⦄ → Lru K V
bounded_lru {K} {V} = record {
  Cache = Bounded K V;
  empty = λ n. record { room = n - 1; entries = [] };
  peek = λ c k. get k c.entries;
  put = bounded_put;
  promote = bounded_promote;
  pop = bounded_pop;
  peek-promote = bounded_peek-promote;
  peek-pop = bounded_peek-pop;
  peek-pop_ne = bounded_peek-pop_ne;
  peek-empty = bounded_peek-empty;
  peek-put = bounded_peek-put;
  peek-put_ne = bounded_peek-put_ne;
}
