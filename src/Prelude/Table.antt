-- ===== src/Prelude/Table.antt =====
-- A hash map or an ordered map of the source, as an association list with one entry for each key.
-- Every law is stated in the form of a conditional, so that it serves `simp` and `ground` alike.
use Prim.Native.Nat.{◌+◌, ◌≤◌, ◌<◌}
use mathlib.Core.Path.{◌≡◌, refl, subst₂}
use mathlib.Core.Logic.{inl, inr, ◌≢◌}
use mathlib.Core.Bool.{Bool}
use mathlib.Core.List.{List, [], ◌∷◌}
use mathlib.Core.Option
use mathlib.Core.Option.{Option, none, some, some-injective}
use native.Mathlib.Omega.{arith}
use mint_connect_unit.Prelude.Tests.{if◌then◌else◌, Key, Bool-cases, same_self, same_ne, is_some}
use mint_connect_unit.Prelude.Lists.{length}

abbrev pub Table {ℓ κ} : Type ℓ → Type κ → Type (ℓ ⊔ κ)
Table K V = List (K × V)

module _ {ℓ κ} {K : Type ℓ} {V : Type κ} where
  abbrev pub keys : Table K V → List K
  keys [] = []
  keys ((k, v) ∷ m) = k ∷ keys m

  abbrev pub values : Table K V → List V
  values [] = []
  values ((k, v) ∷ m) = v ∷ values m

  -- `values_mut`: the same change of every entry.
  abbrev pub map_values : (V → V) → Table K V → Table K V
  map_values f [] = []
  map_values f ((k, v) ∷ m) = (k, f v) ∷ map_values f m

  -- `retain`.
  abbrev pub retain : (K → V → Bool) → Table K V → Table K V
  retain p [] = []
  retain p ((k, v) ∷ m) = if p k v then (k, v) ∷ retain p m else retain p m

  -- Every entry meets `P`.
  abbrev pub AllEntries {μ} : (K → V → Type μ) → Table K V → Type μ
  AllEntries P [] = Unit
  AllEntries P ((k, v) ∷ m) = P k v × AllEntries P m

module _ {ℓ κ} {K : Type ℓ} {V : Type κ} ⦃e : Key K⦄ where
  unfoldable pub lookup : K → Table K V → Option V
  lookup k [] = none
  lookup k ((j, v) ∷ m) = if e.same j k then some v else lookup k m

  unfoldable pub insert : K → V → Table K V → Table K V
  insert k v [] = (k, v) ∷ []
  insert k v ((j, w) ∷ m) = if e.same j k then (k, v) ∷ m else (j, w) ∷ insert k v m

  unfoldable pub remove : K → Table K V → Table K V
  remove k [] = []
  remove k ((j, w) ∷ m) = if e.same j k then remove k m else (j, w) ∷ remove k m

  -- A change through `get_mut`.
  unfoldable pub modify : K → (V → V) → Table K V → Table K V
  modify k f [] = []
  modify k f ((j, w) ∷ m) = if e.same j k then (j, f w) ∷ m else (j, w) ∷ modify k f m

  abbrev pub has_key : K → Table K V → Bool
  has_key k m = is_some (lookup k m)

  pub lookup-insert :
      (k j : K) (v : V) (m : Table K V)
      → lookup j (insert k v m) ≡ (if e.same k j then some v else lookup j m)
  unfolding lookup insert
  lookup-insert k j v [] = refl
  lookup-insert k j v ((i, w) ∷ m) =
      ground (arith, e.same_iff k j, e.same_iff i k, e.same_iff i j, lookup-insert k j v m)

  pub lookup-remove :
      (k j : K) (m : Table K V) → lookup j (remove k m) ≡ (if e.same k j then none else lookup j m)
  unfolding lookup remove
  lookup-remove k j [] = ground arith
  lookup-remove k j ((i, w) ∷ m) =
      ground (arith, e.same_iff k j, e.same_iff i k, e.same_iff i j, lookup-remove k j m)

  pub lookup-modify :
      (k j : K) (f : V → V) (m : Table K V)
      → lookup j (modify k f m) ≡ (if e.same k j then Option.map f (lookup j m) else lookup j m)
  unfolding lookup modify
  lookup-modify k j f [] = ground arith
  lookup-modify k j f ((i, w) ∷ m) =
      ground (arith, e.same_iff k j, e.same_iff i k, e.same_iff i j, lookup-modify k j f m)

  pub lookup-insert_self : (k : K) (v : V) (m : Table K V) → lookup k (insert k v m) ≡ some v
  lookup-insert_self k v m = rw (lookup-insert, same_self k)

  pub lookup-insert_ne :
      (k j : K) (v : V) (m : Table K V) → k ≢ j → lookup j (insert k v m) ≡ lookup j m
  lookup-insert_ne k j v m h = rw (lookup-insert, same_ne k j h)

  pub length-insert : (k : K) (v : V) (m : Table K V) → length (insert k v m) ≤ length m + 1
  unfolding insert
  length-insert k v [] = omega arith
  length-insert k v ((j, w) ∷ m) = ground (arith, length-insert k v m)

  pub length-remove : (k : K) (m : Table K V) → length (remove k m) ≤ length m
  unfolding remove
  length-remove k [] = omega arith
  length-remove k ((j, w) ∷ m) = ground (arith, length-remove k m)

  pub length-remove_lt :
      (k : K) (m : Table K V) (v : V) → lookup k m ≡ some v → length (remove k m) < length m
  unfolding lookup remove
  length-remove_lt k [] v h = cc
  length-remove_lt k ((j, w) ∷ m) v h = ground (arith, length-remove_lt k m v, length-remove k m)

  pub length-modify : (k : K) (f : V → V) (m : Table K V) → length (modify k f m) ≡ length m
  unfolding modify
  length-modify k f [] = refl
  length-modify k f ((j, w) ∷ m) = ground (arith, length-modify k f m)

module _ {ℓ κ μ} {K : Type ℓ} {V : Type κ} ⦃e : Key K⦄ (P : K → V → Type μ) where
  pub AllEntries-lookup :
      (k : K) (m : Table K V) {v : V} → AllEntries P m → lookup k m ≡ some v → P k v
  unfolding lookup
  AllEntries-lookup k [] h p = cc
  AllEntries-lookup k ((j, w) ∷ m) {v} (h, hs) p = elim (Bool-cases (e.same j k)) [
    | inl t ↦ subst₂ P ((e.same_iff j k).0 t) (some-injective w v (rw t at p)) h
    | inr f ↦ AllEntries-lookup k m hs (rw f at p)
  ]

  pub AllEntries-insert :
      (k : K) (v : V) (m : Table K V) → P k v → AllEntries P m → AllEntries P (insert k v m)
  unfolding insert
  AllEntries-insert k v [] p h = (p, tt)
  AllEntries-insert k v ((j, w) ∷ m) p (h, hs) = elim (Bool-cases (e.same j k)) [
    | inl t ↦ rw t (p, hs)
    | inr f ↦ rw f (h, AllEntries-insert k v m p hs)
  ]

  pub AllEntries-remove : (k : K) (m : Table K V) → AllEntries P m → AllEntries P (remove k m)
  unfolding remove
  AllEntries-remove k [] h = tt
  AllEntries-remove k ((j, w) ∷ m) (h, hs) = elim (Bool-cases (e.same j k)) [
    | inl t ↦ rw t (AllEntries-remove k m hs)
    | inr f ↦ rw f (h, AllEntries-remove k m hs)
  ]

  -- A change that keeps `P` where it held keeps it everywhere.
  pub AllEntries-modify :
      (k : K) (f : V → V) (m : Table K V)
      → ((j : K) (v : V) → P j v → P j (f v))
      → AllEntries P m
      → AllEntries P (modify k f m)
  unfolding modify
  AllEntries-modify k f [] g h = tt
  AllEntries-modify k f ((j, w) ∷ m) g (h, hs) = elim (Bool-cases (e.same j k)) [
    | inl t ↦ rw t (g j w h, hs)
    | inr s ↦ rw s (h, AllEntries-modify k f m g hs)
  ]

module _ {ℓ κ μ} {K : Type ℓ} {V : Type κ} (P : K → V → Type μ) where
  pub AllEntries-map_values :
      (f : V → V) (m : Table K V)
      → ((j : K) (v : V) → P j v → P j (f v))
      → AllEntries P m
      → AllEntries P (map_values f m)
  AllEntries-map_values f [] g h = tt
  AllEntries-map_values f ((j, w) ∷ m) g (h, hs) = (g j w h, AllEntries-map_values f m g hs)

  pub AllEntries-retain :
      (p : K → V → Bool) (m : Table K V) → AllEntries P m → AllEntries P (retain p m)
  AllEntries-retain p [] h = tt
  AllEntries-retain p ((j, w) ∷ m) (h, hs) = elim (Bool-cases (p j w)) [
    | inl t ↦ rw t (h, AllEntries-retain p m hs)
    | inr f ↦ rw f (AllEntries-retain p m hs)
  ]
