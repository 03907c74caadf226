-- ===== src/Prelude/Distinct.antt =====
-- Lists without repetition, and tables whose keys are one: what the operations on tables keep.
use mathlib.Core.Path.{◌≡◌, refl, ◌∙◌, subst}
use mathlib.Core.Option.{some}
use native.Mathlib.Omega.{arith}
use mathlib.Core.Logic.{◌≢◌, inl, inr}
use mathlib.Core.Bool.{Bool}
use mathlib.Core.List.{List, [], ◌∷◌}
use mint_connect_unit.Prelude.Tests.{Key, Bool-cases}
use mint_connect_unit.Prelude.Lists.{All}
use mint_connect_unit.Prelude.Table.{
  Table, keys, map_values, retain, insert, remove, modify, lookup,
}

module _ {ℓ} {A : Type ℓ} where
  abbrev pub Distinct : List A → Type ℓ
  Distinct [] = Unit {ℓ}
  Distinct (x ∷ xs) = All (λ y. x ≢ y) xs × Distinct xs

  pub All-map {κ μ} :
      {P : A → Type κ} {Q : A → Type μ} (xs : List A) → ((x : A) → P x → Q x) → All P xs → All Q xs
  All-map [] f h = tt
  All-map (x ∷ xs) f (h, hs) = (f x h, All-map xs f hs)

  pub All-zip {κ μ ν} :
      {P : A → Type κ} {Q : A → Type μ} {R : A → Type ν} (xs : List A)
      → ((x : A) → P x → Q x → R x)
      → All P xs
      → All Q xs
      → All R xs
  All-zip [] f h k = tt
  All-zip (x ∷ xs) f (h, hs) (k, ks) = (f x h k, All-zip xs f hs ks)

module _ {ℓ κ} {K : Type ℓ} {V : Type κ} ⦃e : Key K⦄ where
  pub All-keys-insert {μ} :
      (P : K → Type μ) (k : K) (v : V) (m : Table K V)
      → P k
      → All P (keys m)
      → All P (keys (insert k v m))
  unfolding insert
  All-keys-insert P k v [] p h = (p, tt)
  All-keys-insert P k v ((j, w) ∷ m) p (h, hs) = elim (Bool-cases (e.same j k)) [
    | inl t ↦ rw t (p, hs)
    | inr f ↦ rw f (h, All-keys-insert P k v m p hs)
  ]

  pub All-keys-remove {μ} :
      (P : K → Type μ) (k : K) (m : Table K V) → All P (keys m) → All P (keys (remove k m))
  unfolding remove
  All-keys-remove P k [] h = tt
  All-keys-remove P k ((j, w) ∷ m) (h, hs) = elim (Bool-cases (e.same j k)) [
    | inl t ↦ rw t (All-keys-remove P k m hs)
    | inr f ↦ rw f (h, All-keys-remove P k m hs)
  ]

  pub Distinct-insert :
      (k : K) (v : V) (m : Table K V) → Distinct (keys m) → Distinct (keys (insert k v m))
  unfolding insert
  Distinct-insert k v [] d = (tt, tt)
  Distinct-insert k v ((j, w) ∷ m) (d, ds) = elim (Bool-cases (e.same j k)) [
    | inl t ↦ rw t (All-map (keys m) (λ y n h. n ((e.same_iff j k).0 t ∙ h)) d, ds)
    | inr f ↦ rw f (
      All-keys-insert (λ y. j ≢ y) k v m (λ h. cc ((e.same_iff j k).1 h, f)) d,
      Distinct-insert k v m ds,
    )
  ]

  pub Distinct-remove : (k : K) (m : Table K V) → Distinct (keys m) → Distinct (keys (remove k m))
  unfolding remove
  Distinct-remove k [] d = tt
  Distinct-remove k ((j, w) ∷ m) (d, ds) = elim (Bool-cases (e.same j k)) [
    | inl t ↦ rw t (Distinct-remove k m ds)
    | inr f ↦ rw f (All-keys-remove (λ y. j ≢ y) k m d, Distinct-remove k m ds)
  ]

module _ {ℓ κ} {K : Type ℓ} {V : Type κ} ⦃e : Key K⦄ where
  pub keys-modify : (k : K) (f : V → V) (m : Table K V) → keys (modify k f m) ≡ keys m
  unfolding modify
  keys-modify k f [] = refl
  keys-modify k f ((j, w) ∷ m) = ground (arith, keys-modify k f m)

  -- What holds of every key holds of one that is looked up.
  pub All-keys-lookup {μ} :
      (P : K → Type μ) (k : K) (m : Table K V) {v : V} → All P (keys m) → lookup k m ≡ some v → P k
  unfolding lookup
  All-keys-lookup P k [] h p = cc
  All-keys-lookup P k ((j, w) ∷ m) (h, hs) p = elim (Bool-cases (e.same j k)) [
    | inl t ↦ subst P ((e.same_iff j k).0 t) h
    | inr f ↦ All-keys-lookup P k m hs (rw f at p)
  ]

module _ {ℓ κ} {K : Type ℓ} {V : Type κ} where
  pub keys-map_values : (f : V → V) (m : Table K V) → keys (map_values f m) ≡ keys m
  keys-map_values f [] = refl
  keys-map_values f ((k, v) ∷ m) = rw (keys-map_values f m)

  All-keys-retain {μ} :
      (P : K → Type μ) (p : K → V → Bool) (m : Table K V)
      → All P (keys m)
      → All P (keys (retain p m))
  All-keys-retain P p [] h = tt
  All-keys-retain P p ((j, w) ∷ m) (h, hs) = elim (Bool-cases (p j w)) [
    | inl t ↦ rw t (h, All-keys-retain P p m hs)
    | inr f ↦ rw f (All-keys-retain P p m hs)
  ]

  pub Distinct-retain :
      (p : K → V → Bool) (m : Table K V) → Distinct (keys m) → Distinct (keys (retain p m))
  Distinct-retain p [] d = tt
  Distinct-retain p ((j, w) ∷ m) (d, ds) = elim (Bool-cases (p j w)) [
    | inl t ↦ rw t (All-keys-retain (λ y. j ≢ y) p m d, Distinct-retain p m ds)
    | inr f ↦ rw f (Distinct-retain p m ds)
  ]
