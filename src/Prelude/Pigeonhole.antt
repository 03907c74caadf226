-- ===== src/Prelude/Pigeonhole.antt =====
-- Tables whose keys are numbers below a bound: they have at most so many entries, and with so many they have
-- every one.
use native.Mathlib.Omega.{arith}
use mathlib.Core.Logic.{◌≢◌, inl, inr}
use mathlib.Core.Path.{◌≡◌, refl, sym, ap}
use mathlib.Core.List.{[], ◌∷◌}
use mathlib.Core.Bool.{true, false}
use mathlib.Core.Option.{Option, some, none}
use Prim.Native.Nat.{ℕ, zero, suc, ◌+◌, ◌≤◌, ◌<◌}
use mint_connect_unit.Prelude.Tests.{Bool-cases, ℕ_key, eqb, eqb_iff, is_some}
use mint_connect_unit.Prelude.Lists.{All, length}
use mint_connect_unit.Prelude.Table.{Table, keys, lookup, remove}
use mint_connect_unit.Prelude.Distinct.{Distinct, All-keys-remove, Distinct-remove, All-zip}

is_some-false {ℓ} : {W : Type ℓ} (o : Option W) → is_some o ≡ false → o ≡ none
is_some-false none h = refl
is_some-false (some w) h = cc

module _ {ℓ} {V : Type ℓ} where
  remove-absent : (k : ℕ) (m : Table ℕ V) → All (λ y. k ≢ y) (keys m) → remove k m ≡ m
  unfolding remove
  remove-absent k [] h = refl
  remove-absent k ((j, w) ∷ m) (h, hs) = elim (Bool-cases (eqb j k)) [
    | inl t ↦ absurd (h (sym ((eqb_iff j k).0 t)))
    | inr f ↦ rw f (ap (◌∷◌ (j, w)) (remove-absent k m hs))
  ]

  length-remove_one :
      (k : ℕ) (m : Table ℕ V) → Distinct (keys m) → length m ≤ length (remove k m) + 1
  unfolding remove
  length-remove_one k [] d = omega arith
  length-remove_one k ((j, w) ∷ m) (d, ds) = elim (Bool-cases (eqb j k)) [
    | inl t ↦
        let e : j ≡ k = (eqb_iff j k).0 t in
        let same : remove k m ≡ m = rw⁻¹ e (remove-absent j m d) in rw (t, same) (omega arith)
    | inr f ↦ rw f (omega (arith, length-remove_one k m ds))
  ]

  removed_ne : (k : ℕ) (m : Table ℕ V) → All (λ y. y ≢ k) (keys (remove k m))
  unfolding remove
  removed_ne k [] = tt
  removed_ne k ((j, w) ∷ m) = elim (Bool-cases (eqb j k)) [
    | inl t ↦ rw t (removed_ne k m)
    | inr f ↦ rw f ((λ e. cc ((eqb_iff j k).1 e, f)), removed_ne k m)
  ]

  pub length-below :
      (n : ℕ) (m : Table ℕ V) → Distinct (keys m) → All (λ y. y < n) (keys m) → length m ≤ n
  length-below zero [] d h = omega arith
  length-below zero ((j, w) ∷ m) d (h, hs) = absurd (omega (arith, h))
  length-below (suc n) m d h =
      let rest : All (λ y. y < n) (keys (remove n m)) =
        All-zip (keys (remove n m)) (λ y lt ne. ground (arith, lt, ne))
          (All-keys-remove (λ y. y < suc n) n m h) (removed_ne n m) in
      omega
        (arith, length-remove_one n m d, length-below n (remove n m) (Distinct-remove n m d) rest)

  pub absent-All : (k : ℕ) (m : Table ℕ V) → lookup k m ≡ none → All (λ y. k ≢ y) (keys m)
  unfolding lookup
  absent-All k [] h = tt
  absent-All k ((j, w) ∷ m) h = elim (Bool-cases (eqb j k)) [
    | inl t ↦ absurd (cc (rw t at h))
    | inr f ↦ ((λ e. cc ((eqb_iff j k).1 (sym e), f)), absent-All k m (rw f at h))
  ]

  -- As many entries as numbers below the bound.
  pub full_below :
      (n : ℕ) (m : Table ℕ V)
      → Distinct (keys m)
      → All (λ y. y < n) (keys m)
      → length m ≡ n
      → (i : ℕ) → i < n
      → is_some (lookup i m) ≡ true
  full_below n [] d h e i lt = absurd (omega arith)
  full_below n ((j, w) ∷ m) d h e i lt = elim (Bool-cases (is_some (lookup i ((j, w) ∷ m)))) [
    | inl t ↦ t
    | inr f ↦
        let a = absent-All i ((j, w) ∷ m) (is_some-false (lookup i ((j, w) ∷ m)) f) in
        absurd (omega (arith, e, length-below n ((i, w) ∷ (j, w) ∷ m) (a, d) (lt, h)))
  ]
