-- ===== src/Msyn/Contents.antt =====
-- What a list of parts holds (src/net/msyn_sync.rs), and the results of packing.
use mathlib.Core.List.{append-nil, append_assoc}
use mint_connect_unit.Claim.Vip.{Text}
use mint_connect_unit.Msyn.Epoch.{MsynRouteItem, is_empty}
use mint_connect_unit.Msyn.Shard.{Acc, Packing, Result, ShardError, err, ok}
use mint_connect_unit.Prelude.{
  All, List, [], ap, arith, false, inl, inr, length, refl, sym, true, ◌++◌, ◌∙◌, ◌∷◌, ◌≡◌, ◌≤◌, ◌⊎◌,
}

abbrev pub all_removed : List Acc → List Text
all_removed [] = []
all_removed (a ∷ accs) = a.removed ++ all_removed accs

abbrev pub all_routes : List Acc → List MsynRouteItem
all_routes [] = []
all_routes (a ∷ accs) = a.routes ++ all_routes accs

pub all_removed-append :
    (xs : List Acc) (a : Acc) → all_removed (xs ++ (a ∷ [])) ≡ all_removed xs ++ a.removed
all_removed-append [] a = append-nil a.removed
all_removed-append (x ∷ xs) a =
    ap (◌++◌ x.removed) (all_removed-append xs a)
    ∙ sym (append_assoc x.removed (all_removed xs) a.removed)

pub all_routes-append :
    (xs : List Acc) (a : Acc) → all_routes (xs ++ (a ∷ [])) ≡ all_routes xs ++ a.routes
all_routes-append [] a = append-nil a.routes
all_routes-append (x ∷ xs) a =
    ap (◌++◌ x.routes) (all_routes-append xs a)
    ∙ sym (append_assoc x.routes (all_routes xs) a.routes)

abbrev pub AnyOf : {A : Type 0} → (A → Type 0) → List A → Type 0
AnyOf P [] = ⊥
AnyOf P (x ∷ xs) = P x ⊎ AnyOf P xs

pub All-append :
    (P : Acc → Type 0) (xs : List Acc) (a : Acc) → All P xs → P a → All P (xs ++ (a ∷ []))
All-append P [] a h p = (p, tt)
All-append P (x ∷ xs) a (h, hs) p = (h, All-append P xs a hs p)

abbrev pub removed_of : Packing → List Text
removed_of s = all_removed s.done ++ s.cur.removed

abbrev pub routes_of : Packing → List MsynRouteItem
routes_of s = all_routes s.done ++ s.cur.routes

pub nonempty-length : (xs : List Acc) → is_empty xs ≡ false → 1 ≤ length xs
nonempty-length [] h = cc
nonempty-length (x ∷ xs) h = omega arith

pub empty-nil {ℓ} : {A : Type ℓ} (xs : List A) → is_empty xs ≡ true → xs ≡ []
empty-nil [] h = refl
empty-nil (x ∷ xs) h = cc

pub ok-injective {ℓ} : {A : Type ℓ} (a b : A) → ok a ≡ ok b → a ≡ b
ok-injective a b e = cc

pub Result-cases {ℓ} :
    {A : Type ℓ} (r : Result A) → ((a : A) × (r ≡ ok a)) ⊎ ((e : ShardError) × (r ≡ err e))
Result-cases (ok a) = inl (a, refl)
Result-cases (err e) = inr (e, refl)
