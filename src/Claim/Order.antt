-- ===== src/Claim/Order.antt =====
-- The order of node identifiers and the sort that settles duplicates (src/net/claim_gossip.rs).
use mathlib.Core.Path.{subst}
use mint_connect_unit.Claim.Removal.{mem_text}
use mint_connect_unit.Claim.Settle.{group_losers, insert_sorted, sort_texts}
use mint_connect_unit.Claim.Vip.{Text, node_id_wins, same_text, same_text_iff, text_key, wins-flip}
use mint_connect_unit.Prelude.{
  All, Bool, Bool-cases, List, [], arith, drop, false, inl, inr, length, ltb, refl, same_ne, true,
  ◌||◌, ◌∙◌, ◌∷◌, ◌≡◌, ◌≢◌,
}
use mint_connect_unit.Prelude.Distinct.{All-map, Distinct}

wins_self : (a : Text) → node_id_wins a a ≡ false
unfolding node_id_wins
wins_self [] = refl
wins_self (x ∷ xs) = ground (arith, wins_self xs)

wins_trans :
    (a b c : Text) → node_id_wins a b ≡ true → node_id_wins b c ≡ true → node_id_wins a c ≡ true
unfolding node_id_wins
wins_trans a [] [] h k = cc
wins_trans a (y ∷ ys) [] h k = cc
wins_trans [] [] (z ∷ zs) h k = refl
wins_trans (x ∷ xs) [] (z ∷ zs) h k = cc
wins_trans [] (y ∷ ys) (z ∷ zs) h k = refl
wins_trans (x ∷ xs) (y ∷ ys) (z ∷ zs) h k = ground (arith, wins_trans xs ys zs, h, k)

-- In strict order.
abbrev pub Ordered : List Text → Type 0
Ordered [] = Unit {0}
Ordered (x ∷ xs) = All (λ y. node_id_wins x y ≡ true) xs × Ordered xs

-- Some element of the list wins over `id`.
abbrev pub beaten : Text → List Text → Bool
beaten id [] = false
beaten id (x ∷ xs) = node_id_wins x id || beaten id xs

mem-insert_sorted :
    (id x : Text) (xs : List Text)
    → mem_text id (insert_sorted x xs) ≡ (same_text x id || mem_text id xs)
unfolding insert_sorted
mem-insert_sorted id x [] = refl
mem-insert_sorted id x (y ∷ ys) = ground (arith, mem-insert_sorted id x ys)

pub mem-sort_texts : (id : Text) (xs : List Text) → mem_text id (sort_texts xs) ≡ mem_text id xs
unfolding sort_texts
mem-sort_texts id [] = refl
mem-sort_texts id (x ∷ xs) =
    ground (arith, mem-insert_sorted id x (sort_texts xs), mem-sort_texts id xs)

beaten-insert_sorted :
    (id x : Text) (xs : List Text)
    → beaten id (insert_sorted x xs) ≡ (node_id_wins x id || beaten id xs)
unfolding insert_sorted
beaten-insert_sorted id x [] = refl
beaten-insert_sorted id x (y ∷ ys) = ground (arith, beaten-insert_sorted id x ys)

beaten-sort_texts : (id : Text) (xs : List Text) → beaten id (sort_texts xs) ≡ beaten id xs
unfolding sort_texts
beaten-sort_texts id [] = refl
beaten-sort_texts id (x ∷ xs) =
    ground (arith, beaten-insert_sorted id x (sort_texts xs), beaten-sort_texts id xs)

All-insert_sorted :
    (P : Text → Type 0) (x : Text) (xs : List Text) → P x → All P xs → All P (insert_sorted x xs)
unfolding insert_sorted
All-insert_sorted P x [] p h = (p, tt)
All-insert_sorted P x (y ∷ ys) p (h, hs) = elim (Bool-cases (node_id_wins y x)) [
  | inl t ↦ rw t (h, All-insert_sorted P x ys p hs)
  | inr f ↦ rw f (p, (h, hs))
]

pub All-sort_texts : (P : Text → Type 0) (xs : List Text) → All P xs → All P (sort_texts xs)
unfolding sort_texts
All-sort_texts P [] h = tt
All-sort_texts P (x ∷ xs) (h, hs) = All-insert_sorted P x (sort_texts xs) h (All-sort_texts P xs hs)

insert_sorted-Ordered :
    (x : Text) (xs : List Text) → All (λ y. x ≢ y) xs → Ordered xs → Ordered (insert_sorted x xs)
unfolding insert_sorted
insert_sorted-Ordered x [] n o = (tt, tt)
insert_sorted-Ordered x (y ∷ ys) (n, ns) (o, os) = elim (Bool-cases (node_id_wins y x)) [
  | inl t ↦
      rw t (
        All-insert_sorted (λ z. node_id_wins y z ≡ true) x ys t o,
        insert_sorted-Ordered x ys ns os,
      )
  | inr f ↦
      let first : node_id_wins x y ≡ true = ground (arith, wins-flip x y (same_ne x y n), f) in
      rw f ((first, All-map ys (λ z w. wins_trans x y z first w) o), (o, os))
]

pub sort_texts-Ordered : (xs : List Text) → Distinct xs → Ordered (sort_texts xs)
unfolding sort_texts
sort_texts-Ordered [] d = tt
sort_texts-Ordered (x ∷ xs) (d, ds) =
    insert_sorted-Ordered x (sort_texts xs) (All-sort_texts (λ y. x ≢ y) xs d)
      (sort_texts-Ordered xs ds)

pub All-mem :
    (P : Text → Type 0) (id : Text) (xs : List Text) → All P xs → mem_text id xs ≡ true → P id
All-mem P id [] h m = cc
All-mem P id (x ∷ xs) (h, hs) m = elim (Bool-cases (same_text x id)) [
  | inl t ↦ subst P ((same_text_iff x id).0 t) h
  | inr f ↦ All-mem P id xs hs (ground (arith, f, m))
]

-- In an ordered list, all but the first are beaten.
none_before :
    (id : Text) (xs : List Text)
    → All (λ y. node_id_wins id y ≡ true) xs
    → (beaten id xs ≡ false) × (mem_text id xs ≡ false)
none_before id [] h = (refl, refl)
none_before id (x ∷ xs) (h, hs) =
    let (b, m) = none_before id xs hs in
    let n : same_text x id ≡ false = elim (Bool-cases (same_text x id)) [
      | inl t ↦ absurd (cc (h, (same_text_iff x id).0 t, wins_self id))
      | inr f ↦ f
    ] in
    (ground (arith, wins-flip x id n, b), ground (arith, n, m))

beaten-Ordered :
    (id : Text) (xs : List Text)
    → Ordered xs
    → mem_text id xs ≡ true
    → mem_text id (drop 1 xs) ≡ beaten id xs
beaten-Ordered id [] o m = refl
beaten-Ordered id (x ∷ xs) (o, os) m = elim (Bool-cases (same_text x id)) [
  | inl t ↦
      let e : x ≡ id = (same_text_iff x id).0 t in
      let before = subst (λ z. All (λ y. node_id_wins z y ≡ true) xs) e o in
      let (b, n) = none_before id xs before in
      let w : node_id_wins x id ≡ false = cc (e, wins_self id) in rw (w, b, n) refl
  | inr f ↦
      let inside : mem_text id xs ≡ true = ground (arith, f, m) in
      let w : node_id_wins x id ≡ true = All-mem (λ y. node_id_wins x y ≡ true) id xs o inside in
      rw (w, inside) refl
]

-- Of nodes that are distinct, those that lose are those that another one wins over.
pub group_losers-beaten :
    (id : Text) (nodes : List Text)
    → Distinct nodes
    → mem_text id nodes ≡ true
    → mem_text id (group_losers nodes) ≡ beaten id nodes
unfolding sort_texts insert_sorted
group_losers-beaten id [] d m = refl
group_losers-beaten id (x ∷ []) d m =
    let e : x ≡ id = (same_text_iff x id).0 (ground (arith, m)) in
    let w : node_id_wins x id ≡ false = cc (e, wins_self id) in rw w refl
group_losers-beaten id (x ∷ y ∷ xs) d m =
    let nodes : List Text = x ∷ y ∷ xs in
    let long : ltb (length nodes) 2 ≡ false = ground arith in
    let inside : mem_text id (sort_texts nodes) ≡ true = mem-sort_texts id nodes ∙ m in
    rw long (
      beaten-Ordered id (sort_texts nodes) (sort_texts-Ordered nodes d) inside
      ∙ beaten-sort_texts id nodes)
