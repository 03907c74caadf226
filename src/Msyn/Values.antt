-- ===== src/Msyn/Values.antt =====
-- The values of parts as a receiver reads them, and how they come to it (src/net/msyn_sync.rs).
use mathlib.Core.List.{map-append}
use mathlib.Core.Path.{subst}
use mint_connect_unit.Addr.{SocketAddr, addr_key}
use mint_connect_unit.Claim.Vip.{Text}
use mint_connect_unit.Msyn.Assemble.{
  AssembleMap, IngestOutcome, MsynPartPayload, MsynValue, assemble_from, ignored, ingest_msyn_part,
  present,
}
use mint_connect_unit.Msyn.Contents.{all_removed, all_routes}
use mint_connect_unit.Msyn.Epoch.{MsynRouteItem}
use mint_connect_unit.Msyn.Shard.{Acc, MsynPart}
use mint_connect_unit.Prelude.{
  List, Option, [], ap, arith, get_elem?, length, map, none, refl, some, suc, zero, ℕ, ℕ_key, ◌+◌,
  ◌<◌, ◌∷◌, ◌≡◌,
}
use mint_connect_unit.Prelude.Table.{Table, insert, lookup}

abbrev pub some_texts : List Text → List (Option Text)
some_texts [] = []
some_texts (x ∷ xs) = some x ∷ some_texts xs

pub present-some_texts : (xs : List Text) → present (some_texts xs) ≡ xs
unfolding present
present-some_texts [] = refl
present-some_texts (x ∷ xs) = ap (◌∷◌ x) (present-some_texts xs)

pub zero_plus : (j : ℕ) → 0 + j ≡ j
zero_plus j = omega arith

pub get_elem?-lt :
    {A : Type 0} (xs : List A) (j : ℕ) (x : A) → get_elem? xs j ≡ some x → j < length xs
get_elem?-lt [] j x e = cc
get_elem?-lt (y ∷ xs) zero x e = omega arith
get_elem?-lt (y ∷ xs) (suc j) x e = omega (arith, get_elem?-lt xs j x e)

pub get_elem?-some :
    {A : Type 0} (xs : List A) (j : ℕ) → j < length xs → (x : A) × (get_elem? xs j ≡ some x)
get_elem?-some [] j lt = absurd (omega (arith, lt))
get_elem?-some (y ∷ xs) zero lt = (y, refl)
get_elem?-some (y ∷ xs) (suc j) lt = get_elem?-some xs j (omega (arith, lt))

module _ {V : Type 0} (to_json : MsynRouteItem → V) where
  -- What the receiver reads of a part.
  abbrev pub value_of : MsynPart → MsynValue V
  value_of p = record {
    proto_ver = some p.proto_ver;
    schema_ver = some p.schema_ver;
    sync_id = some p.sync_id;
    from_rev = some p.from_rev;
    to_rev = some p.to_rev;
    part_idx = some p.part_idx;
    parts_total = some p.parts_total;
    routes = some (map to_json p.routes);
    removed = some (some_texts p.removed);
  }

  abbrev pub payload : Acc → MsynPartPayload V
  payload a = record { routes = map to_json a.routes; removed = a.removed }

  pub assemble_from_lem :
      (parts : Table ℕ (MsynPartPayload V)) (k : ℕ) (accs : List Acc)
      → ((j : ℕ) (a : Acc) → get_elem? accs j ≡ some a → lookup (k + j) parts ≡ some (payload a))
      → assemble_from parts k (length accs) ≡ (all_removed accs, map to_json (all_routes accs))
  unfolding assemble_from
  assemble_from_lem parts k [] h = refl
  assemble_from_lem parts k (a ∷ accs) h =
      let zero_add : k + 0 ≡ k = omega arith in
      let here : lookup k parts ≡ some (payload a) =
        subst (λ x. lookup x parts ≡ some (payload a)) zero_add (h 0 a refl) in
      let rest = assemble_from_lem parts (k + 1) accs (λ j b e.
        let next : k + suc j ≡ k + 1 + j = omega arith in
        subst (λ x. lookup x parts ≡ some (payload b)) next (h (suc j) b e)) in
      rw (assemble_from, here, rest, map-append to_json a.routes (all_routes accs)) refl

module _ {V : Type 0} (parse : Text → Option (MsynValue V)) (from : SocketAddr) (applied : ℕ) where
  -- The text of a part, by its place among the texts, with the instant at which it comes.
  unfoldable pub receive : AssembleMap V → List Text → ℕ × ℕ → AssembleMap V × IngestOutcome V
  receive m texts e = elim (get_elem? texts e.1) [
    | none ↦ (m, ignored)
    | some x ↦ elim (parse x) [
      | none ↦ (m, ignored)
      | some v ↦ ingest_msyn_part m from v applied e.0
    ]
  ]

  -- What the last of a sequence of texts leads to.
  unfoldable pub deliver : AssembleMap V → List Text → ℕ × ℕ → List (ℕ × ℕ) → IngestOutcome V
  deliver m texts e [] = (receive m texts e).1
  deliver m texts e (d ∷ es) = deliver (receive m texts e).0 texts d es

abbrev pub indices : List (ℕ × ℕ) → List ℕ
indices [] = []
indices (e ∷ es) = e.1 ∷ indices es

pub length-insert_new {ℓ} :
    {V : Type ℓ} (k : ℕ) (v : V) (m : Table ℕ V)
    → lookup k m ≡ none
    → length (insert k v m) ≡ length m + 1
unfolding insert lookup
length-insert_new k v [] h = omega arith
length-insert_new k v ((j, w) ∷ m) h = ground (arith, length-insert_new k v m)
