-- ===== src/Crypto/Sources.antt =====
-- `CtrlReplayTable` (src/crypto.rs): a replay window for each source, with the instant of its last packet.
use mint_connect_unit.Crypto.Replay.{allows-commit}
use mint_connect_unit.Crypto.Window.{DataReplayWindow, allows, commit, empty_window}
use mint_connect_unit.Prelude.{
  Bool, Bool-cases, Option, Option-cases, [], ap, arith, eqb, false, if◌then◌else◌, inl, inr,
  is_some, is_some→some, leb, length, none, refl, same_self, some, suc, true, zero, ℕ, ℕ_key, ◌<◌,
  ◌∷◌, ◌≡◌, ◌≤◌,
}
use mint_connect_unit.Prelude.Table.{
  Table, insert, length-insert, length-remove_lt, lookup, lookup-insert_self, remove,
}

abbrev pub Sources : Type 0
Sources = Table ℕ (DataReplayWindow × ℕ)

pub record CtrlReplayTable : Type 0 where
  pub sources : Sources
  pub max_sources : ℕ

unfoldable pub empty_table : CtrlReplayTable
empty_table = record { sources = []; max_sources = 4096 }

unfoldable pub clear : CtrlReplayTable → CtrlReplayTable
clear t = record t { sources = [] }

unfoldable pub table_allows : CtrlReplayTable → ℕ → ℕ → Bool
table_allows t src_key counter = elim (lookup src_key t.sources) [
  | none ↦ true
  | some entry ↦ allows entry.0 counter
]

-- `min_by_key(last_seen)`: the first of the entries seen least recently.
unfoldable pub oldest : Sources → Option (ℕ × ℕ)
oldest [] = none
oldest ((k, entry) ∷ m) = elim (oldest m) [
  | none ↦ some (k, entry.1)
  | some best ↦ if leb entry.1 best.1 then some (k, entry.1) else some best
]

-- The `while` loop, with `fuel` rounds left: each of them removes one entry.
unfoldable pub evict_oldest : ℕ → ℕ → Sources → Sources
evict_oldest zero max_sources m = m
evict_oldest (suc fuel) max_sources m =
    if leb max_sources (length m)
    then (elim (oldest m) [
      | none ↦ m
      | some best ↦ evict_oldest fuel max_sources (remove best.0 m)
    ])
    else m

unfoldable pub evict_oldest_until_room : CtrlReplayTable → CtrlReplayTable
unfolding evict_oldest
evict_oldest_until_room t = record t {
  sources = evict_oldest (length t.sources) t.max_sources t.sources;
}

-- A source that is not known yet, with the room there is.
unfoldable pub commit_new : CtrlReplayTable → ℕ → ℕ → ℕ → CtrlReplayTable
commit_new t src_key counter now =
    if leb t.max_sources (length t.sources)
    then t
    else record t { sources = insert src_key (commit empty_window counter, now) t.sources }

unfoldable pub table_commit : CtrlReplayTable → ℕ → ℕ → ℕ → CtrlReplayTable
table_commit t src_key counter now = elim (lookup src_key t.sources) [
  | some entry ↦ record t { sources = insert src_key (commit entry.0 counter, now) t.sources }
  | none ↦
      if leb t.max_sources (length t.sources)
      then commit_new (evict_oldest_until_room t) src_key counter now
      else commit_new t src_key counter now
]

oldest-some :
    (m : Sources)
    → 1 ≤ length m
    → (b : ℕ × ℕ) × (oldest m ≡ some b) × (is_some (lookup b.0 m) ≡ true)
unfolding oldest lookup
oldest-some [] h = absurd (omega arith)
oldest-some ((k, entry) ∷ []) h = ((k, entry.1), refl, rw (same_self k))
oldest-some ((k, entry) ∷ x ∷ m) h =
    let (b, e, f) = oldest-some (x ∷ m) (omega arith) in
    elim (Bool-cases (leb entry.1 b.1)) [
      | inl older ↦ ((k, entry.1), rw (e, older), rw (same_self k))
      | inr newer ↦ (
        b,
        rw (e, newer),
        elim (Bool-cases (eqb k b.0)) [ inl same ↦ rw same | inr other ↦ rw other f ],
      )
    ]

-- The loop ends with room for one more source, however many there were, if the table may hold any.
evict_oldest-room :
    (fuel max_sources : ℕ) (m : Sources)
    → 1 ≤ max_sources
    → length m ≤ fuel
    → length (evict_oldest fuel max_sources m) < max_sources
unfolding evict_oldest
evict_oldest-room zero max_sources m one h = omega arith
evict_oldest-room (suc fuel) max_sources m one h = elim (Bool-cases (leb max_sources (length m))) [
  | inl full ↦
      let (b, e, f) = oldest-some m (ground arith) in
      let (w, found) = is_some→some (lookup b.0 m) f in
      let smaller : length (remove b.0 m) ≤ fuel =
        omega (arith, length-remove_lt b.0 m w found, h) in
      rw (full, e) (evict_oldest-room fuel max_sources (remove b.0 m) one smaller)
  | inr room ↦ rw room (ground arith)
]

commit_new-bound :
    (t : CtrlReplayTable) (src_key counter now : ℕ)
    → length t.sources ≤ t.max_sources
    → length (commit_new t src_key counter now).sources ≤ t.max_sources
unfolding commit_new
commit_new-bound t src_key counter now h =
    elim (Bool-cases (leb t.max_sources (length t.sources))) [
      | inl full ↦ rw full h
      | inr room ↦
          let one_more = length-insert src_key (commit empty_window counter, now) t.sources in
          rw room (ground (arith, one_more))
    ]

commit_new-known :
    (t : CtrlReplayTable) (src_key counter now : ℕ)
    → length t.sources < t.max_sources
    → table_allows (commit_new t src_key counter now) src_key counter ≡ false
unfolding commit_new table_allows
commit_new-known t src_key counter now h =
    let room : leb t.max_sources (length t.sources) ≡ false = ground arith in
    rw (room, table_allows, lookup-insert_self src_key (commit empty_window counter, now) t.sources)
      (allows-commit empty_window counter)

length-insert_known {ℓ} :
    {V : Type ℓ} (k : ℕ) (v : V) (m : Table ℕ V) (w : V)
    → lookup k m ≡ some w
    → length (insert k v m) ≡ length m
unfolding insert lookup
length-insert_known k v [] w h = absurd (cc h)
length-insert_known k v ((j, x) ∷ m) w h = elim (Bool-cases (eqb j k)) [
  | inl t ↦ rw t
  | inr f ↦ rw f (ap suc (length-insert_known k v m w (rw f at h)))
]

commit_known_lem :
    (t : CtrlReplayTable) (src_key counter now : ℕ) (entry : DataReplayWindow × ℕ)
    → lookup src_key t.sources ≡ some entry
    → length t.sources ≤ t.max_sources
    → let u : CtrlReplayTable = record t {
      sources = insert src_key (commit entry.0 counter, now) t.sources;
    } in
      (length u.sources ≤ t.max_sources) × (table_allows u src_key counter ≡ false)
unfolding table_allows
commit_known_lem t src_key counter now entry e h = (
  rw (length-insert_known src_key (commit entry.0 counter, now) t.sources entry e) h,
  rw (table_allows, lookup-insert_self src_key (commit entry.0 counter, now) t.sources)
      (allows-commit entry.0 counter),
)

-- A table that may hold any source at all never comes to hold more than `max_sources` of them, and a
-- counter that it has just taken in is not allowed again from that source, also when it had to forget
-- others to make room.
pub table_commit_lem :
    (t : CtrlReplayTable) (src_key counter now : ℕ)
    → 1 ≤ t.max_sources
    → length t.sources ≤ t.max_sources
    → let u = table_commit t src_key counter now in
      (length u.sources ≤ t.max_sources) × (table_allows u src_key counter ≡ false)
unfolding table_commit evict_oldest_until_room
table_commit_lem t src_key counter now one h = elim (Option-cases (lookup src_key t.sources)) [
  | inr (entry, e) ↦ rw (e, table_commit) (commit_known_lem t src_key counter now entry e h)
  | inl e ↦ elim (Bool-cases (leb t.max_sources (length t.sources))) [
    | inl full ↦
        let room = evict_oldest-room (length t.sources) t.max_sources t.sources one (omega arith) in
        rw (e, table_commit, full)
          (
            commit_new-bound _ src_key counter now (omega (arith, room)),
            commit_new-known _ src_key counter now room,
          )
    | inr space ↦
        rw (e, table_commit, space)
          (
            commit_new-bound t src_key counter now h,
            commit_new-known t src_key counter now (ground arith),
          )
  ]
]
