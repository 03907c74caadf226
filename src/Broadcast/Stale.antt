-- ===== src/Broadcast/Stale.antt =====
-- The set and the timeline of the deduplicator (src/bcast.rs), and copies of a packet.
use mathlib.Core.Path.{subst}
use mint_connect_unit.Broadcast.Dedup.{
  Deduplicator, admit_key, evict, evict_front, forget_key, has_seen, max_cache, trim, ttl,
}
use mint_connect_unit.Prelude.{
  Bool-cases, List, [], ap, arith, eqb, eqb_iff, false, if◌then◌else◌, inl, inr, length,
  length-append, ltb, lt→ltb, not, refl, sym, true, ℕ, ◌++◌, ◌+◌, ◌-◌, ◌<◌, ◌||◌, ◌∙◌, ◌∷◌, ◌≡◌,
  ◌≤◌,
}

abbrev pub key_list : List (ℕ × ℕ) → List ℕ
key_list [] = []
key_list (e ∷ es) = e.1 ∷ key_list es

abbrev pub Unique : List ℕ → Type 0
Unique [] = Unit {0}
Unique (x ∷ xs) = (has_seen x xs ≡ false) × Unique xs

-- The set is the keys of the timeline, none twice, at most 4096 of them.
pub record Agree (s : Deduplicator) : Type 0 where
  pub same_keys : s.seen ≡ key_list s.timeline
  pub distinct : Unique (key_list s.timeline)
  pub bound : length s.timeline ≤ max_cache

forget_none : (k : ℕ) (xs : List ℕ) → has_seen k xs ≡ false → forget_key k xs ≡ xs
unfolding forget_key has_seen
forget_none k [] h = refl
forget_none k (x ∷ xs) h = elim (Bool-cases (eqb x k)) [
  | inl t ↦ absurd (cc (rw t at h))
  | inr f ↦ rw f (ap (◌∷◌ x) (forget_none k xs (rw f at h)))
]

forget_front : (k : ℕ) (xs : List ℕ) → has_seen k xs ≡ false → forget_key k (k ∷ xs) ≡ xs
unfolding forget_key
forget_front k xs h = rw ((eqb_iff k k).1 refl) (forget_none k xs h)

-- The entries that are left once those of two seconds and more are gone from the front.
unfoldable pub fresh_part : ℕ → List (ℕ × ℕ) → List (ℕ × ℕ)
fresh_part now [] = []
fresh_part now (e ∷ es) = if ltb (now - e.0) ttl then e ∷ es else fresh_part now es

fresh_part-keep :
    (now : ℕ) (e : ℕ × ℕ) (es : List (ℕ × ℕ))
    → ltb (now - e.0) ttl ≡ true
    → fresh_part now (e ∷ es) ≡ e ∷ es
unfolding fresh_part
fresh_part-keep now e es h = rw h

fresh_part-drop :
    (now : ℕ) (e : ℕ × ℕ) (es : List (ℕ × ℕ))
    → ltb (now - e.0) ttl ≡ false
    → fresh_part now (e ∷ es) ≡ fresh_part now es
unfolding fresh_part
fresh_part-drop now e es h = rw h

abbrev of_timeline : List (ℕ × ℕ) → Deduplicator
of_timeline es = record { seen = key_list es; timeline = es }

evict_front_lem :
    (now : ℕ) (es : List (ℕ × ℕ))
    → Unique (key_list es)
    → evict_front now (key_list es) es ≡ of_timeline (fresh_part now es)
unfolding evict_front fresh_part
evict_front_lem now [] u = refl
evict_front_lem now ((t, k) ∷ es) u = elim (Bool-cases (ltb (now - t) ttl)) [
  | inl h ↦ rw (fresh_part-keep now (t, k) es h, h)
  | inr h ↦
      rw (fresh_part-drop now (t, k) es h, h, forget_front k (key_list es) u.0)
        (evict_front_lem now es u.1)
]

fresh_part-Unique :
    (now : ℕ) (es : List (ℕ × ℕ)) → Unique (key_list es) → Unique (key_list (fresh_part now es))
unfolding fresh_part
fresh_part-Unique now [] u = tt
fresh_part-Unique now (e ∷ es) u = elim (Bool-cases (ltb (now - e.0) ttl)) [
  | inl h ↦ subst (λ x. Unique (key_list x)) (sym (fresh_part-keep now e es h)) u
  | inr h ↦
      subst (λ x. Unique (key_list x)) (sym (fresh_part-drop now e es h))
        (fresh_part-Unique now es u.1)
]

length-fresh_part : (now : ℕ) (es : List (ℕ × ℕ)) → length (fresh_part now es) ≤ length es
unfolding fresh_part
length-fresh_part now [] = omega arith
length-fresh_part now (e ∷ es) = elim (Bool-cases (ltb (now - e.0) ttl)) [
  | inl h ↦ omega (arith, ap length (fresh_part-keep now e es h))
  | inr h ↦ omega (arith, ap length (fresh_part-drop now e es h), length-fresh_part now es)
]

-- An entry at the end that is less than two seconds old stays.
fresh_part-last :
    (now : ℕ) (es : List (ℕ × ℕ)) (e : ℕ × ℕ)
    → ltb (now - e.0) ttl ≡ true
    → (xs : List (ℕ × ℕ)) × (fresh_part now (es ++ (e ∷ [])) ≡ xs ++ (e ∷ []))
fresh_part-last now [] e h = ([], fresh_part-keep now e [] h)
fresh_part-last now (d ∷ es) e h = elim (Bool-cases (ltb (now - d.0) ttl)) [
  | inl t ↦ (d ∷ es, fresh_part-keep now d (es ++ (e ∷ [])) t)
  | inr f ↦
      let (xs, g) = fresh_part-last now es e h in (xs, fresh_part-drop now d (es ++ (e ∷ [])) f ∙ g)
]

key_list-append :
    (es : List (ℕ × ℕ)) (e : ℕ × ℕ) → key_list (es ++ (e ∷ [])) ≡ key_list es ++ (e.1 ∷ [])
key_list-append [] e = refl
key_list-append (d ∷ es) e = ap (◌∷◌ d.1) (key_list-append es e)

has_seen-last : (xs : List ℕ) (k : ℕ) → has_seen k (xs ++ (k ∷ [])) ≡ true
unfolding has_seen
has_seen-last [] k = ground (arith, eqb_iff k k)
has_seen-last (x ∷ xs) k = ground (arith, has_seen-last xs k)

has_seen-append : (xs : List ℕ) (k y : ℕ) → has_seen y (xs ++ (k ∷ [])) ≡ (has_seen y xs || eqb k y)
unfolding has_seen
has_seen-append [] k y = ground arith
has_seen-append (x ∷ xs) k y = ground (arith, has_seen-append xs k y)

Unique-append : (xs : List ℕ) (k : ℕ) → Unique xs → has_seen k xs ≡ false → Unique (xs ++ (k ∷ []))
unfolding has_seen
Unique-append [] k u h = (refl, tt)
Unique-append (x ∷ xs) k u h =
    (rw (has_seen-append xs k x, u.0) (ground arith), Unique-append xs k u.1 (ground arith))

-- A timeline that ends with an entry, no longer than the cache.
record Trimmed (e : ℕ × ℕ) (s : Deduplicator) : Type 0 where
  before : List (ℕ × ℕ)
  result : s ≡ of_timeline (before ++ (e ∷ []))
  distinct : Unique (key_list (before ++ (e ∷ [])))
  bound : length (before ++ (e ∷ [])) ≤ max_cache

trim-Trimmed :
    (es : List (ℕ × ℕ)) (e : ℕ × ℕ)
    → length es ≤ max_cache
    → Unique (key_list (es ++ (e ∷ [])))
    → Trimmed e (trim (of_timeline (es ++ (e ∷ []))) (es ++ (e ∷ [])))
unfolding trim
trim-Trimmed [] (t, k) h u = record {
  before = [];
  result = refl;
  distinct = u;
  bound = omega arith;
}
trim-Trimmed ((t, k) ∷ es) e h u =
    let n = length-append es (e ∷ []) in
    elim (Bool-cases (ltb max_cache (length ((t, k) ∷ es ++ (e ∷ []))))) [
      | inl long ↦ record {
        before = es;
        result = rw (long, forget_front k (key_list (es ++ (e ∷ []))) u.0);
        distinct = u.1;
        bound = omega (arith, n, h);
      }
      | inr short ↦ record {
        before = (t, k) ∷ es;
        result = rw short;
        distinct = u;
        bound = ground (arith, short);
      }
    ]

-- Admitting a key that is not in the set, before the timeline is trimmed.
module _ (s : Deduplicator) (a : Agree s) (now key : ℕ) where
  fresh : List (ℕ × ℕ)
  fresh = fresh_part now s.timeline

  grown : List (ℕ × ℕ)
  grown = fresh ++ ((now, key) ∷ [])

  evict_lem : evict s now ≡ of_timeline fresh
  unfolding evict fresh
  evict_lem = rw a.same_keys (evict_front_lem now s.timeline a.distinct)

  fresh-Agree : Agree (of_timeline fresh)
  unfolding fresh
  fresh-Agree = record {
    same_keys = refl;
    distinct = fresh_part-Unique now s.timeline a.distinct;
    bound = omega (arith, length-fresh_part now s.timeline, a.bound);
  }

  grown-Unique : has_seen key (key_list fresh) ≡ false → Unique (key_list grown)
  unfolding grown
  grown-Unique h =
      subst Unique (sym (key_list-append fresh (now, key)))
        (Unique-append (key_list fresh) key fresh-Agree.distinct h)

  admit_new :
      has_seen key (key_list fresh) ≡ false
      → admit_key s now key ≡ (trim (of_timeline grown) grown, true)
  unfolding admit_key grown
  admit_new h = rw (evict_lem, h, key_list-append fresh (now, key))

  admit_old :
      has_seen key (key_list fresh) ≡ true → admit_key s now key ≡ (of_timeline fresh, false)
  unfolding admit_key
  admit_old h = rw (evict_lem, h)

  grown-Trimmed :
      has_seen key (key_list fresh) ≡ false → Trimmed (now, key) (trim (of_timeline grown) grown)
  unfolding grown
  grown-Trimmed h = trim-Trimmed fresh (now, key) fresh-Agree.bound (grown-Unique h)

-- A key is fresh exactly if no entry that is left has it, once those of two seconds and more are gone from the
-- front; and the set stays the keys of the timeline, none twice, at most 4096 of them.
pub admit_key-Agree :
    (s : Deduplicator) (now key : ℕ)
    → Agree s
    → Agree (admit_key s now key).0
      × ((admit_key s now key).1 ≡ not (has_seen key (key_list (fresh_part now s.timeline))))
unfolding fresh
admit_key-Agree s now key a =
    elim (Bool-cases (has_seen key (key_list (fresh_part now s.timeline)))) [
      | inl old ↦ rw (admit_old s a now key old, old) (fresh-Agree s a now key, refl)
      | inr new ↦
          let t = grown-Trimmed s a now key new in
          rw (admit_new s a now key new, t.result, new)
            (record { same_keys = refl; distinct = t.distinct; bound = t.bound }, refl)
    ]

-- A packet with the key of one that was admitted less than two seconds before is refused, if nothing came
-- in between.
pub repeat_refused :
    (s : Deduplicator) (now later key : ℕ)
    → Agree s
    → (admit_key s now key).1 ≡ true
    → later < now + ttl
    → (admit_key (admit_key s now key).0 later key).1 ≡ false
unfolding fresh
repeat_refused s now later key a h soon =
    elim (Bool-cases (has_seen key (key_list (fresh_part now s.timeline)))) [
      | inl old ↦ absurd (cc (h, admit_old s a now key old))
      | inr new ↦
          let t = grown-Trimmed s a now key new in
          let recent : ltb (later - now) ttl ≡ true = lt→ltb (later - now) ttl (omega arith) in
          let (xs, e) = fresh_part-last later t.before (now, key) recent in
          let after : Agree (admit_key s now key).0 = (admit_key-Agree s now key a).0 in
          let same : (admit_key s now key).0 ≡ of_timeline (t.before ++ ((now, key) ∷ [])) =
            rw (admit_new s a now key new) t.result in
          rw (
            (admit_key-Agree (admit_key s now key).0 later key after).1,
            same,
            e,
            key_list-append xs (now, key),
            has_seen-last (key_list xs) key,
          )
    ]
