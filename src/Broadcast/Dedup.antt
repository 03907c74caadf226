-- ===== src/Broadcast/Dedup.antt =====
-- `BroadcastDeduplicator` (src/bcast.rs). `hash` stands for a hasher of the random state of the process: the u64
-- that it ends with after a label and then the parts of a packet. The set `seen` is the list of its
-- elements, and an instant a number of milliseconds.
use mint_connect_unit.Prelude.{
  Bool, List, [], drop, eqb, false, if◌then◌else◌, keep, leb, length, ltb, min, not, suc, take,
  true, zero, ℕ, ◌%◌, ◌*◌, ◌++◌, ◌+◌, ◌-◌, ◌/◌, ◌^◌, ◌||◌, ◌∷◌,
}

abbrev pub ttl : ℕ
ttl = 2000

abbrev pub max_cache : ℕ
max_cache = 4096

pub record Deduplicator : Type 0 where
  pub seen : List ℕ
  pub timeline : List (ℕ × ℕ)

unfoldable pub empty_cache : Deduplicator
empty_cache = record { seen = []; timeline = [] }

unfoldable pub has_seen : ℕ → List ℕ → Bool
has_seen k [] = false
has_seen k (x ∷ xs) = eqb x k || has_seen k xs

unfoldable pub forget_key : ℕ → List ℕ → List ℕ
forget_key k xs = keep (λ x. not (eqb x k)) xs

-- The `while` loop of `evict`.
unfoldable pub evict_front : ℕ → List ℕ → List (ℕ × ℕ) → Deduplicator
evict_front now seen [] = record { seen = seen; timeline = [] }
evict_front now seen ((t, key) ∷ timeline) =
    if ltb (now - t) ttl
    then record { seen = seen; timeline = (t, key) ∷ timeline }
    else evict_front now (forget_key key seen) timeline

unfoldable pub evict : Deduplicator → ℕ → Deduplicator
unfolding evict_front
evict s now = evict_front now s.seen s.timeline

-- The front of a timeline that has grown too long.
unfoldable pub trim : Deduplicator → List (ℕ × ℕ) → Deduplicator
trim s [] = s
trim s ((t, old) ∷ rest) =
    if ltb max_cache (length s.timeline)
    then record { seen = forget_key old s.seen; timeline = rest }
    else s

-- What `is_fresh` and `is_fresh_scoped` do with their key.
unfoldable pub admit_key : Deduplicator → ℕ → ℕ → Deduplicator × Bool
admit_key s now key =
    let e = evict s now in
    let added : Deduplicator = record {
      seen = e.seen ++ (key ∷ []);
      timeline = e.timeline ++ ((now, key) ∷ []);
    } in
    if has_seen key e.seen then (e, false) else (trim added added.timeline, true)

-- Byte `i` set to 0, where there is one.
unfoldable pub zero_at : ℕ → List ℕ → List ℕ
zero_at i [] = []
zero_at zero (x ∷ xs) = 0 ∷ xs
zero_at (suc i) (x ∷ xs) = x ∷ zero_at i xs

-- The parts of a packet that go into its key: a header without its hop count and checksum, up to 128 bytes of
-- what follows, the end of a longer packet, and the length.
unfoldable pub key_parts : List ℕ → List (List ℕ)
unfolding zero_at
key_parts packet =
    let prefix = min (length packet) 128 in
    let front = take prefix packet in
    let short = if ltb 8 prefix then zero_at 8 front else front in
    let head =
      if leb 20 prefix
      then zero_at 11 (zero_at 10 (zero_at 8 (take 20 packet)))
      else if ltb 11 prefix
      then zero_at 11 (zero_at 10 short)
      else short in
    let body = if ltb 20 prefix then drop 20 front ∷ [] else [] in
    let tail = if ltb 128 (length packet) then drop (length packet - 32) packet ∷ [] else [] in
    head ∷ body ++ (tail ++ ((length packet ∷ []) ∷ []))

abbrev pub rotate_left_u64 : ℕ → ℕ → ℕ
rotate_left_u64 x k = x * 2 ^ k % 2 ^ 64 + x / 2 ^ (64 - k)

-- The labels `mint-bcast-key-a` and `mint-bcast-key-b`.
abbrev pub label_key : ℕ → List ℕ
label_key last =
    109 ∷ 105 ∷ 110 ∷ 116 ∷ 45 ∷ 98 ∷ 99 ∷ 97 ∷ 115 ∷ 116 ∷ 45 ∷ 107 ∷ 101 ∷ 121 ∷ 45 ∷ last ∷ []

abbrev pub rotate_left_u128 : ℕ → ℕ → ℕ
rotate_left_u128 x k = x * 2 ^ k % 2 ^ 128 + x / 2 ^ (128 - k)

-- The exclusive or of two words, by their binary digits.
unfoldable pub xor_digits : ℕ → ℕ → ℕ → ℕ
xor_digits zero x y = 0
xor_digits (suc n) x y = (x + y) % 2 + 2 * xor_digits n (x / 2) (y / 2)

-- The label `mint-bcast-scope`.
abbrev pub label_scope : List ℕ
label_scope =
    109 ∷ 105 ∷ 110 ∷ 116 ∷ 45 ∷ 98 ∷ 99 ∷ 97 ∷ 115 ∷ 116 ∷ 45 ∷ 115 ∷ 99 ∷ 111 ∷ 112 ∷ 101 ∷ []

module _ (hash : List ℕ → List (List ℕ) → ℕ) where
  unfoldable pub make_key : List ℕ → ℕ
  unfolding key_parts
  make_key packet =
      hash (label_key 97) (key_parts packet) * 2 ^ 64
      + rotate_left_u64 (hash (label_key 98) (key_parts packet)) 13

  unfoldable pub is_fresh_packet : Deduplicator → ℕ → List ℕ → Deduplicator × Bool
  unfolding admit_key make_key
  is_fresh_packet s now packet = admit_key s now (make_key packet)

  unfoldable pub make_scoped_key : List ℕ → List ℕ → ℕ
  make_scoped_key scope packet =
      let mixed = hash label_scope (scope ∷ []) * 0x9e3779b185ebca87 % 2 ^ 64 in
      xor_digits 128 (rotate_left_u128 (make_key packet) 29)
        (mixed * 2 ^ 64 + rotate_left_u64 mixed 17)

  unfoldable pub is_fresh_scoped : Deduplicator → ℕ → List ℕ → List ℕ → Deduplicator × Bool
  is_fresh_scoped s now scope packet = admit_key s now (make_scoped_key scope packet)
