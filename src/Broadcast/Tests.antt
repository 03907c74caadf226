-- ===== src/Broadcast/Tests.antt =====
-- Runs of the deduplicator (src/bcast.rs) and instances of the theorems about it.
use mint_connect_unit.Broadcast.Dedup.{
  Deduplicator, admit_key, evict, evict_front, forget_key, has_seen, is_fresh_scoped, key_parts,
  make_key, make_scoped_key, trim, xor_digits, zero_at,
}
use mint_connect_unit.Broadcast.Stale.{Agree, admit_key-Agree, fresh_part, key_list, repeat_refused}
use mint_connect_unit.Prelude.{[], arith, false, length, not, refl, true, ◌+◌, ◌∷◌, ◌≡◌}

abbrev one_entry : Deduplicator
one_entry = record { seen = 7 ∷ []; timeline = (100, 7) ∷ [] }

one_entry-Agree : Agree one_entry
unfolding has_seen
one_entry-Agree = record { same_keys = refl; distinct = (refl, tt); bound = omega arith }

-- An entry of two seconds is forgotten.
forgotten : ((admit_key one_entry 2099 7).1 ≡ false) × ((admit_key one_entry 2100 7).1 ≡ true)
unfolding admit_key evict evict_front has_seen forget_key
forgotten = (refl, refl)

-- The hop count of a packet is not part of its key.
same_parts :
    key_parts (69 ∷ 0 ∷ 0 ∷ 20 ∷ 0 ∷ 0 ∷ 0 ∷ 0 ∷ 64 ∷ 17 ∷ [])
    ≡ key_parts (69 ∷ 0 ∷ 0 ∷ 20 ∷ 0 ∷ 0 ∷ 0 ∷ 0 ∷ 63 ∷ 17 ∷ [])
unfolding key_parts zero_at
same_parts = refl

admit_key-Agree_example :
    Agree (admit_key one_entry 200 8).0
    × ((admit_key one_entry 200 8).1 ≡ not (has_seen 8 (key_list (fresh_part 200 ((100, 7) ∷ [])))))
admit_key-Agree_example = admit_key-Agree one_entry 200 8 one_entry-Agree

repeat_refused_example : (admit_key (admit_key one_entry 200 8).0 2000 8).1 ≡ false
unfolding admit_key evict evict_front has_seen
repeat_refused_example = repeat_refused one_entry 200 2000 8 one_entry-Agree refl (omega arith)

-- The exclusive or of two bytes, and a packet of a scope that is fresh.
scoped_keys :
    (xor_digits 8 0b1100 0b1010 ≡ 0b0110)
    × ((is_fresh_scoped
          (λ label parts. length label + length parts)
          one_entry
          200
          (1 ∷ [])
          (69 ∷ [])).1
        ≡ true)
unfolding xor_digits is_fresh_scoped make_scoped_key make_key key_parts admit_key evict evict_front
    has_seen forget_key trim zero_at
scoped_keys = (refl, refl)
