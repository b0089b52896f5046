-- ===== src/Tests/Containers.antt =====
-- Runs of a cache of two entries, which is full.
use rv64_emulator.Common.{ℕ, ◌≡◌, refl, arith, inr, some, none, if◌then◌else◌, ◌==◌, [], ◌∷◌}
use rv64_emulator.Libs.Lru.{LruCache, Node, set, view}
use rv64_emulator.Libs.Lru.Valid.{IsValid}
use rv64_emulator.Libs.Lru.Laws.{Reads, get_refines}
use rv64_emulator.Libs.Lru.Writes.{Writes, set_refines, set_doubles}

abbrev node : ℕ → ℕ → ℕ → Node ℕ
node id key val = record { id = id; key = key; val = val }

abbrev full : LruCache ℕ
full = record {
  capacity = 2;
  cur_size = 2;
  hit_count = 0;
  miss_count = 0;
  kv_node = node 0 7 70 ∷ node 1 8 80 ∷ [];
  cache = λ k. if k == 7 then some 0 else if k == 8 then some 1 else none;
  next_id = 2;
}

full-IsValid : IsValid full
full-IsValid = record {
  distinct = ((omega arith, tt), refl, (tt, refl, tt));
  index = λ k. ground arith;
  size = refl;
  bound = omega arith;
  next = λ j h. (omega arith, (omega arith, tt));
}

get_refines_example : (c' : LruCache ℕ) × Reads full 8 c'
get_refines_example = get_refines full 8 full-IsValid

set_refines_example : (c' : LruCache ℕ) × Writes full 9 90 c'
set_refines_example = set_refines full 9 90 full-IsValid (omega arith) (inr refl)

set_doubles_example :
    (c' : LruCache ℕ) × (set full 8 81 ≡ some c') × (view c' ≡ (8, 81) ∷ (8, 81) ∷ [])
set_doubles_example = set_doubles full 8 81 full-IsValid refl (λ e. cc)
