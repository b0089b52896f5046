-- ===== src/Libs/Lru/Laws.antt =====
-- The cache against a list of keys and values, most recent first.
use rv64_emulator.Common.{◌%◌, ◌^◌, ℕ, ◌+◌, ◌≡◌, refl, sym, ◌∙◌, inl, inr}
use rv64_emulator.Common.{List, ◌∷◌, none, some, Option-cases}
use rv64_emulator.Libs.Lru.{Node, LruCache, get, view, assign}
use rv64_emulator.Libs.Lru.Nodes.{lookup, remove, Taken, take_out-Taken}
use rv64_emulator.Libs.Lru.Valid.{IsValid, lookup-entries-none, to_front}

module _ {V : Type 0} where
  -- What a read leaves of the list.
  abbrev pub touched : ℕ → List (ℕ × V) → List (ℕ × V)
  touched k es = elim (lookup k es) [ none ↦ es | some v ↦ (k, v) ∷ remove k es ]

  -- A read of `key` that gives `c'`.
  abbrev pub Reads : LruCache V → ℕ → LruCache V → Type 0
  Reads c key c' =
      (get c key ≡ some (lookup key (view c), c')) × (view c' ≡ touched key (view c)) × IsValid c'

  get_missed :
      (c : LruCache V) (key : ℕ)
      → IsValid c
      → c.cache key ≡ none
      → lookup key (view c) ≡ none
      → Reads c key (record c { miss_count = (c.miss_count + 1) % 2 ^ 64 })
  unfolding get
  get_missed c key valid q absent = (
    rw (get, q, absent) refl,
    rw (touched, absent) refl,
    record {
      distinct = valid.distinct;
      index = valid.index;
      size = valid.size;
      bound = valid.bound;
      next = valid.next;
    },
  )

  get_found :
      (c : LruCache V) (key i : ℕ) (n : Node V) (rest : List (Node V))
      → IsValid c
      → c.cache key ≡ some i
      → Taken key i c.kv_node n rest
      → Reads c key (record c {
        hit_count = (c.hit_count + 1) % 2 ^ 64;
        kv_node = n ∷ rest;
        cache = assign c.cache key (some n.id);
      })
  unfolding get
  get_found c key i n rest valid q t = (
    rw (get, q, t.taken, t.value) refl,
    rw (touched, t.value, t.others, t.its_key) refl,
    to_front c key i n rest n.val ((c.hit_count + 1) % 2 ^ 64) valid t,
  )

  -- Get on a valid cache returns the value of the key, if it is there, makes it the most recent, and
  -- keeps the cache valid.
  pub get_refines : (c : LruCache V) (key : ℕ) → IsValid c → (c' : LruCache V) × Reads c key c'
  get_refines c key valid = elim (Option-cases (c.cache key)) [
    | inl q ↦ (
      _,
      get_missed c key valid q (lookup-entries-none key c.kv_node (sym (valid.index key) ∙ q)),
    )
    | inr (i, q) ↦
        let (n, rest, t) =
          take_out-Taken key i c.kv_node valid.distinct (sym (valid.index key) ∙ q) in
        (_, get_found c key i n rest valid q t)
  ]
