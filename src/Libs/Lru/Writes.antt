-- ===== src/Libs/Lru/Writes.antt =====
-- A write of a key that is new, or where there is room, against the list of keys and values.
use rv64_emulator.Common.{ℕ, suc, ◌<◌, ◌≡◌, ◌≢◌, refl, sym, ap, ◌∙◌, arith, ◌⊎◌, inl, inr}
use rv64_emulator.Common.{false, Bool-cases, ◌==◌, ltb, ltb→lt, lt→ltb, if◌then◌else◌}
use rv64_emulator.Common.{List, [], ◌∷◌, length, take, Option, none, some, Option-cases}
use rv64_emulator.Libs.Lru.{
  Node, LruCache, renew, insert, replace_back, set, view, assign, emplace, with_val,
}
use rv64_emulator.Libs.Lru.Nodes.{
  lookup, remove, entries, find_id, Distinct, Taken, take_out-Taken, Backed, take_back-Backed,
}
use rv64_emulator.Libs.Lru.Valid.{
  IsValid, take_all, lookup-entries-none, lookup-entries-some, remove_absent, length-entries,
  to_front,
}

module _ {V : Type 0} where
  -- What a write leaves: the key first, then the others that the capacity allows.
  abbrev pub written : ℕ → ℕ → V → List (ℕ × V) → List (ℕ × V)
  written capacity k v es = take capacity ((k, v) ∷ remove k es)

  -- A write of `key` that gives `c'`.
  abbrev pub Writes : LruCache V → ℕ → V → LruCache V → Type 0
  Writes c key value c' =
      (set c key value ≡ some c') × (view c' ≡ written c.capacity key value (view c)) × IsValid c'

  set_renewed :
      (c : LruCache V) (key i : ℕ) (value : V) (n : Node V) (rest : List (Node V))
      → IsValid c
      → c.cur_size < c.capacity
      → c.cache key ≡ some i
      → Taken key i c.kv_node n rest
      → Writes c key value
          (record c { kv_node = with_val n value ∷ rest; cache = assign c.cache key (some n.id) })
  unfolding set renew
  set_renewed c key i value n rest valid room q t = (
    rw (set, lt→ltb _ _ room, q, renew, t.taken) refl,
    ap ((n.key, value) ∷◌) t.others
        ∙ (ap (λ k. (k, value) ∷ remove key (view c)) t.its_key
            ∙ sym (
                take_all c.capacity ((key, value) ∷ remove key (view c)) (
                  omega
                    (arith, ap length t.others, length-entries rest, t.size, valid.size, room)))),
    to_front c key i n rest value c.hit_count valid t,
  )

  emplaced :
      (cache : ℕ → Option ℕ) (key i j : ℕ) (ns : List (Node V))
      → cache key ≡ none
      → ((k : ℕ) → cache k ≡ find_id k ns)
      → emplace cache key i j ≡ (if key == j then some i else find_id j ns)
  emplaced cache key i j ns q same = rw (emplace, q) (ground (arith, same j))

  not_below : (c : LruCache V) → c.cur_size ≡ c.capacity → ltb c.cur_size c.capacity ≡ false
  not_below c e = ground arith

  set_inserted :
      (c : LruCache V) (key : ℕ) (value : V)
      → IsValid c
      → c.cur_size < c.capacity
      → c.cache key ≡ none
      → Writes c key value (insert c key value)
  unfolding set insert
  set_inserted c key value valid room q =
      let absent = lookup-entries-none key c.kv_node (sym (valid.index key) ∙ q) in
      (
        rw (set, lt→ltb _ _ room, q) refl,
        sym (
            ap (λ es. take c.capacity ((key, value) ∷ es)) (remove_absent key (view c) absent)
            ∙ take_all c.capacity ((key, value) ∷ view c)
                (omega (arith, length-entries c.kv_node, valid.size, room))),
        record {
          distinct =
              (valid.next c.next_id (omega arith), sym (valid.index key) ∙ q, valid.distinct);
          index = λ j. emplaced c.cache key c.next_id j c.kv_node q valid.index;
          size = omega (arith, valid.size);
          bound = omega (arith, room);
          next = λ j h. ((λ e. omega (arith, e)), valid.next j (omega arith));
        },
      )

  set_evicting :
      (c : LruCache V) (key : ℕ) (value : V) (n : Node V) (init : List (Node V))
      → IsValid c
      → c.cur_size ≡ c.capacity
      → c.cache key ≡ none
      → Backed c.kv_node n init
      → Writes c key value (record c {
        kv_node = record { id = n.id; key = key; val = value } ∷ init;
        cache = emplace (assign c.cache n.key none) key n.id;
      })
  unfolding set replace_back
  set_evicting c key value n init valid full q b =
      let absent = lookup-entries-none key c.kv_node (sym (valid.index key) ∙ q) in
      let whole : c.capacity ≡ suc (length init) = omega (arith, b.size, valid.size, full) in
      let absent_key : find_id key init ≡ none =
        ground (arith, b.ids key, sym (valid.index key) ∙ q) in
      let freed : ℕ → Option ℕ = assign c.cache n.key none in
      let left : (j : ℕ) → freed j ≡ find_id j init = λ j. ground (arith, b.ids j, valid.index j) in
      (
        rw (set, not_below c full, q, replace_back, b.taken) refl,
        ap ((key, value) ∷◌)
              (b.others ∙ ap (take (length init)) (sym (remove_absent key (view c) absent)))
            ∙ ap (λ m. take m ((key, value) ∷ remove key (view c))) (sym whole),
        record {
          distinct = (b.distinct.0, absent_key, b.distinct.1);
          index = λ j. emplaced freed key n.id j init (left key ∙ absent_key) left;
          size = b.size ∙ valid.size;
          bound = valid.bound;
          next = λ j h. b.no_ids j (valid.next j h);
        },
      )

  last_of :
      (ns : List (Node V))
      → Distinct ns
      → 0 < length ns
      → (n : Node V) × (init : List (Node V)) × Backed ns n init
  last_of [] d h = absurd (omega arith)
  last_of (n ∷ ns) d h = take_back-Backed n ns d

  doubled :
      (c : LruCache V) (key i : ℕ) (value : V) (n m : Node V) (rest init : List (Node V))
      → IsValid c
      → c.cur_size ≡ c.capacity
      → c.cache key ≡ some i
      → Taken key i c.kv_node n rest
      → Backed (with_val n value ∷ rest) m init
      → let c' : LruCache V = record c {
        kv_node = record { id = m.id; key = key; val = value } ∷ init;
        cache = emplace (assign (assign c.cache key (some n.id)) m.key none) key m.id;
      } in
        (set c key value ≡ some c')
        × (view c' ≡ take c.capacity ((key, value) ∷ (key, value) ∷ remove key (view c)))
  unfolding set renew replace_back
  doubled c key i value n m rest init valid full q t b =
      let whole : c.capacity ≡ suc (length init) =
        omega (arith, b.size, t.size, valid.size, full) in
      let first : entries (with_val n value ∷ rest) ≡ (key, value) ∷ remove key (view c) =
        ap ((n.key, value) ∷◌) t.others ∙ ap (λ k. (k, value) ∷ remove key (view c)) t.its_key in
      (
        rw (set, not_below c full, q, renew, t.taken, replace_back, b.taken) refl,
        ap ((key, value) ∷◌) (b.others ∙ ap (take (length init)) first)
            ∙ ap (λ l. take l ((key, value) ∷ (key, value) ∷ remove key (view c))) (sym whole),
      )

  -- Set on a valid cache of a positive capacity, of a key that is new or where there is room: the key
  -- and its value come first, where the capacity is reached the least recent entry is dropped, and
  -- the cache stays valid.
  pub set_refines :
      (c : LruCache V) (key : ℕ) (value : V)
      → IsValid c
      → 0 < c.capacity
      → (c.cur_size < c.capacity) ⊎ (lookup key (view c) ≡ none)
      → (c' : LruCache V) × Writes c key value c'
  set_refines c key value valid positive h = elim (Option-cases (c.cache key)) [
    | inl q ↦ elim (Bool-cases (ltb c.cur_size c.capacity)) [
      | inl y ↦ (_, set_inserted c key value valid (ltb→lt _ _ y) q)
      | inr y ↦
          let full : c.cur_size ≡ c.capacity = ground (arith, valid.bound) in
          let (n, init, b) =
            last_of c.kv_node valid.distinct (omega (arith, valid.size, positive, full)) in
          (_, set_evicting c key value n init valid full q b)
    ]
    | inr (i, q) ↦
        let found = sym (valid.index key) ∙ q in
        let (n, rest, t) = take_out-Taken key i c.kv_node valid.distinct found in
        elim h [
          | inl room ↦ (_, set_renewed c key i value n rest valid room q t)
          | inr absent ↦ absurd (lookup-entries-some key i c.kv_node found absent)
        ]
  ]

  -- Set of a key that is there, in a valid cache that is full, goes on to replace the last entry: from a
  -- capacity of two on the key stands twice, and of the other entries the least recent is dropped.
  pub set_doubles :
      (c : LruCache V) (key : ℕ) (value : V)
      → IsValid c
      → c.cur_size ≡ c.capacity
      → lookup key (view c) ≢ none
      → (c' : LruCache V) × (set c key value ≡ some c')
        × (view c' ≡ take c.capacity ((key, value) ∷ (key, value) ∷ remove key (view c)))
  set_doubles c key value valid full present = elim (Option-cases (c.cache key)) [
    | inl q ↦ absurd (present (lookup-entries-none key c.kv_node (sym (valid.index key) ∙ q)))
    | inr (i, q) ↦
        let (n, rest, t) =
          take_out-Taken key i c.kv_node valid.distinct (sym (valid.index key) ∙ q) in
        let (m, init, b) = take_back-Backed (with_val n value) rest t.distinct in
        let (is_set, seen) = doubled c key i value n m rest init valid full q t b in
        (_, is_set, seen)
  ]
