-- ===== src/Libs/Lru.antt =====
-- `class LRUCache`: include/libs/lru.hpp, over any type of value. A node of the list has an identity,
-- which is what an iterator to it is; no node is freed but by Reset, which empties the index too.
-- `none` is undefined behaviour: an iterator to no node, or the back of an empty list.
pub mod Nodes
pub mod Valid
pub mod Laws
pub mod Writes
use rv64_emulator.Common.{◌%◌, ◌^◌, ℕ, suc, ◌+◌, ltb, ◌==◌, if◌then◌else◌, map}
use rv64_emulator.Common.{List, [], ◌∷◌, Option, none, some}

-- What `std::list<std::pair<TKey, TVal>>::iterator` points to.
pub record Node (V : Type 0) : Type 0 where
  pub id : ℕ
  pub key : ℕ
  pub val : V

-- `cache_` is a function from keys to identities; `next_id` is the identity of the next node.
pub record LruCache (V : Type 0) : Type 0 where
  pub capacity : ℕ
  pub cur_size : ℕ
  pub hit_count : ℕ
  pub miss_count : ℕ
  pub kv_node : List (Node V)
  pub cache : ℕ → Option ℕ
  pub next_id : ℕ

-- `cache_[key] = it`, and `cache_.erase(key)` where there is no `it`.
abbrev pub assign : (ℕ → Option ℕ) → ℕ → Option ℕ → ℕ → Option ℕ
assign cache key o k = if k == key then o else cache k

-- `cache_.emplace(key, it)`, which does nothing where the key is there.
abbrev pub emplace : (ℕ → Option ℕ) → ℕ → ℕ → ℕ → Option ℕ
emplace cache key i = elim (cache key) [ none ↦ assign cache key (some i) | some j ↦ cache ]

module _ {V : Type 0} where
  -- A node taken out of the list.
  abbrev pub take_out : ℕ → List (Node V) → Option (Node V × List (Node V))
  take_out i [] = none
  take_out i (n ∷ ns) =
      let rest = take_out i ns in
      if n.id == i
      then some (n, ns)
      else elim rest [ none ↦ none | some (m, ms) ↦ some (m, n ∷ ms) ]

  -- The last node, taken out.
  abbrev pub take_back : List (Node V) → Option (Node V × List (Node V))
  take_back [] = none
  take_back (n ∷ ns) = elim (take_back ns) [ none ↦ some (n, []) | some (m, ms) ↦ some (m, n ∷ ms) ]

  abbrev pub with_val : Node V → V → Node V
  with_val n v = record n { val = v }

  -- LRUCache::LRUCache
  unfoldable pub new_cache : ℕ → LruCache V
  new_cache capacity = record {
    capacity = capacity;
    cur_size = 0;
    hit_count = 0;
    miss_count = 0;
    kv_node = [];
    cache = λ k. none;
    next_id = 0;
  }

  -- LRUCache::Get, with the value in place of `true` and `*ret_val`.
  unfoldable pub get : LruCache V → ℕ → Option (Option V × LruCache V)
  get c key = elim (c.cache key) [
    | none ↦ some (none, record c { miss_count = (c.miss_count + 1) % 2 ^ 64 })
    | some i ↦ elim (take_out i c.kv_node) [
      | none ↦ none
      | some (n, ns) ↦ some (
        some n.val,
        record c {
          hit_count = (c.hit_count + 1) % 2 ^ 64;
          kv_node = n ∷ ns;
          cache = assign c.cache key (some n.id);
        },
      )
    ]
  ]

  -- The branches of Set on a key that is there: the node comes to the front and takes the value.
  unfoldable pub renew : LruCache V → ℕ → V → ℕ → Option (LruCache V)
  renew c key value i = elim (take_out i c.kv_node) [
    | none ↦ none
    | some (n, ns) ↦
        some (record c { kv_node = with_val n value ∷ ns; cache = assign c.cache key (some n.id) })
  ]

  -- The branch on a new key where there is room.
  unfoldable pub insert : LruCache V → ℕ → V → LruCache V
  insert c key value = record c {
    kv_node = record { id = c.next_id; key = key; val = value } ∷ c.kv_node;
    cur_size = c.cur_size + 1;
    cache = emplace c.cache key c.next_id;
    next_id = suc c.next_id;
  }

  -- The end of Set: the last node is given to the key.
  unfoldable pub replace_back : LruCache V → ℕ → V → Option (LruCache V)
  replace_back c key value = elim (take_back c.kv_node) [
    | none ↦ none
    | some (n, ns) ↦ some (record c {
      kv_node = record { id = n.id; key = key; val = value } ∷ ns;
      cache = emplace (assign c.cache n.key none) key n.id;
    })
  ]

  -- LRUCache::Set
  unfoldable pub set : LruCache V → ℕ → V → Option (LruCache V)
  unfolding renew insert replace_back
  set c key value =
      if ltb c.cur_size c.capacity
      then elim (c.cache key) [ none ↦ some (insert c key value) | some i ↦ renew c key value i ]
      else elim (c.cache key) [
        | none ↦ replace_back c key value
        | some i ↦ elim (renew c key value i) [ none ↦ none | some c' ↦ replace_back c' key value ]
      ]

  -- LRUCache::View
  abbrev pub view : LruCache V → List (ℕ × V)
  view c = map (λ n. (n.key, n.val)) c.kv_node

  -- LRUCache::Reset
  unfoldable pub reset : LruCache V → LruCache V
  reset c = record c {
    cur_size = 0;
    hit_count = 0;
    miss_count = 0;
    kv_node = [];
    cache = λ k. none;
  }
