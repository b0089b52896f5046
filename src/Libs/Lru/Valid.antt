-- ===== src/Libs/Lru/Valid.antt =====
-- What holds of a cache between its operations.
use rv64_emulator.Common.{ℕ, zero, suc, ◌≤◌, ◌≡◌, ◌≢◌, refl, sym, ap, ◌∙◌, arith, inl, inr}
use rv64_emulator.Common.{Bool-cases, ◌==◌, ==_iff, ==_self, if◌then◌else◌}
use rv64_emulator.Common.{List, [], ◌∷◌, length, take, none, some}
use rv64_emulator.Libs.Lru.{Node, LruCache, assign, with_val}
use rv64_emulator.Libs.Lru.Nodes.{lookup, remove, entries, find_id, NoId, Distinct, Taken}

pub take_all : {A : Type 0} (n : ℕ) (l : List A) → length l ≤ n → take n l ≡ l
take_all zero [] h = refl
take_all zero (x ∷ l) h = absurd (omega arith)
take_all (suc n) [] h = refl
take_all (suc n) (x ∷ l) h = ap (x ∷◌) (take_all n l (omega arith))

module _ {V : Type 0} where
  -- The index finds the nodes, which differ in identity and key, and the size is their number, not
  -- above the capacity; the next identity is new.
  pub record IsValid (c : LruCache V) : Type 0 where
    pub distinct : Distinct c.kv_node
    pub index : (k : ℕ) → c.cache k ≡ find_id k c.kv_node
    pub size : length c.kv_node ≡ c.cur_size
    pub bound : c.cur_size ≤ c.capacity
    pub next : (j : ℕ) → c.next_id ≤ j → NoId j c.kv_node

  pub lookup-entries-none :
      (k : ℕ) (ns : List (Node V)) → find_id k ns ≡ none → lookup k (entries ns) ≡ none
  lookup-entries-none k [] e = refl
  lookup-entries-none k (n ∷ ns) e = elim (Bool-cases (n.key == k)) [
    | inl y ↦ ground arith
    | inr y ↦
        rw y
          (lookup-entries-none k ns (ap (λ b. if b then some n.id else find_id k ns) (sym y) ∙ e))
  ]

  pub lookup-entries-some :
      (k i : ℕ) (ns : List (Node V)) → find_id k ns ≡ some i → lookup k (entries ns) ≢ none
  lookup-entries-some k i [] e q = cc
  lookup-entries-some k i (n ∷ ns) e q = elim (Bool-cases (n.key == k)) [
    | inl y ↦ ground arith
    | inr y ↦ ground (arith, lookup-entries-some k i ns)
  ]

  pub remove_absent : (k : ℕ) (es : List (ℕ × V)) → lookup k es ≡ none → remove k es ≡ es
  remove_absent k [] e = refl
  remove_absent k ((j, v) ∷ es) e = elim (Bool-cases (j == k)) [
    | inl y ↦ ground arith
    | inr y ↦ rw y (
        ap ((j, v) ∷◌)
          (remove_absent k es (ap (λ b. if b then some v else lookup k es) (sym y) ∙ e)))
  ]

  pub length-entries : (ns : List (Node V)) → length (entries ns) ≡ length ns
  length-entries [] = refl
  length-entries (n ∷ ns) = ap suc (length-entries ns)

  -- The node of a key, brought to the front, with any value.
  pub to_front :
      (c : LruCache V) (k i : ℕ) (n : Node V) (rest : List (Node V)) (v : V) (hits : ℕ)
      → IsValid c
      → Taken k i c.kv_node n rest
      → IsValid (record c {
        hit_count = hits;
        kv_node = with_val n v ∷ rest;
        cache = assign c.cache k (some n.id);
      })
  to_front c k i n rest v hits valid t = record {
    distinct = t.distinct;
    index = λ j. renewed j;
    size = t.size ∙ valid.size;
    bound = valid.bound;
    next = λ j h. t.no_ids j (valid.next j h);
  }
    where
      renewed : (j : ℕ) → assign c.cache k (some n.id) j ≡ find_id j (with_val n v ∷ rest)
      renewed j = elim (Bool-cases (j == k)) [
        | inl y ↦
            let same : n.key ≡ j = t.its_key ∙ sym ((==_iff j k).0 y) in
            rw (y, same, ==_self j) refl
        | inr y ↦ rw y (valid.index j ∙ sym (t.same_ids j))
      ]
