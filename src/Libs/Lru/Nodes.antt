-- ===== src/Libs/Lru/Nodes.antt =====
-- The list of nodes, and the list of keys and values that a user of the cache sees of it.
use rv64_emulator.Common.{ℕ, suc, ◌≡◌, ◌≢◌, refl, sym, ap, ◌∙◌, arith, inl, inr, map}
use rv64_emulator.Common.{true, false, Bool-cases, ◌==◌, ==_iff, ==_ne, ==_self, if◌then◌else◌}
use rv64_emulator.Common.{List, [], ◌∷◌, length, take, Option, none, some}
use rv64_emulator.Libs.Lru.{Node, take_out, take_back}

some_injective : {i j : ℕ} → some i ≡ some j → i ≡ j
some_injective e = cc

module _ {V : Type 0} where
  -- Keys and values, most recent first: the value of a key, and the others.
  abbrev pub lookup : ℕ → List (ℕ × V) → Option V
  lookup k [] = none
  lookup k ((j, v) ∷ es) = if j == k then some v else lookup k es

  abbrev pub remove : ℕ → List (ℕ × V) → List (ℕ × V)
  remove k [] = []
  remove k ((j, v) ∷ es) = if j == k then es else (j, v) ∷ remove k es

  abbrev pub entries : List (Node V) → List (ℕ × V)
  entries ns = map (λ n. (n.key, n.val)) ns

  -- The node of a key.
  abbrev pub find_id : ℕ → List (Node V) → Option ℕ
  find_id k [] = none
  find_id k (n ∷ ns) = if n.key == k then some n.id else find_id k ns

  -- No node has the identity, or the key; all differ in both.
  abbrev pub NoId : ℕ → List (Node V) → Type 0
  NoId i [] = Unit
  NoId i (n ∷ ns) = (n.id ≢ i) × NoId i ns

  abbrev pub NoKey : ℕ → List (Node V) → Type 0
  NoKey k ns = find_id k ns ≡ none

  abbrev pub Distinct : List (Node V) → Type 0
  Distinct [] = Unit
  Distinct (n ∷ ns) = NoId n.id ns × NoKey n.key ns × Distinct ns

  -- The node of a key, taken out.
  pub record Taken (k i : ℕ) (ns : List (Node V)) (n : Node V) (rest : List (Node V)) : Type 0 where
    pub taken : take_out i ns ≡ some (n, rest)
    pub its_key : n.key ≡ k
    pub its_id : n.id ≡ i
    pub others : entries rest ≡ remove k (entries ns)
    pub value : lookup k (entries ns) ≡ some n.val
    pub size : suc (length rest) ≡ length ns
    pub same_ids : (j : ℕ) → find_id j (n ∷ rest) ≡ find_id j ns
    pub no_ids : (j : ℕ) → NoId j ns → NoId j (n ∷ rest)
    pub distinct : Distinct (n ∷ rest)

  find_id-NoId : (k i : ℕ) (ns : List (Node V)) → NoId i ns → find_id k ns ≢ some i
  find_id-NoId k i [] h e = cc
  find_id-NoId k i (n ∷ ns) h e = elim (Bool-cases (n.key == k)) [
    | inl y ↦ h.0 (some_injective (ap (λ b. if b then some n.id else find_id k ns) (sym y) ∙ e))
    | inr y ↦ find_id-NoId k i ns h.1 (ap (λ b. if b then some n.id else find_id k ns) (sym y) ∙ e)
  ]

  -- The first node has the key.
  here :
      (k i : ℕ) (n : Node V) (ns : List (Node V))
      → Distinct (n ∷ ns)
      → (n.key == k) ≡ true
      → n.id ≡ i
      → Taken k i (n ∷ ns) n ns
  here k i n ns d y q = record {
    taken = rw (q, ==_self i) refl;
    its_key = (==_iff n.key k).0 y;
    its_id = q;
    others = rw y refl;
    value = rw y refl;
    size = refl;
    same_ids = λ j. refl;
    no_ids = λ j h. h;
    distinct = d;
  }

  -- It has not, and the node is further down.
  further :
      (k i : ℕ) (n m : Node V) (ns rest : List (Node V))
      → Distinct (n ∷ ns)
      → (n.key == k) ≡ false
      → n.id ≢ i
      → Taken k i ns m rest
      → Taken k i (n ∷ ns) m (n ∷ rest)
  further k i n m ns rest d y ne t =
      let apart : m.key ≢ n.key = λ q. ground (arith, t.its_key) in
      let apart_id : n.id ≢ m.id = λ q. ne (q ∙ t.its_id) in
      record {
        taken = rw (==_ne n.id i ne, t.taken) refl;
        its_key = t.its_key;
        its_id = t.its_id;
        others = rw (y, t.others) refl;
        value = rw y t.value;
        size = ap suc t.size;
        same_ids = λ j. ground (arith, t.same_ids j);
        no_ids = λ j h. ((t.no_ids j h.1).0, (h.0, (t.no_ids j h.1).1));
        distinct = (
          (apart_id, t.distinct.0),
          rw (==_ne n.key m.key (λ q. apart (sym q))) t.distinct.1,
          ((t.no_ids n.id d.0).1, ground (arith, t.same_ids n.key, d.1), t.distinct.2),
        );
      }

  pub take_out-Taken :
      (k i : ℕ) (ns : List (Node V))
      → Distinct ns
      → find_id k ns ≡ some i
      → (n : Node V) × (rest : List (Node V)) × Taken k i ns n rest
  take_out-Taken k i [] d e = cc
  take_out-Taken k i (n ∷ ns) d e = elim (Bool-cases (n.key == k)) [
    | inl y ↦ (
      n,
      ns,
      here k i n ns d y
          (some_injective (ap (λ b. if b then some n.id else find_id k ns) (sym y) ∙ e)),
    )
    | inr y ↦
        let e' : find_id k ns ≡ some i =
          ap (λ b. if b then some n.id else find_id k ns) (sym y) ∙ e in
        let (m, rest, t) = take_out-Taken k i ns d.2 e' in
        (
          m,
          n ∷ rest,
          further k i n m ns rest d y (λ q. find_id-NoId k n.id ns d.0 (e' ∙ ap some (sym q))) t,
        )
  ]

  -- The last node, taken out.
  pub record Backed (ns : List (Node V)) (n : Node V) (init : List (Node V)) : Type 0 where
    pub taken : take_back ns ≡ some (n, init)
    pub others : entries init ≡ take (length init) (entries ns)
    pub size : suc (length init) ≡ length ns
    pub back : find_id n.key ns ≡ some n.id
    pub ids : (k : ℕ) → find_id k init ≡ (if k == n.key then none else find_id k ns)
    pub no_ids : (j : ℕ) → NoId j ns → (n.id ≢ j) × NoId j init
    pub distinct : NoId n.id init × Distinct init

  pub take_back-Backed :
      (m : Node V) (ns : List (Node V))
      → Distinct (m ∷ ns)
      → (n : Node V) × (init : List (Node V)) × Backed (m ∷ ns) n init
  take_back-Backed m [] d = (
    m,
    [],
    record {
      taken = refl;
      others = refl;
      size = refl;
      back = rw (==_self m.key) refl;
      ids = λ k. ground arith;
      no_ids = λ j h. h;
      distinct = (tt, tt);
    },
  )
  take_back-Backed m (a ∷ ns) d =
      let (n, init, b) = take_back-Backed a ns d.2 in
      let apart : m.key ≢ n.key = λ q. cc (sym d.1 ∙ (ap (λ k. find_id k (a ∷ ns)) q ∙ b.back)) in
      (
        n,
        m ∷ init,
        record {
          taken = rw b.taken refl;
          others = ap ((m.key, m.val) ∷◌) b.others;
          size = ap suc b.size;
          back = rw (==_ne m.key n.key apart) b.back;
          ids = λ k. ground (arith, b.ids k);
          no_ids = λ j h. ((b.no_ids j h.1).0, (h.0, (b.no_ids j h.1).1));
          distinct = (
            (λ q. (b.no_ids m.id d.0).0 (sym q), b.distinct.0),
            ((b.no_ids m.id d.0).1, ground (arith, b.ids m.key, d.1), b.distinct.1),
          );
        },
      )
