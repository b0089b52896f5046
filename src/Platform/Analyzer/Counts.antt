-- ===== src/Platform/Analyzer/Counts.antt =====
-- The counters of the analyzer after instructions of four bytes.
use mathlib.Core.Path.{subst}
use rv64_emulator.Common.{ℕ, zero, suc, ◌+◌, ◌%◌, ◌^◌, ◌<◌, ◌≤◌, ◌≡◌, refl, ap, ◌∙◌, arith}
use rv64_emulator.Common.{
  Bool, map, ◌==◌, true, false, Bool-cases, inl, inr, ◌≢◌, of_bool, if◌then◌else◌,
}
use rv64_emulator.Common.{
  List, [], ◌∷◌, some, length, le_bytes, of_le_bytes, words_to_bytes, of_le_bytes-le_bytes,
  length-words_to_bytes, ==_ne,
}
use rv64_emulator.Bits.Digit.{bit}
use rv64_emulator.Bits.Mask.{bit_and-power}
use rv64_emulator.Words.{ℤ, pos, negsuc, ltb_ℤ}
use rv64_emulator.Platform.Sections.{Section}
use rv64_emulator.Platform.Analyzer.{
  Counter, same_key, increment, row_of, instruction_len, scan, is_code, scan_section, inst_cnt,
}

-- The first number under a key.
abbrev lookup : ℤ → Counter → ℕ
lookup key [] = 0
lookup key ((k, v) ∷ counter) = if same_key key k then v else lookup key counter

-- How many of the words have the given row.
abbrev row_hits : ℤ → List ℕ → ℕ
row_hits key [] = 0
row_hits key (w ∷ ws) = of_bool (same_key key (row_of w)) + row_hits key ws

-- Equality of keys, the number under a key, and how often a key is in a list.
abbrev is_key : ℤ → ℤ → Bool
is_key (pos a) (pos b) = a == b
is_key (negsuc a) (negsuc b) = a == b
is_key _ _ = false

abbrev pub frequency : ℤ → Counter → ℕ
frequency key [] = 0
frequency key ((k, v) ∷ counter) = if is_key key k then v else frequency key counter

abbrev pub occurrences : ℤ → List ℤ → ℕ
occurrences key [] = 0
occurrences key (k ∷ ks) = of_bool (is_key key k) + occurrences key ks

-- The words of an instruction set without compressed instructions.
abbrev pub AllLong : List ℕ → Type 0
AllLong [] = Unit {0}
AllLong (w ∷ ws) = (w < 2 ^ 32) × (w % 4 ≢ 0) × AllLong ws

-- The keys increase.
abbrev Above : ℤ → Counter → Type 0
Above key [] = Unit {0}
Above key ((k, v) ∷ counter) = (ltb_ℤ key k ≡ true) × Above key counter

abbrev Ordered : Counter → Type 0
Ordered [] = Unit {0}
Ordered ((k, v) ∷ counter) = Above k counter × Ordered counter

same_key_self : (a : ℤ) → same_key a a ≡ true
unfolding same_key
same_key_self (pos a) = ground arith
same_key_self (negsuc a) = ground arith

same_key_eq : (a b : ℤ) → same_key a b ≡ true → a ≡ b
unfolding same_key
same_key_eq (pos a) (pos b) h = ground arith
same_key_eq (pos a) (negsuc b) h = ground arith
same_key_eq (negsuc a) (pos b) h = ground arith
same_key_eq (negsuc a) (negsuc b) h = ground arith

not_same_of_lt : (a b : ℤ) → ltb_ℤ a b ≡ true → same_key a b ≡ false
unfolding same_key
not_same_of_lt (pos a) (pos b) h = ground arith
not_same_of_lt (pos a) (negsuc b) h = refl
not_same_of_lt (negsuc a) (pos b) h = refl
not_same_of_lt (negsuc a) (negsuc b) h = ground arith

lt_trans : (a b c : ℤ) → ltb_ℤ a b ≡ true → ltb_ℤ b c ≡ true → ltb_ℤ a c ≡ true
lt_trans (pos a) (pos b) (pos c) h k = ground arith
lt_trans (pos a) (pos b) (negsuc c) h k = k
lt_trans (pos a) (negsuc b) c h k = ground arith
lt_trans (negsuc a) (pos b) (pos c) h k = refl
lt_trans (negsuc a) (pos b) (negsuc c) h k = ground arith
lt_trans (negsuc a) (negsuc b) (pos c) h k = refl
lt_trans (negsuc a) (negsuc b) (negsuc c) h k = ground arith

lt_total : (a b : ℤ) → same_key a b ≡ false → ltb_ℤ a b ≡ false → ltb_ℤ b a ≡ true
unfolding same_key
lt_total (pos a) (pos b) h k = ground arith
lt_total (pos a) (negsuc b) h k = refl
lt_total (negsuc a) (pos b) h k = ground arith
lt_total (negsuc a) (negsuc b) h k = ground arith

below_all : (a b : ℤ) (c : Counter) → ltb_ℤ a b ≡ true → Above b c → Above a c
below_all a b [] h above = tt
below_all a b ((k, v) ∷ c) h above = (lt_trans a b k h above.0, below_all a b c h above.1)

Above-lookup : (key : ℤ) (c : Counter) → Above key c → lookup key c ≡ 0
Above-lookup key [] above = refl
Above-lookup key ((k, v) ∷ c) above = rw (not_same_of_lt key k above.0) (Above-lookup key c above.1)

increment-Above :
    (a key : ℤ) (c : Counter) → ltb_ℤ a key ≡ true → Above a c → Above a (increment key c)
unfolding increment
increment-Above a key [] h above = (h, tt)
increment-Above a key ((k, v) ∷ c) h above = ground (arith, increment-Above a key c h above.1)

increment-Ordered : (key : ℤ) (c : Counter) → Ordered c → Ordered (increment key c)
unfolding increment
increment-Ordered key [] o = (tt, tt)
increment-Ordered key ((k, v) ∷ c) o = elim (Bool-cases (same_key key k)) [
  | inl e ↦ rw e o
  | inr e ↦ elim (Bool-cases (ltb_ℤ key k)) [
    | inl f ↦ rw (e, f) ((f, below_all key k c f o.0), (o.0, o.1))
    | inr f ↦
        rw (e, f) (increment-Above k key c (lt_total key k e f) o.0, increment-Ordered key c o.1)
  ]
]

lookup-increment_same :
    (key : ℤ) (c : Counter)
    → Ordered c
    → lookup key c < 2 ^ 32
    → lookup key (increment key c) ≡ (lookup key c + 1) % 2 ^ 32
unfolding increment
lookup-increment_same key [] o h = rw (same_key_self key) refl
lookup-increment_same key ((k, v) ∷ c) o h = elim (Bool-cases (same_key key k)) [
  | inl e ↦ ground (arith, e)
  | inr e ↦ elim (Bool-cases (ltb_ℤ key k)) [
    | inl f ↦ rw (e, f, same_key_self key, Above-lookup key c (below_all key k c f o.0)) refl
    | inr f ↦ rw (e, f, e) (lookup-increment_same key c o.1 (ground arith))
  ]
]

lookup-increment_other :
    (key key' : ℤ) (c : Counter)
    → same_key key key' ≡ false
    → lookup key (increment key' c) ≡ lookup key c
unfolding increment
lookup-increment_other key key' [] n = rw n refl
lookup-increment_other key key' ((k, v) ∷ c) n = elim (Bool-cases (same_key key' k)) [
  | inl e ↦ ground (arith, subst (λ x. same_key key x ≡ false) (same_key_eq key' k e) n)
  | inr e ↦ elim (Bool-cases (ltb_ℤ key' k)) [
    | inl f ↦ rw (e, f, n) refl
    | inr f ↦ ground (arith, lookup-increment_other key key' c n)
  ]
]

lookup-increment :
    (key key' : ℤ) (c : Counter)
    → Ordered c
    → lookup key c < 2 ^ 32
    → lookup key (increment key' c) ≡ (lookup key c + of_bool (same_key key key')) % 2 ^ 32
lookup-increment key key' c o h = elim (Bool-cases (same_key key key')) [
  | inl e ↦ rw e (
      subst (λ x. lookup key (increment x c) ≡ (lookup key c + 1) % 2 ^ 32) (same_key_eq key key' e)
        (lookup-increment_same key c o h))
  | inr e ↦ omega (arith, lookup-increment_other key key' c e, ap of_bool e)
]

-- The counter after a list of words.
abbrev pub counted : List ℕ → Counter → Counter
counted [] c = c
counted (w ∷ ws) c = counted ws (increment (row_of w) c)

lookup-counted :
    (key : ℤ) (ws : List ℕ) (c : Counter)
    → Ordered c
    → lookup key c < 2 ^ 32
    → lookup key (counted ws c) ≡ (lookup key c + row_hits key ws) % 2 ^ 32
lookup-counted key [] c o h = omega arith
lookup-counted key (w ∷ ws) c o h =
    let step : lookup key (increment (row_of w) c)
        ≡ (lookup key c + of_bool (same_key key (row_of w))) % 2 ^ 32 =
      lookup-increment key (row_of w) c o h in
    omega (
      arith,
      step,
      lookup-counted key ws (increment (row_of w) c) (increment-Ordered (row_of w) c o)
          (omega (arith, step)),
    )

abbrev total : Counter → ℕ
total [] = 0
total ((k, v) ∷ c) = v + total c

inst_cnt-total : (n : ℕ) (c : Counter) → n < 2 ^ 32 → inst_cnt n c ≡ (n + total c) % 2 ^ 32
unfolding inst_cnt
inst_cnt-total n [] h = omega arith
inst_cnt-total n ((k, v) ∷ c) h = omega (arith, inst_cnt-total ((n + v) % 2 ^ 32) c (omega arith))

total-increment :
    (key : ℤ) (c : Counter) → total (increment key c) % 2 ^ 32 ≡ (1 + total c) % 2 ^ 32
unfolding increment
total-increment key [] = omega arith
total-increment key ((k, v) ∷ c) = ground (arith, total-increment key c)

total-counted :
    (ws : List ℕ) (c : Counter) → total (counted ws c) % 2 ^ 32 ≡ (length ws + total c) % 2 ^ 32
total-counted [] c = omega arith
total-counted (w ∷ ws) c =
    omega (arith, total-counted ws (increment (row_of w) c), total-increment (row_of w) c)

word_of : (w : ℕ) → w < 2 ^ 32 → of_le_bytes (le_bytes 4 w) ≡ w
word_of w h = of_le_bytes-le_bytes 4 w (omega arith)

scan-words :
    (n : ℕ) (ws : List ℕ) (c : Counter)
    → AllLong ws
    → length ws ≤ n
    → scan n (words_to_bytes 4 ws) c ≡ some (counted ws c)
unfolding scan instruction_len
scan-words n [] c long h = refl
scan-words zero (w ∷ ws) c long h = absurd (omega arith)
scan-words (suc n) (w ∷ ws) c long h =
    rw (scan, instruction_len, ==_ne (w % 256 % 4) 0 (λ e. long.1 (omega arith)))
      (ap (λ x. scan n (words_to_bytes 4 ws) (increment (row_of x) c)) (word_of w long.0)
        ∙ scan-words n ws (increment (row_of w) c) long.2 (omega arith))

same_key_is : (a b : ℤ) → same_key a b ≡ is_key a b
unfolding same_key
same_key_is (pos a) (pos b) = refl
same_key_is (pos a) (negsuc b) = refl
same_key_is (negsuc a) (pos b) = refl
same_key_is (negsuc a) (negsuc b) = refl

lookup_is : (key : ℤ) (c : Counter) → lookup key c ≡ frequency key c
lookup_is key [] = refl
lookup_is key ((k, v) ∷ c) = rw (same_key_is key k, lookup_is key c) refl

row_hits_are : (key : ℤ) (ws : List ℕ) → row_hits key ws ≡ occurrences key (map row_of ws)
row_hits_are key [] = refl
row_hits_are key (w ∷ ws) = rw (same_key_is key (row_of w), row_hits_are key ws) refl

executable : (sec : Section) → sec.type ≡ 1 → bit sec.flags 2 ≡ 1 → is_code sec ≡ true
unfolding is_code
executable sec type flag = ground (arith, bit_and-power 2 sec.flags)

-- A section of code adds its words.
pub scan_section-counted :
    (sec : Section) (ws : List ℕ) (c : Counter)
    → sec.type ≡ 1
    → bit sec.flags 2 ≡ 1
    → sec.contents ≡ words_to_bytes 4 ws
    → AllLong ws
    → scan_section sec c ≡ some (counted ws c)
unfolding scan_section
scan_section-counted sec ws c type flag e long =
    rw (executable sec type flag, e)
      (scan-words _ ws c long (omega (arith, length-words_to_bytes 4 ws)))

pub counted-frequency :
    (key : ℤ) (ws : List ℕ)
    → frequency key (counted ws []) ≡ occurrences key (map row_of ws) % 2 ^ 32
counted-frequency key ws = omega (
  arith,
  lookup-counted key ws [] tt (omega arith),
  lookup_is key (counted ws []),
  row_hits_are key ws,
)

pub counted-inst_cnt : (ws : List ℕ) → inst_cnt 0 (counted ws []) ≡ length ws % 2 ^ 32
counted-inst_cnt ws =
    omega (arith, inst_cnt-total 0 (counted ws []) (omega arith), total-counted ws [])
