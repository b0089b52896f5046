-- ===== src/Common/Memory.antt =====
-- `memcpy` out of and into an array of bytes, and the little-endian layout of words.
use Prim.Native.Nat.{ℕ, zero, suc, ◌+◌, ◌-◌, ◌*◌, ◌/◌, ◌%◌, ◌^◌, ◌<◌, ◌≤◌, min}
use mathlib.Core.Path.{◌≡◌, refl, sym, ap, ◌∙◌}
use mathlib.Core.Logic.{◌⊎◌, inl, inr}
use mathlib.Core.Bool.{◌&&◌}
use mathlib.Core.Option.{Option, none, some}
use mathlib.Core.List.{List, [], ◌∷◌, ◌++◌}
use native.Mathlib.Nat.{pow-suc, zero-add, suc-add, add-zero}
use native.Mathlib.Omega.{arith}
use rv64_emulator.Common.Tests.{leb, le→leb, if◌then◌else◌}
use rv64_emulator.Common.Lists.{length, take, drop, length-append}

-- `n` bytes from offset `off`; `none` is a read outside the array.
abbrev pub read_bytes : List ℕ → ℕ → ℕ → Option (List ℕ)
read_bytes m off n = if leb (off + n) (length m) then some (take n (drop off m)) else none

-- The first `n` bytes of `buf` stored at offset `off`; `none` is an access outside either array.
abbrev pub write_bytes : List ℕ → ℕ → List ℕ → ℕ → Option (List ℕ)
write_bytes m off buf n =
    if leb (off + n) (length m) && leb n (length buf)
    then some (take off m ++ (take n buf ++ drop (off + n) m))
    else none

-- The bytes of a word, lowest first, and back.
abbrev pub le_bytes : ℕ → ℕ → List ℕ
le_bytes zero v = []
le_bytes (suc n) v = v % 256 ∷ le_bytes n (v / 256)

abbrev pub of_le_bytes : List ℕ → ℕ
of_le_bytes [] = 0
of_le_bytes (b ∷ bs) = b + 256 * of_le_bytes bs

-- An array of words of `w` bytes each as bytes, and back.
abbrev pub words_to_bytes : ℕ → List ℕ → List ℕ
words_to_bytes w [] = []
words_to_bytes w (v ∷ vs) = le_bytes w v ++ words_to_bytes w vs

abbrev pub bytes_to_words : ℕ → ℕ → List ℕ → List ℕ
bytes_to_words w zero bs = []
bytes_to_words w (suc n) bs = of_le_bytes (take w bs) ∷ bytes_to_words w n (drop w bs)

pub length-take : (n : ℕ) (xs : List ℕ) → length (take n xs) ≡ min n (length xs)
length-take zero xs = omega arith
length-take (suc n) [] = omega arith
length-take (suc n) (x ∷ xs) = omega (arith, length-take n xs)

pub length-drop : (n : ℕ) (xs : List ℕ) → length (drop n xs) ≡ length xs - n
length-drop zero xs = omega arith
length-drop (suc n) [] = omega arith
length-drop (suc n) (x ∷ xs) = omega (arith, length-drop n xs)

pub length-le_bytes : (n v : ℕ) → length (le_bytes n v) ≡ n
length-le_bytes zero v = refl
length-le_bytes (suc n) v = ap suc (length-le_bytes n (v / 256))

pub length-words_to_bytes : (w : ℕ) (vs : List ℕ) → length (words_to_bytes w vs) ≡ length vs * w
length-words_to_bytes w [] = omega arith
length-words_to_bytes w (v ∷ vs) = omega (
  arith,
  length-append {0} (le_bytes w v) (words_to_bytes w vs),
  length-le_bytes w v,
  length-words_to_bytes w vs,
)

pub of_le_bytes-le_bytes : (n v : ℕ) → v < 256 ^ n → of_le_bytes (le_bytes n v) ≡ v
of_le_bytes-le_bytes zero v h = omega arith
of_le_bytes-le_bytes (suc n) v h =
    omega (arith, pow-suc 256 n, of_le_bytes-le_bytes n (v / 256) (omega (arith, pow-suc 256 n)))

abbrev splice : List ℕ → ℕ → List ℕ → ℕ → List ℕ
splice m off buf n = take off m ++ (take n buf ++ drop (off + n) m)

pub write_bytes_inv :
    (m : List ℕ) (off : ℕ) (buf : List ℕ) (n : ℕ) {m' : List ℕ}
    → write_bytes m off buf n ≡ some m'
    → (off + n ≤ length m) × (n ≤ length buf) × (splice m off buf n ≡ m')
write_bytes_inv m off buf n e = ground arith

length-splice :
    (m : List ℕ) (off : ℕ) (buf : List ℕ) (n : ℕ)
    → off + n ≤ length m
    → n ≤ length buf
    → length (splice m off buf n) ≡ length m
length-splice m off buf n h k = omega (
  arith,
  length-append {0} (take off m) (take n buf ++ drop (off + n) m),
  length-append {0} (take n buf) (drop (off + n) m),
  length-take off m,
  length-take n buf,
  length-drop (off + n) m,
)

take_of_append :
    (n : ℕ) (buf rest : List ℕ) → n ≤ length buf → take n (take n buf ++ rest) ≡ take n buf
take_of_append zero buf rest h = refl
take_of_append (suc n) [] rest h = absurd (omega arith)
take_of_append (suc n) (x ∷ buf) rest h = ap (λ t. x ∷ t) (take_of_append n buf rest (omega arith))

drop_of_append :
    (n k : ℕ) (buf rest : List ℕ) → n ≤ length buf → drop (n + k) (take n buf ++ rest) ≡ drop k rest
drop_of_append zero k buf rest h = rw zero-add
drop_of_append (suc n) k [] rest h = absurd (omega arith)
drop_of_append (suc n) k (x ∷ buf) rest h = rw suc-add (drop_of_append n k buf rest (omega arith))

drop-drop : (a b : ℕ) (m : List ℕ) → drop a (drop b m) ≡ drop (b + a) m
drop-drop a zero m = rw zero-add
drop-drop zero (suc b) [] = rw suc-add
drop-drop (suc a) (suc b) [] = rw suc-add
drop-drop a (suc b) (x ∷ m) = rw suc-add (drop-drop a b m)

take-drop_left :
    (a n off : ℕ) (m rest : List ℕ)
    → a + n ≤ off
    → off ≤ length m
    → take n (drop a (take off m ++ rest)) ≡ take n (drop a m)
take-drop_left a zero off m rest h k = refl
take-drop_left a (suc n) zero m rest h k = absurd (omega arith)
take-drop_left a (suc n) (suc off) [] rest h k = absurd (omega arith)
take-drop_left zero (suc n) (suc off) (x ∷ m) rest h k =
    ap (λ t. x ∷ t) (take-drop_left zero n off m rest (omega arith) (omega arith))
take-drop_left (suc a) (suc n) (suc off) (x ∷ m) rest h k =
    take-drop_left a (suc n) off m rest (omega arith) (omega arith)

drop-splice_right :
    (m : List ℕ) (off : ℕ) (buf : List ℕ) (n a : ℕ)
    → off + n ≤ length m
    → n ≤ length buf
    → off + n ≤ a
    → drop a (splice m off buf n) ≡ drop a m
drop-splice_right m off buf n a h k le =
    ap (λ t. drop t (splice m off buf n)) (split)
    ∙ (drop_of_append off (n + (a - (off + n))) m _ (omega arith)
        ∙ (drop_of_append n (a - (off + n)) buf _ k
            ∙ (drop-drop (a - (off + n)) (off + n) m ∙ ap (λ t. drop t m) (join))))
  where
    split : a ≡ off + (n + (a - (off + n)))
    split = omega arith

    join : off + n + (a - (off + n)) ≡ a
    join = omega arith

pub length-write_bytes :
    (m : List ℕ) (off : ℕ) (buf : List ℕ) (n : ℕ) {m' : List ℕ}
    → write_bytes m off buf n ≡ some m'
    → length m' ≡ length m
length-write_bytes m off buf n e =
    let (h, k, same) = write_bytes_inv m off buf n e in rw (← same) (length-splice m off buf n h k)

-- Reading back what was written.
pub read_bytes-write_bytes_same :
    (m : List ℕ) (off : ℕ) (buf : List ℕ) (n : ℕ) {m' : List ℕ}
    → write_bytes m off buf n ≡ some m'
    → read_bytes m' off n ≡ some (take n buf)
read_bytes-write_bytes_same m off buf n {m'} e =
    let (h, k, same) = write_bytes_inv m off buf n e in
    rw (le→leb (off + n) (length m') (omega (arith, length-write_bytes m off buf n e)), ← same)
      (ap some (ap (λ t. take n t) (drop_off k h) ∙ take_of_append n buf (drop (off + n) m) k))
  where
    drop_off :
        n ≤ length buf
        → off + n ≤ length m
        → drop off (splice m off buf n) ≡ take n buf ++ drop (off + n) m
    drop_off k h =
        ap (λ t. drop t (splice m off buf n)) (sym (add-zero off))
        ∙ drop_of_append off 0 m _ (omega arith)

-- Bytes outside the written range stay.
pub read_bytes-write_bytes_apart :
    (m : List ℕ) (off : ℕ) (buf : List ℕ) (n off' n' : ℕ) {m' : List ℕ}
    → write_bytes m off buf n ≡ some m'
    → (off' + n' ≤ off) ⊎ (off + n ≤ off')
    → read_bytes m' off' n' ≡ read_bytes m off' n'
read_bytes-write_bytes_apart m off buf n off' n' e apart =
    let (h, k, same) = write_bytes_inv m off buf n e in
    rw (length-write_bytes m off buf n e, ← same)
      (ap (λ t. if leb (off' + n') (length m) then some t else none) (inner h k apart))
  where
    inner :
        off + n ≤ length m
        → n ≤ length buf
        → (off' + n' ≤ off) ⊎ (off + n ≤ off')
        → take n' (drop off' (splice m off buf n)) ≡ take n' (drop off' m)
    inner h k (inl below) = take-drop_left off' n' off m _ below (omega arith)
    inner h k (inr above) = ap (λ t. take n' t) (drop-splice_right m off buf n off' h k above)
