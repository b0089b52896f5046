-- ===== src/Common/Bytes.antt =====
-- Lists of bytes, and the words that they make.
use Prim.Native.Nat.{ℕ, zero, suc, ◌+◌, ◌/◌, ◌^◌, ◌<◌, ◌≤◌}
use mathlib.Core.Path.{◌≡◌, refl, ap}
use mathlib.Core.List.{List, [], ◌∷◌, ◌++◌}
use mathlib.Core.Option.{some}
use native.Mathlib.Nat.{pow-suc, one-le-pow}
use native.Mathlib.Omega.{arith}
use rv64_emulator.Common.Lists.{length, take, drop, replicate}
use rv64_emulator.Common.Memory.{
  words_to_bytes, bytes_to_words, le_bytes, of_le_bytes, read_bytes, write_bytes, write_bytes_inv,
  length-take, length-drop,
}

abbrev pub AllBytes : List ℕ → Type 0
AllBytes [] = Unit {0}
AllBytes (b ∷ bs) = (b < 256) × AllBytes bs

pub AllBytes-append : (bs cs : List ℕ) → AllBytes bs → AllBytes cs → AllBytes (bs ++ cs)
AllBytes-append [] cs h k = k
AllBytes-append (b ∷ bs) cs h k = (h.0, AllBytes-append bs cs h.1 k)

pub AllBytes-take : (n : ℕ) (bs : List ℕ) → AllBytes bs → AllBytes (take n bs)
AllBytes-take zero bs h = tt
AllBytes-take (suc n) [] h = tt
AllBytes-take (suc n) (b ∷ bs) h = (h.0, AllBytes-take n bs h.1)

pub AllBytes-drop : (n : ℕ) (bs : List ℕ) → AllBytes bs → AllBytes (drop n bs)
AllBytes-drop zero bs h = h
AllBytes-drop (suc n) [] h = tt
AllBytes-drop (suc n) (b ∷ bs) h = AllBytes-drop n bs h.1

pub replicate-AllBytes : (n : ℕ) → AllBytes (replicate n 0)
replicate-AllBytes zero = tt
replicate-AllBytes (suc n) = (omega arith, replicate-AllBytes n)

pub le_bytes-AllBytes : (n v : ℕ) → AllBytes (le_bytes n v)
le_bytes-AllBytes zero v = tt
le_bytes-AllBytes (suc n) v = (omega arith, le_bytes-AllBytes n (v / 256))

-- A word of at most `k` bytes.
pub of_le_bytes-lt : (k : ℕ) (bs : List ℕ) → AllBytes bs → length bs ≤ k → of_le_bytes bs < 256 ^ k
of_le_bytes-lt k [] h le = omega (arith, one-le-pow k 256 (omega arith))
of_le_bytes-lt zero (b ∷ bs) h le = absurd (omega arith)
of_le_bytes-lt (suc k) (b ∷ bs) h le =
    omega (arith, of_le_bytes-lt k bs h.1 (omega arith), h.0, pow-suc 256 k)

pub read_bytes-AllBytes :
    (m : List ℕ) (off n : ℕ) {out : List ℕ}
    → AllBytes m
    → read_bytes m off n ≡ some out
    → AllBytes out × (length out ≡ n)
read_bytes-AllBytes m off n {out} h e =
    let inside : (off + n ≤ length m) × (take n (drop off m) ≡ out) = ground arith in
    rw (← inside.1) (
      AllBytes-take n (drop off m) (AllBytes-drop off m h),
      omega (arith, length-take n (drop off m), length-drop off m, inside.0),
    )

pub write_bytes-AllBytes :
    (m : List ℕ) (off : ℕ) (buf : List ℕ) (n : ℕ) {m' : List ℕ}
    → AllBytes m
    → AllBytes buf
    → write_bytes m off buf n ≡ some m'
    → AllBytes m'
write_bytes-AllBytes m off buf n h k e =
    let (le, fits, same) = write_bytes_inv m off buf n e in
    rw (← same) (
      AllBytes-append _ _ (AllBytes-take off m h)
        (AllBytes-append _ _ (AllBytes-take n buf k) (AllBytes-drop (off + n) m h)))

pub words_to_bytes-AllBytes : (w : ℕ) (vs : List ℕ) → AllBytes (words_to_bytes w vs)
words_to_bytes-AllBytes w [] = tt
words_to_bytes-AllBytes w (v ∷ vs) =
    AllBytes-append _ _ (le_bytes-AllBytes w v) (words_to_bytes-AllBytes w vs)

pub length-bytes_to_words : (w n : ℕ) (bs : List ℕ) → length (bytes_to_words w n bs) ≡ n
length-bytes_to_words w zero bs = refl
length-bytes_to_words w (suc n) bs = ap suc (length-bytes_to_words w n (drop w bs))
