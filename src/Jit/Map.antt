-- ===== src/Jit/Map.antt =====
-- kRv64ToA64Map, kA64ToRv64Map and A64Reg.
use rv64_emulator.Common.{ℕ, List, [], ◌∷◌, Option, none, some, get_elem?}
use rv64_emulator.Jit.Asm.{Gp, gp, zr}

-- The registers of the hart in those of the host; `none` is -1, which every reader tests for.
unfoldable pub rv64_to_a64_map : List (Option Gp)
rv64_to_a64_map =
    some zr
    ∷ some (gp 8)
    ∷ some (gp 18)
    ∷ none
    ∷ none
    ∷ some (gp 9)
    ∷ some (gp 10)
    ∷ some (gp 11)
    ∷ some (gp 16)
    ∷ some (gp 17)
    ∷ some (gp 0)
    ∷ some (gp 1)
    ∷ some (gp 2)
    ∷ some (gp 3)
    ∷ some (gp 4)
    ∷ some (gp 5)
    ∷ some (gp 6)
    ∷ some (gp 7)
    ∷ some (gp 19)
    ∷ some (gp 20)
    ∷ some (gp 21)
    ∷ some (gp 22)
    ∷ some (gp 23)
    ∷ some (gp 24)
    ∷ some (gp 25)
    ∷ some (gp 26)
    ∷ some (gp 27)
    ∷ some (gp 28)
    ∷ some (gp 12)
    ∷ some (gp 13)
    ∷ some (gp 14)
    ∷ some (gp 15)
    ∷ []

-- And back, for the registers 0 to 31 of the host.
unfoldable pub a64_to_rv64_map : List (Option ℕ)
a64_to_rv64_map =
    some 10
    ∷ some 11
    ∷ some 12
    ∷ some 13
    ∷ some 14
    ∷ some 15
    ∷ some 16
    ∷ some 17
    ∷ some 1
    ∷ some 5
    ∷ some 6
    ∷ some 7
    ∷ some 28
    ∷ some 29
    ∷ some 30
    ∷ some 31
    ∷ some 8
    ∷ some 9
    ∷ some 2
    ∷ some 18
    ∷ some 19
    ∷ some 20
    ∷ some 21
    ∷ some 22
    ∷ some 23
    ∷ some 24
    ∷ some 25
    ∷ some 26
    ∷ some 27
    ∷ none
    ∷ none
    ∷ none
    ∷ []

abbrev pub join : {A : Type 0} → Option (Option A) → Option A
join none = none
join (some o) = o

-- A64Reg. A register number has five bits, so the table has its entry.
unfoldable pub a64_reg : ℕ → Option Gp
unfolding rv64_to_a64_map
a64_reg rv_reg = join (get_elem? rv64_to_a64_map rv_reg)

-- kA64ToRv64Map[i]
unfoldable pub rv64_reg : ℕ → Option ℕ
unfolding a64_to_rv64_map
rv64_reg i = join (get_elem? a64_to_rv64_map i)
