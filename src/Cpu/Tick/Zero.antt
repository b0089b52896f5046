-- ===== src/Cpu/Tick/Zero.antt =====
-- Register x0 is zero after every step of the hart.
use mathlib.Core.Path.{subst}
use rv64_emulator.Common.{ℕ, ◌∙◌, ◌≡◌, arith}
use rv64_emulator.Common.{Option, none, some}
use rv64_emulator.Device.Mmio.{MmioDevice}
use rv64_emulator.Cpu.Trap.{Trap}
use rv64_emulator.Cpu.Hart.{Cpu, fetch}
use rv64_emulator.Cpu.Trapping.{handle_trap, handle_interrupt}
use rv64_emulator.Cpu.Tick.{Lines, set_lines, wait, run_word, tick_operate, finish, tick}

module _ {B : Type 0} where
  handle_trap_x0 : (c : Cpu B) (t : Trap) (epc : ℕ) → (handle_trap c t epc).xregs 0 ≡ c.xregs 0
  unfolding handle_trap
  handle_trap_x0 c t epc = ground arith

  finish_x0 : (epc : ℕ) (t : Trap) (c : Cpu B) → (finish epc t c).xregs 0 ≡ c.xregs 0
  unfolding finish handle_interrupt handle_trap
  finish_x0 epc t c = ground arith

  set_lines_x0 : (l : Lines) (c : Cpu B) → (set_lines l c).xregs 0 ≡ c.xregs 0
  unfolding set_lines
  set_lines_x0 l c = ground arith

  wait_x0 : (c : Cpu B) → (wait c).xregs 0 ≡ c.xregs 0
  unfolding wait
  wait_x0 c = ground arith

  module _ (m : MmioDevice B) (now : ℕ) where
    -- A result whose hart has the given value in x0.
    abbrev HasX0 : {A : Type 0} → ℕ → Option (A × Cpu B) → Type 0
    HasX0 z none = Unit {0}
    HasX0 z (some (r, c)) = c.xregs 0 ≡ z

    fetch_x0 : (c : Cpu B) (addr n : ℕ) → HasX0 (c.xregs 0) (fetch m c addr n)
    unfolding fetch
    fetch_x0 c addr n = ground arith

    run_word_x0 : (c : Cpu B) (word : ℕ) → c.xregs 0 ≡ 0 → HasX0 0 (run_word m now c word)
    unfolding run_word
    run_word_x0 c word z = ground arith

    tick_operate_x0 : (c : Cpu B) → c.xregs 0 ≡ 0 → HasX0 0 (tick_operate m now c)
    unfolding tick_operate
    tick_operate_x0 c z = ground (arith, fetch_x0 c c.pc 4, wait_x0 c)

  abbrev ZeroAfter : Option (Cpu B) → Type 0
  ZeroAfter none = Unit {0}
  ZeroAfter (some c) = c.xregs 0 ≡ 0

  tick_zero :
      (m : MmioDevice B) (now : ℕ) (l : Lines) (c : Cpu B)
      → c.xregs 0 ≡ 0
      → ZeroAfter (tick m now l c)
  unfolding tick
  tick_zero m now l c z =
      after (tick_operate m now (set_lines l c))
        (tick_operate_x0 m now (set_lines l c) (set_lines_x0 l c ∙ z))
    where
      after :
          (r : Option (Trap × Cpu B))
          → HasX0 m now 0 r
          → ZeroAfter
              (elim r [ none ↦ none | some (t, c1) ↦ some (finish (set_lines l c).pc t c1) ])
      after none h = tt
      after (some (t, c1)) h = finish_x0 _ t c1 ∙ h

-- A step of a hart whose register x0 is zero leaves it zero.
pub tick_x0 :
    {B : Type 0} (m : MmioDevice B) (now : ℕ) (l : Lines) (c c1 : Cpu B)
    → c.xregs 0 ≡ 0
    → tick m now l c ≡ some c1
    → c1.xregs 0 ≡ 0
tick_x0 m now l c c1 z e = subst ZeroAfter e (tick_zero m now l c z)
