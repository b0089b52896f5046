-- ===== src/Platform/Runs.antt =====
-- The program as it runs: rounds of `main`, between them the characters that the input thread gives
-- the serial port, and the signal handler.
use rv64_emulator.Common.{
  ℕ, ◌^◌, ◌<◌, ◌≡◌, refl, sym, ap, ◌∙◌, inl, inr, true, some, none, Option-cases,
}
use rv64_emulator.Device.Bus.{bus_device}
use rv64_emulator.Device.Uart.{Uart}
use rv64_emulator.Cpu.Tick.{tick}
use rv64_emulator.Cpu.Tick.Zero.{tick_x0}
use rv64_emulator.Platform.Devices.{uart_dev, raw_uart, replace_at, platform_device}
use rv64_emulator.Platform.Terminal.{uart_input}
use rv64_emulator.Platform.Serves.{serve_terminal-Serves}
use rv64_emulator.Platform.Main.{Machine, with_bus, sample, serve_terminal, round}

-- One step of one of the three. The time stamp of a round is a word.
pub data Step : Machine → Machine → Type 0 where
  rounds : {m m' : Machine} (now : ℕ) → now < 2 ^ 64 → round now m ≡ some m' → Step m m'
  types :
      {m : Machine} {u : Uart} (c : ℕ)
      → raw_uart m.cpu.mmu.bus ≡ some u
      → Step m (record m {
        cpu = with_bus m.cpu (replace_at m.cpu.mmu.bus 2 (uart_dev (uart_input u c)));
      })
  interrupts : {m : Machine} → Step m (record m { send_ctrl_c = true })

-- Steps in order.
pub data Runs : Machine → Machine → Type 0 where
  stays : {m : Machine} → Runs m m
  goes : {m m1 m2 : Machine} → Step m m1 → Runs m1 m2 → Runs m m2

some_injective : {A : Type 0} {a b : A} → some a ≡ some b → a ≡ b
some_injective e = cc

served_x0 : (m m' : Machine) → serve_terminal m ≡ some m' → m'.cpu.xregs 0 ≡ m.cpu.xregs 0
unfolding serve_terminal
served_x0 m m' e = elim (Option-cases (raw_uart m.cpu.mmu.bus)) [
  | inl q ↦ let stuck : serve_terminal m ≡ none = rw (serve_terminal, q) refl in cc
  | inr (u, q) ↦
      let (m1, u1, s, k) = serve_terminal-Serves m u q in
      ap (λ n. n.cpu.xregs 0) (some_injective (sym e ∙ s)) ∙ ap (λ xs. xs 0) k.hart_kept.0
]

round_x0 :
    (now : ℕ) (m m' : Machine) → m.cpu.xregs 0 ≡ 0 → round now m ≡ some m' → m'.cpu.xregs 0 ≡ 0
unfolding round
round_x0 now m m' z e = elim (Option-cases (sample now m.cpu.mmu.bus)) [
  | inl q ↦ let stuck : round now m ≡ none = rw (round, q) refl in cc
  | inr ((lines, bus), q) ↦
      let ticked = tick (bus_device (platform_device now)) now lines (with_bus m.cpu bus) in
      elim (Option-cases ticked) [
        | inl t ↦ let stuck : round now m ≡ none = rw (round, q, t) refl in cc
        | inr (cpu, t) ↦
            let goes_on : round now m ≡ serve_terminal (record m { cpu = cpu }) =
              rw (round, q, t) refl in
            served_x0 (record m { cpu = cpu }) m' (sym goes_on ∙ e)
            ∙ tick_x0 (bus_device (platform_device now)) now lines (with_bus m.cpu bus) cpu z t
      ]
]

Step-x0 : (m m' : Machine) → m.cpu.xregs 0 ≡ 0 → Step m m' → m'.cpu.xregs 0 ≡ 0
Step-x0 m m' z (rounds now h e) = round_x0 now m m' z e
Step-x0 m m' z (types c e) = z
Step-x0 m m' z interrupts = z

-- Register x0 of the hart is zero in every state that the program reaches from one where it is,
-- whatever the guest runs and whenever characters and signals arrive.
Runs-x0 : (m m' : Machine) → m.cpu.xregs 0 ≡ 0 → Runs m m' → m'.cpu.xregs 0 ≡ 0
Runs-x0 m m' z stays = z
Runs-x0 m m' z (goes {m1 = m1} s r) = Runs-x0 m1 m' (Step-x0 m m1 z s) r
