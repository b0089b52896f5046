-- ===== src/Platform/Sound.antt =====
-- Every state that the program reaches is sound.
use mathlib.Core.Path.{subst}
use rv64_emulator.Common.{
  ℕ, ◌^◌, ◌<◌, ◌≡◌, refl, sym, ap, ◌∙◌, arith, true, false, ◌==◌, ltb, bit_and, length, none, some,
  ◌⊎◌, inl, inr, Option-cases,
}
use rv64_emulator.Device.Bus.{Bus, bus_device}
use rv64_emulator.Device.Clint.{Clint, update_mtime}
use rv64_emulator.Device.Clint.Bytes.{update_mtime-IsWhole}
use rv64_emulator.Device.Clint.Bytes
use rv64_emulator.Device.Plic.{Plic}
use rv64_emulator.Device.Plic.Bytes.{update_ext-IsWhole, get_interrupt-IsWhole}
use rv64_emulator.Device.Plic.Bytes as PlicBytes
use rv64_emulator.Device.Plic.Listening.{get_elem?_total}
use rv64_emulator.Device.Uart.{Uart, irq}
use rv64_emulator.Device.Dram.{Dram}
use rv64_emulator.Device.Dram.Bytes.{OfBytes}
use rv64_emulator.Cpu.Hart.{Cpu}
use rv64_emulator.Cpu.Hart.Valid.{IsValid, set_mmu-IsValid}
use rv64_emulator.Cpu.Tick.{Lines, tick}
use rv64_emulator.Cpu.Tick.Valid.{tick-IsValid}
use rv64_emulator.Platform.Devices.{
  PlatformDevice, uart_dev, raw_clint, raw_plic, raw_uart, replace_at, platform_device,
}
use rv64_emulator.Platform.Terminal.{uart_input, drain, send_interrupt}
use rv64_emulator.Platform.Main.{Machine, with_bus, sample, serve_terminal, round}
use rv64_emulator.Platform.Sampled.{sample_of, software_line, timer_line}
use rv64_emulator.Platform.Held.{
  OnPlatform, Holds, OnPlatform-Holds, bus_of, bus_of-OnPlatform, platform_bus-HoldsBytes,
}
use rv64_emulator.Platform.Runs.{Step, rounds, types, interrupts, Runs, stays, goes}

-- The hart is valid over the devices of the program, all in their places, and x0 is zero.
pub record IsSound (m : Machine) : Type 0 where
  pub hart : IsValid OnPlatform m.cpu
  pub zero_register : m.cpu.xregs 0 ≡ 0

-- The devices answer to the loop of the program.
sample_held :
    (now : ℕ) (c : Clint) (p : Plic) (u : Uart) (d : Dram)
    → Bytes.IsWhole 1 c
    → PlicBytes.IsWhole p
    → OfBytes d
    → (lines : Lines) × (bus' : Bus PlatformDevice) × (sample now (bus_of c p u d)
        ≡ some (lines, bus'))
      × OnPlatform bus'
unfolding raw_clint raw_plic raw_uart
sample_held now c p u d hc hp hd =
    let (p1, e1, v1) = update_ext-IsWhole p 1 (irq u) hp (omega arith) in
    let (w2, p2, e2, v2) = get_interrupt-IsWhole p1 0 v1 (omega arith) in
    let (w3, p3, e3, v3) = get_interrupt-IsWhole p2 1 v2 (omega arith) in
    let (soft, has_soft) = get_elem?_total c.msip 0 (omega (arith, hc.msip_size)) in
    let (cmp, has_cmp) = get_elem?_total c.mtimecmp 0 (omega (arith, hc.mtimecmp_size)) in
    (
      record {
        meip = w2;
        seip = w3;
        msip = bit_and soft 1 == 1;
        mtip = ltb cmp now;
        update = true;
      },
      bus_of (update_mtime now c) p3 u d,
      sample_of now (bus_of c p u d) c p p1 p2 p3 u w2 w3 _ _ refl refl refl e1 e2 e3
          (software_line now c soft has_soft) (timer_line now c cmp has_cmp),
      bus_of-OnPlatform _ p3 u d (update_mtime-IsWhole now 1 c hc) v3 hd,
    )

sample_total :
    (now : ℕ) (bus : Bus PlatformDevice)
    → OnPlatform bus
    → (lines : Lines) × (bus' : Bus PlatformDevice) × (sample now bus ≡ some (lines, bus'))
      × OnPlatform bus'
sample_total now bus h =
    let held : Holds bus = OnPlatform-Holds bus h in
    subst
      (λ b.
        (lines : Lines) × (bus' : Bus PlatformDevice) × (sample now b ≡ some (lines, bus'))
        × OnPlatform bus')
      (sym held.is_bus)
      (sample_held now held.clint held.plic held.uart held.dram held.clint_whole held.plic_whole
        held.dram_bytes)

uart_total : (bus : Bus PlatformDevice) → OnPlatform bus → (u : Uart) × (raw_uart bus ≡ some u)
unfolding raw_uart
uart_total bus h =
    let held : Holds bus = OnPlatform-Holds bus h in (held.uart, ap raw_uart held.is_bus)

new_uart-OnPlatform :
    (bus : Bus PlatformDevice) (v : Uart)
    → OnPlatform bus
    → OnPlatform (replace_at bus 2 (uart_dev v))
new_uart-OnPlatform bus v h =
    let held : Holds bus = OnPlatform-Holds bus h in
    subst (λ b. OnPlatform (replace_at b 2 (uart_dev v))) (sym held.is_bus)
      (bus_of-OnPlatform held.clint held.plic v held.dram held.clint_whole held.plic_whole
        held.dram_bytes)

with_bus-IsValid :
    (c : Cpu (Bus PlatformDevice)) (bus : Bus PlatformDevice)
    → IsValid OnPlatform c
    → OnPlatform bus
    → IsValid OnPlatform (with_bus c bus)
with_bus-IsValid c bus v h =
    set_mmu-IsValid OnPlatform c _ v
      (record { slots = v.unit.slots; in_range = v.unit.in_range; bus_holds = h })

some_injective : {A : Type 0} {a b : A} → some a ≡ some b → a ≡ b
some_injective e = cc

-- The end of a round is reached and leaves a sound machine.
serve_total : (m : Machine) → IsSound m → (m' : Machine) × (serve_terminal m ≡ some m') × IsSound m'
unfolding serve_terminal
serve_total m s =
    let (u, e) = uart_total m.cpu.mmu.bus s.hart.unit.bus_holds in
    let out = drain (length u.tx_buffer) u m.terminal in
    let bus = replace_at m.cpu.mmu.bus 2 (uart_dev (send_interrupt m.send_ctrl_c out.0)) in
    (
      record { cpu = with_bus m.cpu bus; terminal = out.1; send_ctrl_c = false },
      rw e refl,
      record {
        hart =
            with_bus-IsValid m.cpu bus s.hart
              (new_uart-OnPlatform m.cpu.mmu.bus _ s.hart.unit.bus_holds);
        zero_register = s.zero_register;
      },
    )

-- A round whose step of the hart is defined goes to its end.
ticked_total :
    (now : ℕ) (m : Machine) (lines : Lines) (bus : Bus PlatformDevice)
    (cpu : Cpu (Bus PlatformDevice))
    → now < 2 ^ 64
    → IsSound m
    → OnPlatform bus
    → sample now m.cpu.mmu.bus ≡ some (lines, bus)
    → tick (bus_device (platform_device now)) now lines (with_bus m.cpu bus) ≡ some cpu
    → (m' : Machine) × (round now m ≡ some m') × IsSound m'
unfolding round
ticked_total now m lines bus cpu h s held e t =
    let (valid, zero) =
      tick-IsValid OnPlatform (bus_device (platform_device now)) now lines (with_bus m.cpu bus) cpu
        (platform_bus-HoldsBytes now) h (with_bus-IsValid m.cpu bus s.hart held) t in
    let (m', served, sound) =
      serve_total (record m { cpu = cpu })
        (record { hart = valid; zero_register = zero s.zero_register }) in
    (m', rw (round, e, t) served, sound)

-- In a sound machine a round goes to its end and leaves a sound machine, unless the step of the hart
-- itself has undefined behaviour: sampling the devices and serving the terminal never have.
pub round_ends :
    (now : ℕ) (m : Machine)
    → now < 2 ^ 64
    → IsSound m
    → ((m' : Machine) × (round now m ≡ some m') × IsSound m')
      ⊎ ((lines : Lines) × (bus : Bus PlatformDevice) × (sample now m.cpu.mmu.bus
            ≡ some (lines, bus))
          × (tick (bus_device (platform_device now)) now lines (with_bus m.cpu bus) ≡ none))
round_ends now m h s =
    let (lines, bus, e, held) = sample_total now m.cpu.mmu.bus s.hart.unit.bus_holds in
    elim (Option-cases (tick (bus_device (platform_device now)) now lines (with_bus m.cpu bus))) [
      | inl t ↦ inr (lines, bus, e, t)
      | inr (cpu, t) ↦ inl (ticked_total now m lines bus cpu h s held e t)
    ]

round-IsSound :
    (now : ℕ) (m m' : Machine) → now < 2 ^ 64 → IsSound m → round now m ≡ some m' → IsSound m'
unfolding round
round-IsSound now m m' h s e = elim (round_ends now m h s) [
  | inl (m1, e1, s1) ↦ subst IsSound (some_injective (sym e1 ∙ e)) s1
  | inr (lines, bus, e1, t) ↦ let stuck : round now m ≡ none = rw (round, e1, t) refl in cc
]

Step-IsSound : (m m' : Machine) → IsSound m → Step m m' → IsSound m'
Step-IsSound m m' s (rounds now h e) = round-IsSound now m m' h s e
Step-IsSound m m' s (types {u = u} c e) = record {
  hart =
      with_bus-IsValid m.cpu _ s.hart
        (new_uart-OnPlatform m.cpu.mmu.bus (uart_input u c) s.hart.unit.bus_holds);
  zero_register = s.zero_register;
}
Step-IsSound m m' s interrupts = record { hart = s.hart; zero_register = s.zero_register }

-- Every state that the program reaches from a sound one is sound, whatever the guest runs and whenever
-- characters and signals arrive: the registers of the hart are words and x0 is zero, the control
-- registers and the translation buffer are valid, and the four devices are in their places.
pub Runs-IsSound : (m m' : Machine) → IsSound m → Runs m m' → IsSound m'
Runs-IsSound m m' s stays = s
Runs-IsSound m m' s (goes {m1 = m1} t r) = Runs-IsSound m1 m' (Step-IsSound m m1 s t) r
