-- ===== src/Platform/Main.antt =====
-- One round of the loop of `main`. The arguments of Tick have effects on different contexts of the
-- PLIC, so their order, which C++ leaves open, does not matter; it is that of the source here.
use rv64_emulator.Common.{
  ℕ, Bool, true, false, Option, none, some, Access, done, refused, fault, length,
}
use rv64_emulator.Device.Bus.{Bus, bus_device}
use rv64_emulator.Device.Clint.{machine_software_irq, machine_timer_irq, update_mtime}
use rv64_emulator.Device.Plic.{update_ext, get_interrupt}
use rv64_emulator.Device.Uart.{irq}
use rv64_emulator.Cpu.Mmu.Sv39.{new_sv39}
use rv64_emulator.Cpu.Hart.{AmoReservation, Cpu, new_cpu}
use rv64_emulator.Cpu.Tick.{Lines, tick}
use rv64_emulator.Platform.Devices.{
  PlatformDevice, clint_dev, plic_dev, uart_dev, platform_device, dram_base_addr, raw_clint,
  raw_plic, raw_uart, replace_at,
}
use rv64_emulator.Platform.Terminal.{Terminal, drain, send_interrupt}

-- The hart, which owns the bus, and the globals of the program.
pub record Machine : Type 0 where
  pub cpu : Cpu (Bus PlatformDevice)
  pub terminal : Terminal
  pub send_ctrl_c : Bool

-- MakeCPU, and the start address that `main` gives the hart.
unfoldable pub make_cpu : AmoReservation → Bus PlatformDevice → Cpu (Bus PlatformDevice)
unfolding new_cpu new_sv39
make_cpu reservation bus = record (new_cpu 0 reservation (new_sv39 bus)) { pc = dram_base_addr }

abbrev pub with_bus : Cpu (Bus PlatformDevice) → Bus PlatformDevice → Cpu (Bus PlatformDevice)
with_bus c bus = record c { mmu = record (c.mmu) { bus = bus } }

-- A call of a device, where only an answer goes on.
abbrev granted : {A : Type 0} → Access A → Option A
granted (done a) = some a
granted refused = none
granted fault = none

infixl 5 ◌>>=◌
abbrev ◌>>=◌ : {A C : Type 0} → Option A → (A → Option C) → Option C
none >>= f = none
some a >>= f = f a

-- UpdateMtime, UpdateExt and the four lines; `none` is undefined behaviour of a device.
unfoldable pub sample : ℕ → Bus PlatformDevice → Option (Lines × Bus PlatformDevice)
sample now bus = do
  clint ← raw_clint bus
  plic ← raw_plic bus
  uart ← raw_uart bus
  let clint' = update_mtime now clint
  plic1 ← granted (update_ext plic 1 (irq uart))
  (meip, plic2) ← granted (get_interrupt plic1 0)
  (seip, plic3) ← granted (get_interrupt plic2 1)
  msip ← machine_software_irq clint' 0
  mtip ← machine_timer_irq clint' 0
  some (
    record { meip = meip; seip = seip; msip = msip; mtip = mtip; update = true },
    replace_at (replace_at bus 0 (clint_dev clint')) 1 (plic_dev plic3),
  )

-- The serial port after the step: drained, and given the interrupt character.
unfoldable pub serve_terminal : Machine → Option Machine
unfolding drain send_interrupt
serve_terminal m = do
  uart ← raw_uart m.cpu.mmu.bus
  let drained = drain (length uart.tx_buffer) uart m.terminal
  let uart' = send_interrupt m.send_ctrl_c drained.0
  some (record {
    cpu = with_bus m.cpu (replace_at m.cpu.mmu.bus 2 (uart_dev uart'));
    terminal = drained.1;
    send_ctrl_c = false;
  })

-- One round.
unfoldable pub round : ℕ → Machine → Option Machine
unfolding sample serve_terminal
round now m = do
  (lines, bus) ← sample now m.cpu.mmu.bus
  cpu ← tick (bus_device (platform_device now)) now lines (with_bus m.cpu bus)
  serve_terminal (record m { cpu = cpu })
