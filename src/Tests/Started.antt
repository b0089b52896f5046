-- ===== src/Tests/Started.antt =====
-- The program from its start: a character and a signal, then a round in which the hart finds no
-- instruction.
use rv64_emulator.Common.{◌≡◌, ◌⊎◌, refl, arith, Bool, true, false, Option, some, none, [], done}
use rv64_emulator.Device.Bus.{Bus, bus_device, get_device_by_range}
use rv64_emulator.Device.Bus
use rv64_emulator.Device.Clint.{new_clint, machine_software_irq, machine_timer_irq, update_mtime}
use rv64_emulator.Device.Plic.{
  new_plic, update_ext, get_interrupt, best_below, consider, is_candidate,
}
use rv64_emulator.Device.Uart.{new_uart, irq, putc}
use rv64_emulator.Device.Dram.{Dram, new_dram}
use rv64_emulator.Device.Dram
use rv64_emulator.Device.Dram.Bytes.{new_dram-OfBytes}
use rv64_emulator.Cpu.Mode.{mode_eq}
use rv64_emulator.Cpu.Csr.State.{get_wfi}
use rv64_emulator.Cpu.Csr.State
use rv64_emulator.Cpu.Hart.{AmoReservation, new_cpu}
use rv64_emulator.Cpu.Hart
use rv64_emulator.Cpu.Mmu.Sv39.{new_sv39}
use rv64_emulator.Cpu.Mmu.Access
use rv64_emulator.Cpu.Tick.{Lines, tick}
use rv64_emulator.Cpu.Trap.{is_trap}
use rv64_emulator.Cpu.Trapping.{handle_interrupt, trap_state}
use rv64_emulator.Platform.Devices.{
  PlatformDevice, uart_dev, raw_clint, raw_plic, raw_uart, replace_at, make_bus, platform_device,
}
use rv64_emulator.Platform.Devices
use rv64_emulator.Cpu.Decode.Info.{decode}
use rv64_emulator.Cpu.Decode.Table.{get_token}
use rv64_emulator.Platform.Main.{Machine, with_bus, make_cpu, sample, serve_terminal, round}
use rv64_emulator.Platform.Terminal.{Terminal, uart_input}
use rv64_emulator.Platform.Runs.{goes, stays, types, interrupts, rounds}
use rv64_emulator.Platform.Sound.{IsSound, round_ends, Runs-IsSound}
use rv64_emulator.Platform.Start.{start, start-IsSound}

abbrev nothing_reserved : AmoReservation
nothing_reserved = record { addr = 0; size = 0; valid = 0; hart_id = 0 }

abbrev blank : Terminal
blank = record { delay_cr = false; printed = [] }

abbrev board : Machine
board = start 5 nothing_reserved (new_dram 8) blank

start-IsSound_example :
    (make_bus (new_clint 5 1) (new_plic 1 true 2) new_uart (new_dram 8) ≡ done board.cpu.mmu.bus)
    × IsSound board
start-IsSound_example = start-IsSound 5 nothing_reserved (new_dram 8) blank (new_dram-OfBytes 8)

round_ends_example :
    ((m' : Machine) × (round 200 board ≡ some m') × IsSound m')
    ⊎ ((lines : Lines) × (bus : Bus PlatformDevice) × (sample 200 board.cpu.mmu.bus
          ≡ some (lines, bus))
        × (tick (bus_device (platform_device 200)) 200 lines (with_bus board.cpu bus) ≡ none))
round_ends_example = round_ends 200 board (omega arith) start-IsSound_example.1

abbrev typed : Machine
typed = record board {
  cpu = with_bus board.cpu (replace_at board.cpu.mmu.bus 2 (uart_dev (uart_input new_uart 10)));
  send_ctrl_c = true;
}

abbrev after_round : Option Machine → Machine
after_round none = board
after_round (some m) = m

abbrev is_some : Option Machine → Bool
is_some none = false
is_some (some m) = true

some-after_round : (o : Option Machine) → is_some o ≡ true → o ≡ some (after_round o)
some-after_round none e = cc
some-after_round (some m) e = refl

has_port : raw_uart board.cpu.mmu.bus ≡ some new_uart
unfolding raw_uart make_cpu new_sv39
has_port = refl

round_returns : is_some (round 200 typed) ≡ true
unfolding round sample serve_terminal raw_clint raw_plic raw_uart update_ext get_interrupt
    machine_software_irq update_mtime machine_timer_irq tick get_wfi State.write Hart.fetch
    Access.fetch mode_eq Bus.load get_device_by_range handle_interrupt is_trap State.read trap_state
    best_below consider is_candidate irq uart_input putc make_cpu new_cpu new_sv39 new_clint
    new_plic new_uart new_dram Dram.load State.new_state Bus.load_at Devices.load decode get_token
round_returns = refl

Runs-IsSound_example : IsSound (after_round (round 200 typed))
Runs-IsSound_example = Runs-IsSound board (after_round (round 200 typed)) start-IsSound_example.1 (
    goes (types 10 has_port)
      (goes interrupts (goes (rounds 200 (omega arith) (some-after_round _ round_returns)) stays)))
