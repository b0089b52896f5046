-- ===== src/Tests/Reload.antt =====
-- A word stored into the memory of the program and loaded back.
use rv64_emulator.Common.{ℕ, ◌≡◌, refl, arith, true, Option, some, none, ◌==◌, if◌then◌else◌}
use rv64_emulator.Device.Bus.{Bus, bus_device, get_device_by_range, store, store_at}
use rv64_emulator.Device.Clint.{new_clint}
use rv64_emulator.Device.Plic.{new_plic}
use rv64_emulator.Device.Uart.{new_uart}
use rv64_emulator.Device.Dram.{new_dram}
use rv64_emulator.Device.Dram
use rv64_emulator.Device.Dram.Laws.{new_dram-IsValid}
use rv64_emulator.Cpu.Trap.{Trap, none_trap}
use rv64_emulator.Cpu.Csr.State.{read, new_state}
use rv64_emulator.Cpu.Mmu.Access.{use_phys_addr}
use rv64_emulator.Cpu.Mmu.Access
use rv64_emulator.Cpu.Mmu.Sv39.{new_sv39}
use rv64_emulator.Cpu.Decode.Table.{InstToken}
use rv64_emulator.Cpu.Decode.Info.{DecodeInfo, op_store, op_load}
use rv64_emulator.Cpu.Hart.{set_xreg, AmoReservation, Cpu, new_cpu}
use rv64_emulator.Cpu.Hart
use rv64_emulator.Cpu.Executor.Memory.{load_type_exec, store_type_exec}
use rv64_emulator.Bits.Digit.{bit}
use rv64_emulator.Cpu.Executor.Loads.{LoadKind, extended_bit}
use rv64_emulator.Cpu.Executor.Reload.{load_type_exec-store_type_exec, IsPhysical}
use rv64_emulator.Platform.Devices.{PlatformDevice, platform_device}
use rv64_emulator.Platform.Devices
use rv64_emulator.Platform.Held.{bus_of}
use rv64_emulator.Platform.Memory.{OverMemory, InMemory, platform_bus-Remembers}

abbrev bus : Bus PlatformDevice
bus = bus_of (new_clint 5 1) (new_plic 1 true 2) new_uart (new_dram 8)

abbrev nothing_reserved : AmoReservation
nothing_reserved = record { addr = 0; size = 0; valid = 0; hart_id = 0 }

-- x1 points into the memory, and the low word of x2 is negative.
abbrev pub hart : Cpu (Bus PlatformDevice)
hart = record (new_cpu 0 nothing_reserved (new_sv39 bus)) {
  xregs = λ r. if r == 1 then 0x80000004 else if r == 2 then 0x1ffffffff else 0;
}

-- `sw x2, 0(x1)` and `lw x3, 0(x1)`.
abbrev pub instruction : ℕ → ℕ → ℕ → InstToken → DecodeInfo
instruction op rd rs2 token = record {
  word = 0;
  op = op;
  rd = rd;
  rs1 = 1;
  rs2 = rs2;
  pc = 0;
  imm = 0;
  token = token;
  size = 4;
  mem_size = 4;
}

abbrev sw : DecodeInfo
sw = instruction op_store 0 2 InstToken.sw

abbrev lw : DecodeInfo
lw = instruction op_load 3 0 InstToken.lw

abbrev pub after_store : Option (Trap × Cpu (Bus PlatformDevice)) → Cpu (Bus PlatformDevice)
after_store none = hart
after_store (some (t, c)) = c

stores :
    store_type_exec (bus_device (platform_device 200)) hart sw
    ≡ some (none_trap, after_store (store_type_exec (bus_device (platform_device 200)) hart sw))
unfolding store_type_exec Hart.store Access.store read new_cpu new_state store get_device_by_range
    new_sv39 store_at Devices.store Dram.store use_phys_addr new_dram
stores = refl

physical : IsPhysical hart
unfolding use_phys_addr new_cpu read new_state
physical = refl

memory : OverMemory hart.mmu.bus
unfolding new_cpu new_sv39
memory = record {
  clint = new_clint 5 1;
  plic = new_plic 1 true 2;
  uart = new_uart;
  dram = new_dram 8;
  is_bus = refl;
  memory = new_dram-IsValid 8 (omega arith);
}

load_type_exec-store_type_exec_example :
    (x : ℕ) × (load_type_exec
        (bus_device (platform_device 200))
        (after_store (store_type_exec (bus_device (platform_device 200)) hart sw))
        lw
      ≡ some (
        none_trap,
        set_xreg (after_store (store_type_exec (bus_device (platform_device 200)) hart sw)) 3 x,
      ))
    × ((i : ℕ) → bit x i ≡ extended_bit true 4 0x1ffffffff i)
load_type_exec-store_type_exec_example =
    load_type_exec-store_type_exec OverMemory InMemory (bus_device (platform_device 200)) hart _ sw
      lw LoadKind.lw (platform_bus-Remembers 200) physical memory
      (record { from = omega arith; below = omega arith }) refl refl refl refl refl stores
