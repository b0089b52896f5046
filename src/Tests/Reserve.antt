-- ===== src/Tests/Reserve.antt =====
-- A word reserved by LR and stored by SC.
use rv64_emulator.Common.{◌%◌, ◌≡◌, refl, arith, some}
use rv64_emulator.Device.Bus.{Bus, bus_device, get_device_by_range, load, load_at, store, store_at}
use rv64_emulator.Device.Dram.{new_dram}
use rv64_emulator.Device.Dram
use rv64_emulator.Cpu.Trap.{none_trap}
use rv64_emulator.Cpu.Csr.State.{read, new_state}
use rv64_emulator.Cpu.Mmu.Access.{use_phys_addr}
use rv64_emulator.Cpu.Mmu.Access
use rv64_emulator.Cpu.Mmu.Sv39.{new_sv39}
use rv64_emulator.Cpu.Decode.Table.{InstToken}
use rv64_emulator.Cpu.Decode.Info.{DecodeInfo, op_amo}
use rv64_emulator.Cpu.Hart.{Cpu, set_xreg, new_cpu}
use rv64_emulator.Cpu.Hart
use rv64_emulator.Cpu.Executor.Atomic.{amo_lr_exec, amo_sc_exec}
use rv64_emulator.Cpu.Executor.Reserve.{amo_sc_exec-amo_lr_exec, sc_store}
use rv64_emulator.Platform.Devices.{PlatformDevice, platform_device}
use rv64_emulator.Platform.Devices
use rv64_emulator.Tests.Reload.{hart, instruction, after_store}

abbrev lr : DecodeInfo
lr = instruction op_amo 3 0 InstToken.lr_w

abbrev sc : DecodeInfo
sc = instruction op_amo 4 2 InstToken.sc_w

abbrev reserved : Cpu (Bus PlatformDevice)
reserved = after_store (amo_lr_exec (bus_device (platform_device 200)) hart lr)

abbrev stored : Cpu (Bus PlatformDevice)
stored = after_store (amo_sc_exec (bus_device (platform_device 200)) reserved sc)

reserves : amo_lr_exec (bus_device (platform_device 200)) hart lr ≡ some (none_trap, reserved)
unfolding amo_lr_exec Hart.load Access.load read new_cpu new_state load get_device_by_range new_sv39
    load_at Devices.load Dram.load use_phys_addr new_dram
reserves = refl

stores : amo_sc_exec (bus_device (platform_device 200)) reserved sc ≡ some (none_trap, stored)
unfolding amo_lr_exec Hart.load Access.load read new_cpu new_state load get_device_by_range new_sv39
    load_at Devices.load Dram.load use_phys_addr new_dram amo_sc_exec Hart.store Access.store store
    store_at Devices.store Dram.store
stores = refl

aligned : stored.xregs 1 % 4 ≡ 0
unfolding amo_lr_exec Hart.load Access.load read new_cpu new_state load get_device_by_range new_sv39
    load_at Devices.load Dram.load use_phys_addr new_dram amo_sc_exec Hart.store Access.store store
    store_at Devices.store Dram.store
aligned = refl

amo_sc_exec-amo_lr_exec_example :
    (amo_sc_exec (bus_device (platform_device 200)) reserved sc
      ≡ sc_store (bus_device (platform_device 200)) reserved sc)
    × (amo_sc_exec (bus_device (platform_device 200)) stored sc
        ≡ some (none_trap, set_xreg stored 4 1))
amo_sc_exec-amo_lr_exec_example =
    amo_sc_exec-amo_lr_exec (bus_device (platform_device 200)) hart reserved stored lr sc sc
      none_trap reserves refl refl (omega arith) stores aligned
