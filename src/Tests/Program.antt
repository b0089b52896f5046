-- ===== src/Tests/Program.antt =====
-- A machine with the devices of `main`, the guest of which has characters to send and to read.
use rv64_emulator.Common.{
  ℕ, zero, suc, ◌%◌, ◌/◌, ◌≡◌, ◌≢◌, refl, arith, true, false, some, ltb, ◌==◌, bit_and,
}
use rv64_emulator.Common.{[], ◌∷◌, get_or, done}
use rv64_emulator.Bits.Digit.{bit-zero}
use rv64_emulator.Bits.Mask.{bit_and-power}
use rv64_emulator.Device.Mmio.{MmioDeviceNode}
use rv64_emulator.Device.Bus.{Bus, get_device_by_range}
use rv64_emulator.Device.Clint.{Clint}
use rv64_emulator.Device.Plic.{
  Plic, PlicContext, has_bit, claim_word, context_at, target, load, load_target, get_interrupt,
  best_below, consider, is_candidate,
}
use rv64_emulator.Device.Plic.Claims.{get_interrupt-claimed}
use rv64_emulator.Device.Uart.{Uart, irq}
use rv64_emulator.Cpu.Mode.{machine}
use rv64_emulator.Cpu.Tick.{Lines}
use rv64_emulator.Platform.Devices.{
  PlatformDevice, clint_dev, plic_dev, uart_dev, raw_clint, raw_plic, raw_uart, clint_base,
  plic_base, uart_base,
}
use rv64_emulator.Platform.Main.{Machine, sample, serve_terminal}
use rv64_emulator.Platform.Devices.{make_bus}
use rv64_emulator.Platform.Mounted.{memory_map, make_bus-mounted}
use rv64_emulator.Platform.Serves.{Serves, serve_terminal-Serves}
use rv64_emulator.Platform.Sampled.{sample_lines}
use rv64_emulator.Device.Plic.Listening.{Listens}

abbrev port : Uart
port = record {
  reg = record { rx_fifo = 0; tx_fifo = 0; status = 4; control = 0 };
  wait_ack = false;
  rx_buffer = 65 ∷ [];
  tx_buffer = 72 ∷ 13 ∷ 105 ∷ [];
}

abbrev context : ℕ → PlicContext
context id = record {
  mmode = true;
  id = id;
  claim = 0;
  threshold = 1;
  enable = 2 ∷ [];
  claimed = 0 ∷ [];
}

abbrev controller : Plic
controller = record {
  contexts = context 0 ∷ context 1 ∷ [];
  dev_num = 3;
  priority = 0 ∷ 1 ∷ 0 ∷ [];
  pending = 0 ∷ [];
}

abbrev timer : Clint
timer = record { harts = 1; msip = 1 ∷ []; mtimecmp = 100 ∷ []; mtime = 0 }

abbrev node : ℕ → PlatformDevice → MmioDeviceNode PlatformDevice
node base dev = record { base = base; size = 0x1000; dev = dev }

abbrev bus : Bus PlatformDevice
bus =
    node clint_base (clint_dev timer)
    ∷ node plic_base (plic_dev controller)
    ∷ node uart_base (uart_dev port)
    ∷ []

abbrev board : Machine
board = record {
  cpu = record {
    pc = 0;
    instret = 0;
    hart_id = 0;
    state = record { wfi = false; csr = λ a. 0 };
    xregs = λ r. 0;
    priv_mode = machine;
    mmu = record { index = 0; cache_hit = 0; cache_miss = 0; tlb = []; bus = bus };
    reservation = record { addr = 0; size = 0; valid = 0; hart_id = 0 };
  };
  terminal = record { delay_cr = false; printed = [] };
  send_ctrl_c = true;
}

has_port : raw_uart bus ≡ some port
unfolding raw_uart
has_port = refl

has_controller : raw_plic bus ≡ some controller
unfolding raw_plic
has_controller = refl

has_timer : raw_clint bus ≡ some timer
unfolding raw_clint
has_timer = refl

make_bus-mounted_example :
    (bus : Bus PlatformDevice) × (make_bus timer controller port (record { size = 0; memory = [] })
      ≡ done bus)
    × (raw_clint bus ≡ some timer)
    × (raw_plic bus ≡ some controller)
    × (raw_uart bus ≡ some port)
    × ((addr : ℕ) → get_device_by_range bus addr ≡ memory_map addr)
make_bus-mounted_example = make_bus-mounted timer controller port (record { size = 0; memory = [] })

serve_terminal-Serves_example :
    (m' : Machine) × (u' : Uart) × (serve_terminal board ≡ some m') × Serves board port m' u'
serve_terminal-Serves_example = serve_terminal-Serves board port has_port

zero_word : (i : ℕ) → get_or {A = ℕ} (0 ∷ []) i 0 ≡ 0
zero_word zero = refl
zero_word (suc i) = refl

nothing_pending : (j : ℕ) → has_bit (0 ∷ []) j ≡ false
nothing_pending j =
    rw (zero_word (j / 32), bit_and-power (j % 32) 0, bit-zero (j % 32)) (ground arith)

controller-Listens : Listens controller (context 0)
controller-Listens = record {
  sources = (omega arith, omega arith);
  priority = (omega arith, omega arith);
  enabled = refl;
  unclaimed = refl;
  alone = λ j ne. nothing_pending j;
}

sample_lines_example :
    (lines : Lines) × (bus' : Bus PlatformDevice) × (sample 200 bus ≡ some (lines, bus'))
    × (lines.meip ≡ irq port)
    × (lines.mtip ≡ ltb 100 200)
    × (lines.msip ≡ (bit_and 1 1 == 1))
sample_lines_example =
    sample_lines 200 bus timer controller port (context 0) 100 1 has_timer has_controller has_port
      refl (omega arith) (omega arith) controller-Listens refl refl

-- A controller that offers source 1 to its first context, and the same once it is claimed.
abbrev offering : Plic
offering = record controller {
  contexts = record (context 0) { claim = 1 } ∷ context 1 ∷ [];
  pending = 2 ∷ [];
}

abbrev claimed : Plic
claimed = record offering {
  contexts = record (context 0) { claim = 1; claimed = 2 ∷ [] } ∷ context 1 ∷ [];
}

abbrev quiet : Plic
quiet = record offering {
  contexts = record (context 0) { claim = 0; claimed = 2 ∷ [] } ∷ context 1 ∷ [];
}

at_claim : target offering 0x200004 ≡ claim_word 0
unfolding target
at_claim = refl

claims : load offering 0x200004 4 ≡ done (1 ∷ 0 ∷ 0 ∷ 0 ∷ [], claimed)
unfolding load load_target target
claims = refl

not_offered : get_interrupt claimed 0 ≡ done (false, quiet)
unfolding get_interrupt best_below consider is_candidate
not_offered = refl

get_interrupt-claimed_example : (context_at quiet 0).claim ≢ (context_at offering 0).claim
get_interrupt-claimed_example =
    get_interrupt-claimed offering claimed quiet 0x200004 0 4 (1 ∷ 0 ∷ 0 ∷ 0 ∷ []) false at_claim
      (omega arith) (omega arith) claims not_offered
