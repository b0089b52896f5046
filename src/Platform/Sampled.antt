-- ===== src/Platform/Sampled.antt =====
-- The interrupt lines that `main` samples from the devices before a step.
use rv64_emulator.Common.{bit_and, ==_ne, ℕ, ◌<◌, ◌≡◌, refl, ap, ◌∙◌, arith}
use rv64_emulator.Common.{Bool, true, ◌==◌, ltb}
use rv64_emulator.Common.{length, get_elem?, done, some}
use rv64_emulator.Device.Bus.{Bus}
use rv64_emulator.Device.Clint.{Clint, machine_software_irq, machine_timer_irq, update_mtime}
use rv64_emulator.Device.Plic.{Plic, PlicContext, update_ext, get_interrupt}
use rv64_emulator.Device.Plic.Pending.{update_ext_bits}
use rv64_emulator.Device.Plic.Claims.{get_interrupt_offers}
use rv64_emulator.Device.Uart.{Uart, irq}
use rv64_emulator.Cpu.Tick.{Lines}
use rv64_emulator.Platform.Devices.{
  PlatformDevice, clint_dev, plic_dev, replace_at, raw_clint, raw_plic, raw_uart,
}
use rv64_emulator.Platform.Main.{sample}
use rv64_emulator.Device.Plic.Listening.{
  Listens, offered_iff_pending, update_ext_total, get_interrupt_total, get_elem?_total,
}

-- The answers of the devices, put together.
pub sample_of :
    (now : ℕ) (bus : Bus PlatformDevice) (c : Clint) (p p1 p2 p3 : Plic) (u : Uart)
    (external supervisor software timer : Bool)
    → raw_clint bus ≡ some c
    → raw_plic bus ≡ some p
    → raw_uart bus ≡ some u
    → update_ext p 1 (irq u) ≡ done p1
    → get_interrupt p1 0 ≡ done (external, p2)
    → get_interrupt p2 1 ≡ done (supervisor, p3)
    → machine_software_irq (update_mtime now c) 0 ≡ some software
    → machine_timer_irq (update_mtime now c) 0 ≡ some timer
    → sample now bus
      ≡ some (
        record { meip = external; seip = supervisor; msip = software; mtip = timer; update = true },
        replace_at (replace_at bus 0 (clint_dev (update_mtime now c))) 1 (plic_dev p3),
      )
unfolding sample
sample_of now bus c p p1 p2 p3 u external supervisor software timer e1 e2 e3 e4 e5 e6 e7 e8 =
    rw (e1, e2, e3, e4, e5, e6, e7, e8) refl

pub software_line :
    (now : ℕ) (c : Clint) (soft : ℕ)
    → get_elem? c.msip 0 ≡ some soft
    → machine_software_irq (update_mtime now c) 0 ≡ some (bit_and soft 1 == 1)
unfolding machine_software_irq update_mtime
software_line now c soft e = rw (machine_software_irq, e) refl

pub timer_line :
    (now : ℕ) (c : Clint) (cmp : ℕ)
    → get_elem? c.mtimecmp 0 ≡ some cmp
    → machine_timer_irq (update_mtime now c) 0 ≡ some (ltb cmp now)
unfolding machine_timer_irq update_mtime
timer_line now c cmp e = rw (machine_timer_irq, e) refl

-- Where the bus has the three devices, the first context takes interrupts of source 1 and no other
-- source is pending, the lines are sampled: the external line of machine mode is up exactly if the
-- serial port asks for an interrupt, the timer line exactly if the time is past the comparison, and
-- the software line is bit 0 of its register.
pub sample_lines :
    (now : ℕ) (bus : Bus PlatformDevice) (c : Clint) (p : Plic) (u : Uart) (ctx : PlicContext)
    (cmp soft : ℕ)
    → raw_clint bus ≡ some c
    → raw_plic bus ≡ some p
    → raw_uart bus ≡ some u
    → get_elem? p.contexts 0 ≡ some ctx
    → 1 < length p.contexts
    → 0 < length p.pending
    → Listens p ctx
    → get_elem? c.mtimecmp 0 ≡ some cmp
    → get_elem? c.msip 0 ≡ some soft
    → (lines : Lines) × (bus' : Bus PlatformDevice) × (sample now bus ≡ some (lines, bus'))
      × (lines.meip ≡ irq u)
      × (lines.mtip ≡ ltb cmp now)
      × (lines.msip ≡ (bit_and soft 1 == 1))
sample_lines now bus c p u ctx cmp soft has_c has_p has_u at_0 two some_word l has_cmp has_soft =
    let (p1, done1, contexts1, priority1, dev_num1) = update_ext_total p 1 (irq u) (omega arith) in
    let l1 : Listens p1 ctx = record {
      sources = rw dev_num1 l.sources;
      priority = rw priority1 l.priority;
      enabled = l.enabled;
      unclaimed = l.unclaimed;
      alone = λ j ne. update_ext_bits p p1 1 j (irq u) done1 ∙ rw (==_ne j 1 ne) (l.alone j ne);
    } in
    let at_0' : get_elem? p1.contexts 0 ≡ some ctx = ap (λ cs. get_elem? cs 0) contexts1 ∙ at_0 in
    let (waits2, p2, done2, length2, dev_num2) = get_interrupt_total p1 0 ctx at_0' l1.sources.1 in
    let (ctx1, at_1) =
      get_elem?_total p2.contexts 1 (omega (arith, length2, ap length contexts1)) in
    let (waits3, p3, done3, length3, dev_num3) =
      get_interrupt_total p2 1 ctx1 at_1 (rw dev_num2 l1.sources.1) in
    let offers = get_interrupt_offers p1 p2 0 ctx waits2 at_0' done2 in
    let lines : Lines = record {
      meip = waits2;
      seip = waits3;
      msip = bit_and soft 1 == 1;
      mtip = ltb cmp now;
      update = true;
    } in
    (
      lines,
      replace_at (replace_at bus 0 (clint_dev (update_mtime now c))) 1 (plic_dev p3),
      sample_of now bus c p p1 p2 p3 u waits2 waits3 _ _ has_c has_p has_u done1 done2 done3
          (software_line now c soft has_soft) (timer_line now c cmp has_cmp),
      offers.0 ∙ offered_iff_pending p1 ctx (irq u) l1 (update_ext_bits p p1 1 1 (irq u) done1),
      refl,
      refl,
    )
