-- ===== src/Cpu/Csr/Spec.antt =====
-- What a write does to each bit of the register file, stated with one mask to a register as the
-- privileged architecture does, independently of the descriptors that the code copies.
use rv64_emulator.Common.{ℕ, ◌+◌, ◌<◌, ◌≡◌, refl, arith, Bool, true, false, ◌||◌, ◌≢◌}
use rv64_emulator.Common.{◌∙◌, ◌==◌, if◌then◌else◌, ==_iff}
use rv64_emulator.Common.{bit_and}
use rv64_emulator.Bits.Digit.{bit, bit-lt, bit-bit_and, bit-bit_or, all_below, all_below_sound}
use rv64_emulator.Bits.Copy.{covers, copy_fields, bit-copy_fields}
use rv64_emulator.Cpu.Csr.Addr.{
  csr_misa, csr_mstatus, csr_sstatus, csr_sie, csr_sip, csr_mie, csr_mip, csr_tselect, csr_tdata1,
  csr_mideleg, csr_medeleg, csr_mvendor_id, csr_march_id, csr_mimp_id, csr_satp,
}
use rv64_emulator.Cpu.Csr.Layout.{sstatus_write_fields, mstatus_write_fields}
use rv64_emulator.Cpu.Csr.Cases.{IsPlain, by_address, write_csr_plain}
use rv64_emulator.Cpu.Csr.State.{State, write, write_csr, merge_s_interrupt, not_s_interrupt}

-- The register that holds the bits of a CSR: the supervisor's are views of the machine's.
abbrev pub backing : ℕ → ℕ
backing addr =
    if addr == csr_sstatus
    then csr_mstatus
    else if addr == csr_sie
    then csr_mie
    else if addr == csr_sip
    then csr_mip
    else addr

-- What becomes of a bit of the backing register.
pub data Effect : Type 0 where
  takes keeps clears : Effect

abbrev pub masked : ℕ → Effect → ℕ → Effect
masked mask other i = if bit mask i == 1 then takes else other

abbrev pub effect : ℕ → ℕ → Effect
effect addr i =
    if addr == csr_sstatus
    then masked 0xc0122 keeps i
    else if addr == csr_mie || addr == csr_mip
    then masked 0xaaa clears i
    else if addr == csr_sie || addr == csr_sip
    then masked 0x222 keeps i
    else if addr == csr_mstatus
    then masked 0x7e19aa keeps i
    else if addr == csr_mideleg
    then masked 0x222 clears i
    else if addr == csr_medeleg
    then masked 0xf7ff clears i
    else if addr == csr_misa
        || addr == csr_tselect
        || addr == csr_tdata1
        || addr == csr_mvendor_id
        || addr == csr_march_id
        || addr == csr_mimp_id
    then keeps
    else takes

abbrev pub outcome : Effect → ℕ → ℕ → ℕ
outcome takes old new = new
outcome keeps old new = old
outcome clears old new = 0

sstatus_mask_table :
    all_below 64 (λ i. bit 0xc0122 i == (if covers sstatus_write_fields i then 1 else 0)) ≡ true
unfolding all_below covers
sstatus_mask_table = refl

mstatus_mask_table :
    all_below 64 (λ i. bit 0x7e19aa i == (if covers mstatus_write_fields i then 1 else 0)) ≡ true
unfolding all_below covers
mstatus_mask_table = refl

sstatus_mask : (i : ℕ) → i < 64 → bit 0xc0122 i ≡ (if covers sstatus_write_fields i then 1 else 0)
sstatus_mask i h = (==_iff _ _).0 (all_below_sound 64 _ i sstatus_mask_table h)

mstatus_mask : (i : ℕ) → i < 64 → bit 0x7e19aa i ≡ (if covers mstatus_write_fields i then 1 else 0)
mstatus_mask i h = (==_iff _ _).0 (all_below_sound 64 _ i mstatus_mask_table h)

not_s_table : all_below 64 (λ i. bit not_s_interrupt i + bit 0x222 i == 1) ≡ true
unfolding all_below
not_s_table = refl

not_s_bit : (i : ℕ) → i < 64 → bit not_s_interrupt i + bit 0x222 i ≡ 1
not_s_bit i h = (==_iff _ _).0 (all_below_sound 64 _ i not_s_table h)

bit-masked :
    (old val mask i : ℕ) → bit (bit_and val mask) i ≡ outcome (masked mask clears i) old (bit val i)
bit-masked old val mask i = ground (arith, bit-bit_and val mask i, bit-lt val i, bit-lt mask i)

-- The supervisor's write to mie or mip replaces its three bits and keeps the machine's.
pub bit-merge_s_interrupt :
    (old val i : ℕ)
    → i < 64
    → bit (merge_s_interrupt old val) i ≡ outcome (masked 0x222 keeps i) (bit old i) (bit val i)
unfolding merge_s_interrupt
bit-merge_s_interrupt old val i h = ground (
  arith,
  bit-bit_or (bit_and old not_s_interrupt) (bit_and val 0x222) i,
  bit-bit_and old not_s_interrupt i,
  bit-bit_and val 0x222 i,
  not_s_bit i h,
  bit-lt val i,
  bit-lt old i,
  bit-lt 0x222 i,
)

bit-sstatus :
    (old val i : ℕ)
    → i < 64
    → bit (copy_fields sstatus_write_fields val old) i
      ≡ outcome (masked 0xc0122 keeps i) (bit old i) (bit val i)
bit-sstatus old val i h =
    bit-copy_fields sstatus_write_fields val old i ∙ ground (arith, sstatus_mask i h)

bit-mstatus :
    (old val i : ℕ)
    → i < 64
    → bit (copy_fields mstatus_write_fields val old) i
      ≡ outcome (masked 0x7e19aa keeps i) (bit old i) (bit val i)
bit-mstatus old val i h =
    bit-copy_fields mstatus_write_fields val old i ∙ ground (arith, mstatus_mask i h)

-- What a write to `addr` does to bit `i` of register `b`.
abbrev WritesBit : (ℕ → ℕ) → ℕ → ℕ → ℕ → ℕ → Type 0
WritesBit c val b i addr =
    addr ≢ csr_satp
    → bit (write_csr c addr val b) i ≡ (
        if b == backing addr
        then outcome (effect addr i) (bit (c b) i) (bit val i)
        else bit (c b) i)

-- Where nothing is written, either branch is the old bit.
same_anyway : (t : Bool) (x : ℕ) → x ≡ (if t then x else x)
same_anyway true x = refl
same_anyway false x = refl

module _ (c : ℕ → ℕ) (val b i : ℕ) (h : i < 64) where
  writes_sstatus : WritesBit c val b i csr_sstatus
  unfolding write_csr
  writes_sstatus _ = ground (arith, bit-sstatus (c csr_mstatus) val i h)

  writes_mstatus : WritesBit c val b i csr_mstatus
  unfolding write_csr
  writes_mstatus _ = ground (arith, bit-mstatus (c csr_mstatus) val i h)

  writes_mie : WritesBit c val b i csr_mie
  unfolding write_csr
  writes_mie _ = ground (arith, bit-masked (bit (c b) i) val 0xaaa i)

  writes_mip : WritesBit c val b i csr_mip
  unfolding write_csr
  writes_mip _ = ground (arith, bit-masked (bit (c b) i) val 0xaaa i)

  writes_sie : WritesBit c val b i csr_sie
  unfolding write_csr
  writes_sie _ = ground (arith, bit-merge_s_interrupt (c csr_mie) val i h)

  writes_sip : WritesBit c val b i csr_sip
  unfolding write_csr
  writes_sip _ = ground (arith, bit-merge_s_interrupt (c csr_mip) val i h)

  writes_mideleg : WritesBit c val b i csr_mideleg
  unfolding write_csr
  writes_mideleg _ = ground (arith, bit-masked (bit (c b) i) val 0x222 i)

  writes_medeleg : WritesBit c val b i csr_medeleg
  unfolding write_csr
  writes_medeleg _ = ground (arith, bit-masked (bit (c b) i) val 0xf7ff i)

  writes_plain : (a : ℕ) → IsPlain a → WritesBit c val b i a
  unfolding write_csr
  writes_plain a p _ =
      rw
        (
          write_csr_plain c a val p,
          p.not_sstatus,
          p.not_mie,
          p.not_mip,
          p.not_sie,
          p.not_sip,
          p.not_mstatus,
          p.not_mideleg,
          p.not_medeleg,
          p.not_misa,
          p.not_tselect,
          p.not_tdata1,
          p.not_mvendor_id,
          p.not_march_id,
          p.not_mimp_id,
        )
        (ground arith)

  writes_satp : WritesBit c val b i csr_satp
  writes_satp ne = absurd (ne refl)

-- A write to any register but satp changes the backing register alone, and there each of the 64
-- bits becomes the written one, stays, or is cleared, as the register's mask says.
pub write_bits :
    (s : State) (addr val b i : ℕ)
    → addr ≢ csr_satp
    → i < 64
    → bit ((write s addr val).csr b) i ≡ (
        if b == backing addr
        then outcome (effect addr i) (bit (s.csr b) i) (bit val i)
        else bit (s.csr b) i)
unfolding write
write_bits s addr val b i ne h =
    by_address (WritesBit s.csr val b i) (writes_sstatus s.csr val b i h)
      (writes_mie s.csr val b i h) (writes_mip s.csr val b i h) (writes_sie s.csr val b i h)
      (writes_sip s.csr val b i h) (writes_mstatus s.csr val b i h) (writes_mideleg s.csr val b i h)
      (writes_medeleg s.csr val b i h) (λ _. same_anyway (b == csr_misa) _)
      (λ _. same_anyway (b == csr_tselect) _) (λ _. same_anyway (b == csr_tdata1) _)
      (λ _. same_anyway (b == csr_mvendor_id) _) (λ _. same_anyway (b == csr_march_id) _)
      (λ _. same_anyway (b == csr_mimp_id) _) (writes_satp s.csr val b i h)
      (writes_plain s.csr val b i h) addr ne
