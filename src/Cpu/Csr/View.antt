-- ===== src/Cpu/Csr/View.antt =====
-- What a read shows: the supervisor's registers are windows on the machine's.
use rv64_emulator.Common.{ℕ, ◌<◌, ◌≡◌, refl, arith, Bool, true, false, ◌||◌, ◌∙◌, ◌⊎◌, inl, inr}
use rv64_emulator.Common.{◌≢◌, ◌==◌, if◌then◌else◌, ==_iff, Bool-cases, not, ap, sym}
use rv64_emulator.Bits.Digit.{bit, bit-lt, bit-zero, bit-bit_and, all_below, all_below_sound}
use rv64_emulator.Bits.Copy.{covers, bit-copy_fields}
use rv64_emulator.Cpu.Csr.Addr.{
  csr_mstatus, csr_sstatus, csr_sie, csr_sip, csr_mie, csr_mip, csr_tselect, csr_tdata1, csr_satp,
}
use rv64_emulator.Cpu.Csr.Layout.{sstatus_read_fields}
use rv64_emulator.Cpu.Csr.State.{State, read, write}
use rv64_emulator.Cpu.Csr.Spec.{backing, keeps, effect, write_bits}

-- Whether a read of a register shows a bit of its backing register.
abbrev pub shows : ℕ → ℕ → Bool
shows addr i =
    if addr == csr_sstatus
    then bit 0x80000003000de762 i == 1
    else if addr == csr_sie || addr == csr_sip
    then bit 0x222 i == 1
    else if addr == csr_tselect || addr == csr_tdata1
    then false
    else true

read_mask_table :
    all_below 64 (λ i. bit 0x80000003000de762 i == (if covers sstatus_read_fields i then 1 else 0))
    ≡ true
unfolding all_below covers
read_mask_table = refl

read_mask :
    (i : ℕ) → i < 64 → bit 0x80000003000de762 i ≡ (if covers sstatus_read_fields i then 1 else 0)
read_mask i h = (==_iff _ _).0 (all_below_sound 64 _ i read_mask_table h)

-- Each bit of a read is the backing register's where the register shows it, and 0 elsewhere.
read_bits :
    (s : State) (addr i : ℕ)
    → i < 64
    → bit (read s addr) i ≡ (if shows addr i then bit (s.csr (backing addr)) i else 0)
unfolding read
read_bits s addr i h = ground (
  arith,
  bit-copy_fields sstatus_read_fields (s.csr csr_mstatus) 0 i,
  read_mask i h,
  bit-zero i,
  bit-bit_and (s.csr csr_mie) 0x222 i,
  bit-bit_and (s.csr csr_mip) 0x222 i,
  bit-lt (s.csr csr_mie) i,
  bit-lt (s.csr csr_mip) i,
  bit-lt 0x222 i,
)

-- A supervisor's view.
abbrev pub IsView : ℕ → Type 0
IsView addr = (addr ≡ csr_sstatus) ⊎ (addr ≡ csr_sie) ⊎ (addr ≡ csr_sip)

write_in_read_table :
    all_below 64 (λ i. not (bit 0xc0122 i == 1) || (bit 0x80000003000de762 i == 1)) ≡ true
unfolding all_below
write_in_read_table = refl

-- Where a view hides a bit, its write keeps it.
effect_of_hidden :
    (addr i : ℕ) → IsView addr → i < 64 → shows addr i ≡ false → effect addr i ≡ keeps
effect_of_hidden addr i (inl e) h hid = rw e (
    ground (arith, all_below_sound 64 _ i write_in_read_table h, ap (λ a. shows a i) (sym e) ∙ hid))
effect_of_hidden addr i (inr (inl e)) h hid =
    rw e (ground (arith, ap (λ a. shows a i) (sym e) ∙ hid))
effect_of_hidden addr i (inr (inr e)) h hid =
    rw e (ground (arith, ap (λ a. shows a i) (sym e) ∙ hid))

view_not_satp : (addr : ℕ) → IsView addr → addr ≢ csr_satp
view_not_satp addr v = omega arith

-- A write through a view changes no bit that the view does not show, nor any other register.
pub view_isolates :
    (s : State) (addr val b i : ℕ)
    → IsView addr
    → i < 64
    → (b ≡ backing addr → shows addr i ≡ false)
    → bit ((write s addr val).csr b) i ≡ bit (s.csr b) i
view_isolates s addr val b i v h hidden =
    write_bits s addr val b i (view_not_satp addr v) h ∙ elim (Bool-cases (b == backing addr)) [
      | inl e ↦ rw (e, effect_of_hidden addr i v h (hidden ((==_iff _ _).0 e)))
      | inr e ↦ rw e
    ]
