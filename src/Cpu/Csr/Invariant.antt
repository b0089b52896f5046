-- ===== src/Cpu/Csr/Invariant.antt =====
-- What every operation on the registers keeps: 64-bit words, no interrupt or delegation bit that
-- the hart lacks, and a translation mode that it supports.
use rv64_emulator.Common.{ℕ, ◌^◌, ◌<◌, ◌≤◌, ◌≡◌, refl, arith, false}
use rv64_emulator.Common.{
  Bool, ◌⊎◌, inl, inr, ◌≢◌, Bool-cases, ==_iff, bit_and, ◌==◌, if◌then◌else◌,
}
use rv64_emulator.Bits.Digit.{bit, bit-zero, bit-bit_and, bit-bit_or}
use rv64_emulator.Bits.Fields.{field, lt_of_bits, bit_of_lt}
use rv64_emulator.Bits.Bounds.{bit_and-lt, bit_or-lt, set_field-lt}
use rv64_emulator.Bits.Copy.{Layout, copy_fields, bit-copy_fields}
use rv64_emulator.Cpu.Csr.Addr.{
  csr_misa, csr_mstatus, csr_mie, csr_mip, csr_mideleg, csr_medeleg, csr_satp,
}
use rv64_emulator.Cpu.Csr.Layout.{satp_mode, sstatus_read_fields}
use rv64_emulator.Cpu.Csr.Cases.{IsPlain, by_address, write_csr_plain}
use rv64_emulator.Cpu.Csr.State.{
  State, update, get, set_wfi, read, write, reset, new_state, satp_value, merge_s_interrupt,
  not_s_interrupt, init_mstatus, init_misa,
}

-- A word has no bit that its mask lacks.
abbrev pub HasMask : ℕ → ℕ → Type 0
HasMask mask v = (i : ℕ) → bit v i ≤ bit mask i

pub record IsValid (s : State) : Type 0 where
  pub words : (a : ℕ) → s.csr a < 2 ^ 64
  pub mie_mask : HasMask 0xaaa (s.csr csr_mie)
  pub mip_mask : HasMask 0xaaa (s.csr csr_mip)
  pub mideleg_mask : HasMask 0x222 (s.csr csr_mideleg)
  pub medeleg_mask : HasMask 0xf7ff (s.csr csr_medeleg)
  pub satp_supported : (get (s.csr csr_satp) satp_mode ≡ 0) ⊎ (get (s.csr csr_satp) satp_mode ≡ 8)

copy_fields-lt :
    (fs : Layout) (src dst : ℕ) → src < 2 ^ 64 → dst < 2 ^ 64 → copy_fields fs src dst < 2 ^ 64
copy_fields-lt fs src dst hs hd = lt_of_bits 64 (copy_fields fs src dst) λ i le.
    ground (arith, bit-copy_fields fs src dst i, bit_of_lt 64 src i hs le, bit_of_lt 64 dst i hd le)

bit_and-HasMask : (val mask : ℕ) → HasMask mask (bit_and val mask)
bit_and-HasMask val mask i = omega (arith, bit-bit_and val mask i)

merge_s_interrupt-lt :
    (old val : ℕ) → old < 2 ^ 64 → val < 2 ^ 64 → merge_s_interrupt old val < 2 ^ 64
unfolding merge_s_interrupt
merge_s_interrupt-lt old val h k =
    bit_or-lt _ _ (bit_and-lt old not_s_interrupt h) (bit_and-lt val 0x222 k)

-- The supervisor's bits are among the machine's, so a merge keeps the machine's mask.
merge_s_interrupt-HasMask :
    (old val : ℕ) → HasMask 0xaaa old → HasMask 0xaaa (merge_s_interrupt old val)
unfolding merge_s_interrupt
merge_s_interrupt-HasMask old val h i = omega (
  arith,
  bit-bit_or (bit_and old not_s_interrupt) (bit_and val 0x222) i,
  bit-bit_and old not_s_interrupt i,
  bit-bit_and val 0x222 i,
  h i,
  s_bits_in_m i,
)
  where
    s_bits_in_m : HasMask 0xaaa 0x222
    s_bits_in_m i = omega (arith, bit-bit_and 0xaaa 0x222 i)

satp_value-lt : (old val : ℕ) → val < 2 ^ 64 → satp_value old val < 2 ^ 64
unfolding satp_value
satp_value-lt old val h = ground (arith, set_field-lt val 60 4 (field old 60 4) h)

-- The mode that a write to satp leaves.
pub satp_value_mode :
    (old val : ℕ)
    → get (satp_value old val) satp_mode ≡ (
        if get val satp_mode == 0
        then 0
        else if get val satp_mode == 8
        then 8
        else get old satp_mode)
unfolding satp_value
satp_value_mode old val = ground arith

abbrev Supported : ℕ → Type 0
Supported v = (get v satp_mode ≡ 0) ⊎ (get v satp_mode ≡ 8)

satp_value-Supported : (old val : ℕ) → Supported old → Supported (satp_value old val)
satp_value-Supported old val h = ground (arith, satp_value_mode old val)

-- What a value must satisfy to be stored at an address.
record Fits (k v : ℕ) : Type 0 where
  word : v < 2 ^ 64
  as_mie : k ≡ csr_mie → HasMask 0xaaa v
  as_mip : k ≡ csr_mip → HasMask 0xaaa v
  as_mideleg : k ≡ csr_mideleg → HasMask 0x222 v
  as_medeleg : k ≡ csr_medeleg → HasMask 0xf7ff v
  as_satp : k ≡ csr_satp → Supported v

-- A property of each register survives a store of a value that has it.
update_keeps :
    (P : ℕ → Type 0) (c : ℕ → ℕ) (k v b : ℕ) → P (c b) → (k ≡ b → P v) → P (update c k v b)
update_keeps P c k v b old new = elim (Bool-cases (k == b)) [
  | inl e ↦ rw e (new ((==_iff k b).0 e))
  | inr e ↦ rw e old
]

update-IsValid :
    (s : State) (k v : ℕ) → IsValid s → Fits k v → IsValid (record s { csr = update s.csr k v })
update-IsValid s k v valid fits = record {
  words = λ b. update_keeps (λ x. x < 2 ^ 64) s.csr k v b (valid.words b) (λ _. fits.word);
  mie_mask = update_keeps (HasMask 0xaaa) s.csr k v csr_mie valid.mie_mask fits.as_mie;
  mip_mask = update_keeps (HasMask 0xaaa) s.csr k v csr_mip valid.mip_mask fits.as_mip;
  mideleg_mask =
      update_keeps (HasMask 0x222) s.csr k v csr_mideleg valid.mideleg_mask fits.as_mideleg;
  medeleg_mask =
      update_keeps (HasMask 0xf7ff) s.csr k v csr_medeleg valid.medeleg_mask fits.as_medeleg;
  satp_supported = update_keeps Supported s.csr k v csr_satp valid.satp_supported fits.as_satp;
}

-- A register that carries no mask takes any word.
unmasked-Fits :
    (k v : ℕ)
    → v < 2 ^ 64
    → k ≢ csr_mie
    → k ≢ csr_mip
    → k ≢ csr_mideleg
    → k ≢ csr_medeleg
    → k ≢ csr_satp
    → Fits k v
unmasked-Fits k v h a b c d e = record {
  word = h;
  as_mie = λ p. absurd (a p);
  as_mip = λ p. absurd (b p);
  as_mideleg = λ p. absurd (c p);
  as_medeleg = λ p. absurd (d p);
  as_satp = λ p. absurd (e p);
}

module _ (s : State) (val : ℕ) (valid : IsValid s) (h : val < 2 ^ 64) where
  abbrev Keeps : ℕ → Type 0
  Keeps a = IsValid (write s a val)

  keeps_mstatus :
      (fs : Layout)
      → IsValid
          (record s { csr = update s.csr csr_mstatus (copy_fields fs val (s.csr csr_mstatus)) })
  keeps_mstatus fs = update-IsValid s csr_mstatus (copy_fields fs val (s.csr csr_mstatus)) valid (
      unmasked-Fits csr_mstatus _ (copy_fields-lt fs val (s.csr csr_mstatus) h (valid.words _))
        (omega arith) (omega arith) (omega arith) (omega arith) (omega arith))

  keeps_mie :
      (v : ℕ) → v < 2 ^ 64 → HasMask 0xaaa v → IsValid (record s { csr = update s.csr csr_mie v })
  keeps_mie v hv m = update-IsValid s csr_mie v valid (record {
    word = hv;
    as_mie = λ _. m;
    as_mip = λ p. absurd (omega arith);
    as_mideleg = λ p. absurd (omega arith);
    as_medeleg = λ p. absurd (omega arith);
    as_satp = λ p. absurd (omega arith);
  })

  keeps_mip :
      (v : ℕ) → v < 2 ^ 64 → HasMask 0xaaa v → IsValid (record s { csr = update s.csr csr_mip v })
  keeps_mip v hv m = update-IsValid s csr_mip v valid (record {
    word = hv;
    as_mie = λ p. absurd (omega arith);
    as_mip = λ _. m;
    as_mideleg = λ p. absurd (omega arith);
    as_medeleg = λ p. absurd (omega arith);
    as_satp = λ p. absurd (omega arith);
  })

  delegation-Keeps : Keeps csr_mideleg × Keeps csr_medeleg
  unfolding write
  delegation-Keeps = (
    update-IsValid s csr_mideleg (bit_and val 0x222) valid (record {
      word = bit_and-lt val 0x222 h;
      as_mie = λ p. absurd (omega arith);
      as_mip = λ p. absurd (omega arith);
      as_mideleg = λ _. bit_and-HasMask val 0x222;
      as_medeleg = λ p. absurd (omega arith);
      as_satp = λ p. absurd (omega arith);
    }),
    update-IsValid s csr_medeleg (bit_and val 0xf7ff) valid (record {
      word = bit_and-lt val 0xf7ff h;
      as_mie = λ p. absurd (omega arith);
      as_mip = λ p. absurd (omega arith);
      as_mideleg = λ p. absurd (omega arith);
      as_medeleg = λ _. bit_and-HasMask val 0xf7ff;
      as_satp = λ p. absurd (omega arith);
    }),
  )

  satp-Keeps : Keeps csr_satp
  unfolding write
  satp-Keeps = update-IsValid s csr_satp (satp_value (s.csr csr_satp) val) valid (record {
    word = satp_value-lt (s.csr csr_satp) val h;
    as_mie = λ p. absurd (omega arith);
    as_mip = λ p. absurd (omega arith);
    as_mideleg = λ p. absurd (omega arith);
    as_medeleg = λ p. absurd (omega arith);
    as_satp = λ _. satp_value-Supported (s.csr csr_satp) val valid.satp_supported;
  })

  plain-Keeps : (a : ℕ) → IsPlain a → Keeps a
  unfolding write
  plain-Keeps a p = rw (write_csr_plain s.csr a val p) (
      update-IsValid s a val valid (
        unmasked-Fits a val h (differs csr_mie p.not_mie) (differs csr_mip p.not_mip)
          (differs csr_mideleg p.not_mideleg) (differs csr_medeleg p.not_medeleg)
          (differs csr_satp p.not_satp)))
    where
      differs : (k : ℕ) → (a == k) ≡ false → a ≢ k
      differs k e q = ground arith

-- A write of a 64-bit value to any address keeps the registers valid.
pub write-IsValid :
    (s : State) (addr val : ℕ) → IsValid s → val < 2 ^ 64 → IsValid (write s addr val)
unfolding write
write-IsValid s addr val valid h =
    by_address (λ a. IsValid (write s a val)) (keeps_mstatus s val valid h _)
      (keeps_mie s val valid h _ (bit_and-lt val 0xaaa h) (bit_and-HasMask val 0xaaa))
      (keeps_mip s val valid h _ (bit_and-lt val 0xaaa h) (bit_and-HasMask val 0xaaa))
      (keeps_mie s val valid h _ (merge_s_interrupt-lt _ val (valid.words _) h)
        (merge_s_interrupt-HasMask _ val valid.mie_mask))
      (keeps_mip s val valid h _ (merge_s_interrupt-lt _ val (valid.words _) h)
        (merge_s_interrupt-HasMask _ val valid.mip_mask))
      (keeps_mstatus s val valid h _) (delegation-Keeps s val valid h).0
      (delegation-Keeps s val valid h).1 valid valid valid valid valid valid
      (satp-Keeps s val valid h) (plain-Keeps s val valid h) addr

-- All registers zero but misa and mstatus.
two_registers-IsValid :
    (m n : ℕ)
    → m < 2 ^ 64
    → n < 2 ^ 64
    → IsValid (record { wfi = false; csr = update (update (λ a. 0) csr_misa m) csr_mstatus n })
two_registers-IsValid m n hm hn = record {
  words = λ b.
      update_keeps (λ x. x < 2 ^ 64) (update (λ a. 0) csr_misa m) csr_mstatus n b
        (update_keeps (λ x. x < 2 ^ 64) (λ a. 0) csr_misa m b (omega arith) (λ _. hm)) (λ _. hn);
  mie_mask = λ i. omega (arith, bit-zero i);
  mip_mask = λ i. omega (arith, bit-zero i);
  mideleg_mask = λ i. omega (arith, bit-zero i);
  medeleg_mask = λ i. omega (arith, bit-zero i);
  satp_supported = inl refl;
}

-- The constructor's state is valid.
pub new_state-IsValid : IsValid new_state
unfolding new_state
new_state-IsValid = two_registers-IsValid (init_misa 0) (init_mstatus 0) (omega arith) (omega arith)

-- Reset keeps the registers valid.
reset-IsValid : (s : State) → IsValid s → IsValid (reset s)
unfolding reset
reset-IsValid s v =
    two_registers-IsValid (s.csr csr_misa) (init_mstatus 0) (v.words _) (omega arith)

-- A read of valid registers is a word.
pub read-lt : (s : State) (a : ℕ) → IsValid s → read s a < 2 ^ 64
unfolding read
read-lt s a v = ground (
  arith,
  v.words a,
  bit_and-lt (s.csr csr_mie) 0x222 (v.words csr_mie),
  bit_and-lt (s.csr csr_mip) 0x222 (v.words csr_mip),
  copy_fields-lt sstatus_read_fields (s.csr csr_mstatus) 0 (v.words csr_mstatus),
)

-- The wait flag is no register.
pub set_wfi-IsValid : (s : State) (b : Bool) → IsValid s → IsValid (set_wfi s b)
unfolding set_wfi
set_wfi-IsValid s b v = record {
  words = v.words;
  mie_mask = v.mie_mask;
  mip_mask = v.mip_mask;
  mideleg_mask = v.mideleg_mask;
  medeleg_mask = v.medeleg_mask;
  satp_supported = v.satp_supported;
}
