-- ===== src/Cpu/Csr/Cases.antt =====
-- The registers that Read and Write treat by name, and a split of a statement over them.
use rv64_emulator.Common.{ℕ, ◌≡◌, sym, false, inl, inr, ◌==◌, ==_iff, Bool-cases}
use mathlib.Core.Path.{subst}
use rv64_emulator.Cpu.Csr.Addr.{
  csr_misa, csr_mstatus, csr_sstatus, csr_sie, csr_sip, csr_mie, csr_mip, csr_tselect, csr_tdata1,
  csr_mideleg, csr_medeleg, csr_mvendor_id, csr_march_id, csr_mimp_id, csr_satp,
}
use rv64_emulator.Cpu.Csr.State.{update, write_csr}

-- An address that no `case` of the code names.
pub record IsPlain (a : ℕ) : Type 0 where
  pub not_sstatus : (a == csr_sstatus) ≡ false
  pub not_mie : (a == csr_mie) ≡ false
  pub not_mip : (a == csr_mip) ≡ false
  pub not_sie : (a == csr_sie) ≡ false
  pub not_sip : (a == csr_sip) ≡ false
  pub not_mstatus : (a == csr_mstatus) ≡ false
  pub not_mideleg : (a == csr_mideleg) ≡ false
  pub not_medeleg : (a == csr_medeleg) ≡ false
  pub not_misa : (a == csr_misa) ≡ false
  pub not_tselect : (a == csr_tselect) ≡ false
  pub not_tdata1 : (a == csr_tdata1) ≡ false
  pub not_mvendor_id : (a == csr_mvendor_id) ≡ false
  pub not_march_id : (a == csr_march_id) ≡ false
  pub not_mimp_id : (a == csr_mimp_id) ≡ false
  pub not_satp : (a == csr_satp) ≡ false

-- Split on one address.
split_at : (k a : ℕ) (P : ℕ → Type 0) → P k → ((a == k) ≡ false → P a) → P a
split_at k a P yes_case no_case = elim (Bool-cases (a == k)) [
  | inl e ↦ subst P (sym ((==_iff a k).0 e)) yes_case
  | inr e ↦ no_case e
]

-- A statement about every address follows from those about the named registers and about the rest.
pub by_address :
    (P : ℕ → Type 0)
    → P csr_sstatus
    → P csr_mie
    → P csr_mip
    → P csr_sie
    → P csr_sip
    → P csr_mstatus
    → P csr_mideleg
    → P csr_medeleg
    → P csr_misa
    → P csr_tselect
    → P csr_tdata1
    → P csr_mvendor_id
    → P csr_march_id
    → P csr_mimp_id
    → P csr_satp
    → ((a : ℕ) → IsPlain a → P a)
    → (a : ℕ) → P a
by_address P p0 p1 p2 p3 p4 p5 p6 p7 p8 p9 p10 p11 p12 p13 p14 rest a =
    split_at csr_sstatus a P p0 λ n0. split_at csr_mie a P p1 λ n1. split_at csr_mip a P p2 λ n2.
      split_at csr_sie a P p3 λ n3. split_at csr_sip a P p4 λ n4. split_at csr_mstatus a P p5 λ n5.
        split_at csr_mideleg a P p6 λ n6. split_at csr_medeleg a P p7 λ n7.
          split_at csr_misa a P p8 λ n8. split_at csr_tselect a P p9 λ n9.
            split_at csr_tdata1 a P p10 λ n10. split_at csr_mvendor_id a P p11 λ n11.
              split_at csr_march_id a P p12 λ n12. split_at csr_mimp_id a P p13 λ n13.
                split_at csr_satp a P p14 λ n14. rest a (record {
                  not_sstatus = n0;
                  not_mie = n1;
                  not_mip = n2;
                  not_sie = n3;
                  not_sip = n4;
                  not_mstatus = n5;
                  not_mideleg = n6;
                  not_medeleg = n7;
                  not_misa = n8;
                  not_tselect = n9;
                  not_tdata1 = n10;
                  not_mvendor_id = n11;
                  not_march_id = n12;
                  not_mimp_id = n13;
                  not_satp = n14;
                })

-- The default case of the switch in `State::Write`.
pub write_csr_plain : (c : ℕ → ℕ) (a val : ℕ) → IsPlain a → write_csr c a val ≡ update c a val
unfolding write_csr
write_csr_plain c a val p = rw (
  p.not_sstatus, p.not_mie, p.not_mip, p.not_sie, p.not_sip, p.not_mstatus, p.not_mideleg,
  p.not_medeleg, p.not_misa, p.not_tselect, p.not_tdata1, p.not_mvendor_id, p.not_march_id,
  p.not_mimp_id, p.not_satp,
)
