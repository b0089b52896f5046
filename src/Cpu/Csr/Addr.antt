-- ===== src/Cpu/Csr/Addr.antt =====
-- Addresses and masks of include/cpu/csr.h.
use rv64_emulator.Common.{ℕ}

abbrev pub csr_capacity : ℕ
csr_capacity = 4096

abbrev pub csr_mvendor_id : ℕ
csr_mvendor_id = 0xf11

abbrev pub csr_march_id : ℕ
csr_march_id = 0xf12

abbrev pub csr_mimp_id : ℕ
csr_mimp_id = 0xf13

abbrev pub csr_mhart_id : ℕ
csr_mhart_id = 0xf14

abbrev pub csr_mstatus : ℕ
csr_mstatus = 0x300

abbrev pub csr_sstatus : ℕ
csr_sstatus = 0x100

abbrev pub csr_misa : ℕ
csr_misa = 0x301

abbrev pub csr_medeleg : ℕ
csr_medeleg = 0x302

abbrev pub csr_mideleg : ℕ
csr_mideleg = 0x303

abbrev pub csr_mie : ℕ
csr_mie = 0x304

abbrev pub csr_mtvec : ℕ
csr_mtvec = 0x305

abbrev pub csr_mcounteren : ℕ
csr_mcounteren = 0x306

abbrev pub csr_mscratch : ℕ
csr_mscratch = 0x340

abbrev pub csr_mepc : ℕ
csr_mepc = 0x341

abbrev pub csr_mcause : ℕ
csr_mcause = 0x342

abbrev pub csr_mtval : ℕ
csr_mtval = 0x343

abbrev pub csr_mip : ℕ
csr_mip = 0x344

abbrev pub csr_mcycle : ℕ
csr_mcycle = 0xb00

abbrev pub csr_minstret : ℕ
csr_minstret = 0xb02

abbrev pub csr_sie : ℕ
csr_sie = 0x104

abbrev pub csr_sip : ℕ
csr_sip = 0x144

abbrev pub csr_time : ℕ
csr_time = 0xc01

abbrev pub csr_sepc : ℕ
csr_sepc = 0x141

abbrev pub csr_scause : ℕ
csr_scause = 0x142

abbrev pub csr_stval : ℕ
csr_stval = 0x143

abbrev pub csr_stvec : ℕ
csr_stvec = 0x105

abbrev pub csr_m_interrupt_mask : ℕ
csr_m_interrupt_mask = 0xaaa

abbrev pub csr_s_interrupt_mask : ℕ
csr_s_interrupt_mask = 0x222

abbrev pub csr_s_exception_mask : ℕ
csr_s_exception_mask = 0xf7ff

abbrev pub csr_satp : ℕ
csr_satp = 0x180

abbrev pub csr_tselect : ℕ
csr_tselect = 0x7a0

abbrev pub csr_tdata1 : ℕ
csr_tdata1 = 0x7a1

abbrev pub csr_mconfig_ptr : ℕ
csr_mconfig_ptr = 0xf15

abbrev pub csr_scounteren : ℕ
csr_scounteren = 0x106

abbrev pub csr_sscratch : ℕ
csr_sscratch = 0x140

abbrev pub csr_uepc : ℕ
csr_uepc = 0x041

abbrev pub csr_ucause : ℕ
csr_ucause = 0x042

abbrev pub csr_utval : ℕ
csr_utval = 0x043

abbrev pub csr_utvec : ℕ
csr_utvec = 0x005
