-- ===== src/Cpu/Csr/Layout.antt =====
-- The bit-fields of `MstatusDesc`, `SstatusDesc` and `SatpDesc`, as offsets and widths.
use rv64_emulator.Common.{ℕ, [], ◌∷◌}
use rv64_emulator.Bits.Copy.{Layout}

-- A field of a descriptor.
abbrev pub sie : ℕ × ℕ
sie = (1, 1)

abbrev pub mie : ℕ × ℕ
mie = (3, 1)

abbrev pub spie : ℕ × ℕ
spie = (5, 1)

abbrev pub ube : ℕ × ℕ
ube = (6, 1)

abbrev pub mpie : ℕ × ℕ
mpie = (7, 1)

abbrev pub spp : ℕ × ℕ
spp = (8, 1)

abbrev pub vs : ℕ × ℕ
vs = (9, 2)

abbrev pub mpp : ℕ × ℕ
mpp = (11, 2)

abbrev pub fs : ℕ × ℕ
fs = (13, 2)

abbrev pub xs : ℕ × ℕ
xs = (15, 2)

abbrev pub mprv : ℕ × ℕ
mprv = (17, 1)

abbrev pub sum : ℕ × ℕ
sum = (18, 1)

abbrev pub mxr : ℕ × ℕ
mxr = (19, 1)

abbrev pub tvm : ℕ × ℕ
tvm = (20, 1)

abbrev pub tw : ℕ × ℕ
tw = (21, 1)

abbrev pub tsr : ℕ × ℕ
tsr = (22, 1)

abbrev pub uxl : ℕ × ℕ
uxl = (32, 2)

abbrev pub sxl : ℕ × ℕ
sxl = (34, 2)

abbrev pub sd : ℕ × ℕ
sd = (63, 1)

-- `SatpDesc`
abbrev pub satp_ppn : ℕ × ℕ
satp_ppn = (0, 44)

abbrev pub satp_asid : ℕ × ℕ
satp_asid = (44, 16)

abbrev pub satp_mode : ℕ × ℕ
satp_mode = (60, 4)

-- `MisaDesc`
abbrev pub misa_a : ℕ × ℕ
misa_a = (0, 1)

abbrev pub misa_i : ℕ × ℕ
misa_i = (8, 1)

abbrev pub misa_m : ℕ × ℕ
misa_m = (12, 1)

abbrev pub misa_s : ℕ × ℕ
misa_s = (18, 1)

abbrev pub misa_u : ℕ × ℕ
misa_u = (20, 1)

abbrev pub misa_mxl : ℕ × ℕ
misa_mxl = (62, 2)

-- The fields that `State::Read` copies for sstatus.
abbrev pub sstatus_read_fields : Layout
sstatus_read_fields = sie ∷ spie ∷ ube ∷ spp ∷ vs ∷ fs ∷ xs ∷ sum ∷ mxr ∷ uxl ∷ sd ∷ []

-- The fields that `State::Write` copies for sstatus.
abbrev pub sstatus_write_fields : Layout
sstatus_write_fields = sie ∷ spie ∷ spp ∷ sum ∷ mxr ∷ []

-- The fields that `State::Write` copies for mstatus.
abbrev pub mstatus_write_fields : Layout
mstatus_write_fields = sie ∷ mie ∷ spie ∷ mpie ∷ spp ∷ mpp ∷ mprv ∷ sum ∷ mxr ∷ tvm ∷ tw ∷ tsr ∷ []
