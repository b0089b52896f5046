-- ===== src/Cpu/Decode/Info.antt =====
-- `struct DecodeInfo` and its constructor.
use rv64_emulator.Common.{ℕ, ◌^◌, Bool, true, false, ◌||◌, ◌==◌, Option, none, some, if◌then◌else◌}
use rv64_emulator.Bits.Fields.{field}
use rv64_emulator.Cpu.Decode.Table.{InstToken, get_token}
use rv64_emulator.Cpu.Decode.Imm.{
  get_imm_b, get_imm_j, get_imm_i, get_imm_s, get_imm_u, get_imm_csr, get_shamt,
}

-- `enum class OpCode`
abbrev pub op_reg : ℕ
op_reg = 0b0110011

abbrev pub op_imm : ℕ
op_imm = 0b0010011

abbrev pub op_lui : ℕ
op_lui = 0b0110111

abbrev pub op_branch : ℕ
op_branch = 0b1100011

abbrev pub op_store : ℕ
op_store = 0b0100011

abbrev pub op_load : ℕ
op_load = 0b0000011

abbrev pub op_system : ℕ
op_system = 0b1110011

abbrev pub op_auipc : ℕ
op_auipc = 0b0010111

abbrev pub op_jal : ℕ
op_jal = 0b1101111

abbrev pub op_jalr : ℕ
op_jalr = 0b1100111

abbrev pub op_imm32 : ℕ
op_imm32 = 0b0011011

abbrev pub op_rv32 : ℕ
op_rv32 = 0b0111011

abbrev pub op_fence : ℕ
op_fence = 0b0001111

abbrev pub op_amo : ℕ
op_amo = 0b0101111

-- A field that the constructor does not set is 0 here; nothing reads it then.
pub record DecodeInfo : Type 0 where
  pub word : ℕ
  pub op : ℕ
  pub rd : ℕ
  pub rs1 : ℕ
  pub rs2 : ℕ
  pub pc : ℕ
  pub imm : ℕ
  pub token : InstToken
  pub size : ℕ
  pub mem_size : ℕ

-- kAccessMemBytes; `none` is a read outside the table, which the token UNKNOWN (-1) makes, and
-- which no token past SD makes since none has the opcode of a load or a store.
unfoldable pub access_mem_bytes : InstToken → Option ℕ
access_mem_bytes InstToken.lui = some 0
access_mem_bytes InstToken.auipc = some 0
access_mem_bytes InstToken.jal = some 0
access_mem_bytes InstToken.jalr = some 0
access_mem_bytes InstToken.beq = some 0
access_mem_bytes InstToken.bne = some 0
access_mem_bytes InstToken.blt = some 0
access_mem_bytes InstToken.bge = some 0
access_mem_bytes InstToken.bltu = some 0
access_mem_bytes InstToken.bgeu = some 0
access_mem_bytes InstToken.lb = some 1
access_mem_bytes InstToken.lh = some 2
access_mem_bytes InstToken.lw = some 4
access_mem_bytes InstToken.lbu = some 1
access_mem_bytes InstToken.lhu = some 2
access_mem_bytes InstToken.sb = some 1
access_mem_bytes InstToken.sh = some 2
access_mem_bytes InstToken.sw = some 4
access_mem_bytes InstToken.lwu = some 4
access_mem_bytes InstToken.ld = some 8
access_mem_bytes InstToken.sd = some 8
access_mem_bytes _ = none

abbrev pub is_csr_token : InstToken → Bool
is_csr_token InstToken.csrrw = true
is_csr_token InstToken.csrrs = true
is_csr_token InstToken.csrrc = true
is_csr_token InstToken.csrrwi = true
is_csr_token InstToken.csrrsi = true
is_csr_token InstToken.csrrci = true
is_csr_token _ = false

-- The immediate of an I-type word: its field, or the shift amount.
unfoldable pub imm_or_shamt : InstToken → ℕ → ℕ
imm_or_shamt InstToken.slli word = get_shamt word false
imm_or_shamt InstToken.srli word = get_shamt word false
imm_or_shamt InstToken.srai word = get_shamt word false
imm_or_shamt InstToken.slliw word = get_shamt word true
imm_or_shamt InstToken.srliw word = get_shamt word true
imm_or_shamt InstToken.sraiw word = get_shamt word true
imm_or_shamt _ word = get_imm_i word

-- The switch that sets `imm`.
unfoldable pub imm_of : ℕ → InstToken → ℕ → ℕ
unfolding imm_or_shamt
imm_of op token word =
    if op == op_store
    then get_imm_s word
    else if op == op_branch
    then get_imm_b word
    else if op == op_auipc || op == op_lui
    then get_imm_u word
    else if op == op_jal
    then get_imm_j word
    else if op == op_imm || op == op_imm32 || op == op_jalr || op == op_load
    then imm_or_shamt token word
    else if op == op_system
    then (if is_csr_token token then get_imm_csr word else 0)
    else 0

-- The switch that sets `mem_size`. An AMO's width has three bits, so the shift fits a uint8_t.
unfoldable pub mem_size_of : ℕ → InstToken → ℕ → Option ℕ
unfolding access_mem_bytes
mem_size_of op token word =
    if op == op_amo
    then some (2 ^ field word 12 3)
    else if op == op_load || op == op_store
    then access_mem_bytes token
    else some 0

-- DecodeInfo::DecodeInfo; `none` is the read outside kAccessMemBytes.
unfoldable pub decode : ℕ → ℕ → Option DecodeInfo
unfolding imm_of mem_size_of
decode word addr =
    let op = field word 0 7 in
    let token = get_token word in
    elim (mem_size_of op token word) [
      | none ↦ none
      | some mem_size ↦ some (record {
        word = word;
        op = op;
        rd = field word 7 5;
        rs1 = field word 15 5;
        rs2 = field word 20 5;
        pc = addr;
        imm = imm_of op token word;
        token = token;
        size = 4;
        mem_size = mem_size;
      })
    ]
