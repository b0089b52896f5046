-- ===== src/Cpu/Decode/Table.antt =====
-- `enum class InstToken` and kInstTable of include/cpu/decode.h.
use rv64_emulator.Common.{ℕ, List, [], ◌∷◌, ◌++◌, bit_and, ◌==◌, if◌then◌else◌}

-- In the order of the source; `unknown` is -1, and the others count from 0.
pub data InstToken : Type 0 where
  unknown lui auipc jal jalr beq bne blt bge bltu bgeu lb lh lw lbu lhu sb sh sw lwu : InstToken
  ld sd addi slti sltiu xori ori andi add sub sll slt sltu xor srl sra or and fence : InstToken
  fence_tso pause ecall ebreak slli srli srai addiw slliw srliw sraiw addw subw sllw : InstToken
  srlw sraw mret wfi csrrw csrrs csrrc csrrwi csrrsi csrrci fence_i mul mulh mulhsu : InstToken
  mulhu div divu rem remu mulw divw divuw remw remuw sret sfence_vma lr_w lr_d sc_w : InstToken
  sc_d amoswap_d amoswap_w amoadd_d amoadd_w amoxor_d amoxor_w amoand_d amoand_w : InstToken
  amoor_d amoor_w amomin_d amomin_w amomax_d amomax_w amominu_d amominu_w amomaxu_d : InstToken
  amomaxu_w : InstToken

-- `InstDesc`, without the name that is only printed.
pub record InstDesc : Type 0 where
  pub mask : ℕ
  pub signature : ℕ
  pub token : InstToken

abbrev pub row : ℕ → ℕ → InstToken → InstDesc
row mask signature token = record { mask = mask; signature = signature; token = token }

-- The rows, in the order of the source, in parts.
abbrev frequent_rows : List InstDesc
frequent_rows =
    row 0x0000707f 0x00000013 InstToken.addi
    ∷ row 0x0000707f 0x00003003 InstToken.ld
    ∷ row 0x0000707f 0x00003023 InstToken.sd
    ∷ row 0x0000707f 0x00001063 InstToken.bne
    ∷ row 0x0000007f 0x00000017 InstToken.auipc
    ∷ row 0x0000007f 0x00000037 InstToken.lui
    ∷ row 0xfc00707f 0x00001013 InstToken.slli
    ∷ row 0x0000707f 0x0000001b InstToken.addiw
    ∷ row 0x0000007f 0x0000006f InstToken.jal
    ∷ row 0xfe00707f 0x00000033 InstToken.add
    ∷ row 0x0000707f 0x00000067 InstToken.jalr
    ∷ row 0x0000707f 0x00000063 InstToken.beq
    ∷ row 0x0000707f 0x00004063 InstToken.blt
    ∷ row 0x0000707f 0x00005063 InstToken.bge
    ∷ row 0x0000707f 0x00006063 InstToken.bltu
    ∷ row 0x0000707f 0x00007063 InstToken.bgeu
    ∷ row 0x0000707f 0x00000003 InstToken.lb
    ∷ row 0x0000707f 0x00001003 InstToken.lh
    ∷ row 0x0000707f 0x00002003 InstToken.lw
    ∷ row 0x0000707f 0x00004003 InstToken.lbu
    ∷ row 0x0000707f 0x00005003 InstToken.lhu
    ∷ []

abbrev store_rows : List InstDesc
store_rows =
    row 0x0000707f 0x00000023 InstToken.sb
    ∷ row 0x0000707f 0x00001023 InstToken.sh
    ∷ row 0x0000707f 0x00002023 InstToken.sw
    ∷ row 0x0000707f 0x00002013 InstToken.slti
    ∷ row 0x0000707f 0x00003013 InstToken.sltiu
    ∷ row 0x0000707f 0x00004013 InstToken.xori
    ∷ row 0x0000707f 0x00006013 InstToken.ori
    ∷ row 0x0000707f 0x00007013 InstToken.andi
    ∷ row 0xfe00707f 0x40000033 InstToken.sub
    ∷ row 0xfe00707f 0x00001033 InstToken.sll
    ∷ row 0xfe00707f 0x00002033 InstToken.slt
    ∷ row 0xfe00707f 0x00003033 InstToken.sltu
    ∷ row 0xfe00707f 0x00004033 InstToken.xor
    ∷ row 0xfe00707f 0x00005033 InstToken.srl
    ∷ row 0xfe00707f 0x40005033 InstToken.sra
    ∷ row 0xfe00707f 0x00006033 InstToken.or
    ∷ row 0xfe00707f 0x00007033 InstToken.and
    ∷ []

abbrev fence_rows : List InstDesc
fence_rows =
    row 0x0000707f 0x0000000f InstToken.fence
    ∷ row 0xfff0707f 0x8330000f InstToken.fence_tso
    ∷ row 0xffffffff 0x100000f InstToken.pause
    ∷ row 0xffffffff 0x00000073 InstToken.ecall
    ∷ row 0xffffffff 0x00100073 InstToken.ebreak
    ∷ row 0x0000707f 0x00006003 InstToken.lwu
    ∷ row 0xfc00707f 0x00005013 InstToken.srli
    ∷ row 0xfc00707f 0x40005013 InstToken.srai
    ∷ row 0xfe00707f 0x0000101b InstToken.slliw
    ∷ row 0xfc00707f 0x0000501b InstToken.srliw
    ∷ row 0xfc00707f 0x4000501b InstToken.sraiw
    ∷ row 0xfe00707f 0x0000003b InstToken.addw
    ∷ row 0xfe00707f 0x4000003b InstToken.subw
    ∷ row 0xfe00707f 0x0000103b InstToken.sllw
    ∷ row 0xfe00707f 0x0000503b InstToken.srlw
    ∷ row 0xfe00707f 0x4000503b InstToken.sraw
    ∷ row 0xffffffff 0x30200073 InstToken.mret
    ∷ row 0xffffffff 0x10500073 InstToken.wfi
    ∷ []

abbrev csr_mul_rows : List InstDesc
csr_mul_rows =
    row 0x0000707f 0x00001073 InstToken.csrrw
    ∷ row 0x0000707f 0x00002073 InstToken.csrrs
    ∷ row 0x0000707f 0x00003073 InstToken.csrrc
    ∷ row 0x0000707f 0x00005073 InstToken.csrrwi
    ∷ row 0x0000707f 0x00006073 InstToken.csrrsi
    ∷ row 0x0000707f 0x00007073 InstToken.csrrci
    ∷ row 0x0000707f 0x0000100f InstToken.fence_i
    ∷ row 0xfe00707f 0x2000033 InstToken.mul
    ∷ row 0xfe00707f 0x2001033 InstToken.mulh
    ∷ row 0xfe00707f 0x2002033 InstToken.mulhsu
    ∷ row 0xfe00707f 0x2003033 InstToken.mulhu
    ∷ row 0xfe00707f 0x2004033 InstToken.div
    ∷ row 0xfe00707f 0x2005033 InstToken.divu
    ∷ row 0xfe00707f 0x2006033 InstToken.rem
    ∷ row 0xfe00707f 0x2007033 InstToken.remu
    ∷ row 0xfe00707f 0x200003b InstToken.mulw
    ∷ row 0xfe00707f 0x200403b InstToken.divw
    ∷ row 0xfe00707f 0x200503b InstToken.divuw
    ∷ row 0xfe00707f 0x200603b InstToken.remw
    ∷ row 0xfe00707f 0x200703b InstToken.remuw
    ∷ []

abbrev supervisor_rows : List InstDesc
supervisor_rows =
    row 0xffffffff 0x10200073 InstToken.sret
    ∷ row 0xfe007fff 0x12000073 InstToken.sfence_vma
    ∷ row 0xf9f0707f 0x1000202f InstToken.lr_w
    ∷ row 0xf9f0707f 0x1000302f InstToken.lr_d
    ∷ row 0xf800707f 0x1800202f InstToken.sc_w
    ∷ row 0xf800707f 0x1800302f InstToken.sc_d
    ∷ []

abbrev amo_rows : List InstDesc
amo_rows =
    row 0xf800707f 0x800302f InstToken.amoswap_d
    ∷ row 0xf800707f 0x800202f InstToken.amoswap_w
    ∷ row 0xf800707f 0x302f InstToken.amoadd_d
    ∷ row 0xf800707f 0x202f InstToken.amoadd_w
    ∷ row 0xf800707f 0x2000302f InstToken.amoxor_d
    ∷ row 0xf800707f 0x2000202f InstToken.amoxor_w
    ∷ row 0xf800707f 0x6000302f InstToken.amoand_d
    ∷ row 0xf800707f 0x6000202f InstToken.amoand_w
    ∷ row 0xf800707f 0x4000302f InstToken.amoor_d
    ∷ row 0xf800707f 0x4000202f InstToken.amoor_w
    ∷ row 0xf800707f 0x8000302f InstToken.amomin_d
    ∷ row 0xf800707f 0x8000202f InstToken.amomin_w
    ∷ row 0xf800707f 0xa000302f InstToken.amomax_d
    ∷ row 0xf800707f 0xa000202f InstToken.amomax_w
    ∷ row 0xf800707f 0xc000302f InstToken.amominu_d
    ∷ row 0xf800707f 0xc000202f InstToken.amominu_w
    ∷ row 0xf800707f 0xe000302f InstToken.amomaxu_d
    ∷ row 0xf800707f 0xe000202f InstToken.amomaxu_w
    ∷ []

unfoldable pub inst_table : List InstDesc
inst_table =
    frequent_rows ++ (store_rows ++ (fence_rows ++ (csr_mul_rows ++ (supervisor_rows ++ amo_rows))))

-- The loop of GetToken over the table: the first entry that matches.
unfoldable pub first_match : List InstDesc → ℕ → InstToken
first_match [] word = InstToken.unknown
first_match (inst ∷ insts) word =
    if bit_and word inst.mask == inst.signature then inst.token else first_match insts word

-- GetToken
unfoldable pub get_token : ℕ → InstToken
unfolding inst_table first_match
get_token word = first_match inst_table word
