-- ===== src/Tests/Words.antt =====
-- Words of instructions.
use rv64_emulator.Common.{◌≡◌, refl}
use rv64_emulator.Cpu.Decode.Table.{InstToken, row, inst_table, get_token}
use rv64_emulator.Cpu.Decode.Rows.{get_token_row}

-- `addi x1, x0, 5`, by the first row.
get_token_row_example : get_token 0x00500093 ≡ InstToken.addi
unfolding inst_table
get_token_row_example =
    get_token_row 0 0x00500093 (row 0x0000707f 0x00000013 InstToken.addi) refl refl refl
