-- ===== src/App/Test/Code.antt =====
-- The machine code of app/test.c, byte by byte. Each makes the characters of a text, one after the
-- other, and stores them at the UART; the last two begin with a signature and the size of the code.
-- Of `code_data` the tests use the address only.
use s3k_monitor.Prelude.{ℕ, List, [], ◌∷◌}

abbrev pub code_out_of_bounds : List ℕ
code_out_of_bounds =
    0x01 ∷ 0x11 ∷ 0x22 ∷ 0xec ∷ 0x00 ∷ 0x10 ∷ 0xb7 ∷ 0x07 ∷ 0x00 ∷ 0x10 ∷ 0x23 ∷ 0x34 ∷ 0xf4 ∷ 0xfe
    ∷ 0x83 ∷ 0x37 ∷ 0x84 ∷ 0xfe ∷ 0x13 ∷ 0x07 ∷ 0x50 ∷ 0x04 ∷ 0x23 ∷ 0x80 ∷ 0xe7 ∷ 0x00 ∷ 0x83
    ∷ 0x37 ∷ 0x84 ∷ 0xfe ∷ 0x13 ∷ 0x07 ∷ 0x80 ∷ 0x07 ∷ 0x23 ∷ 0x80 ∷ 0xe7 ∷ 0x00 ∷ 0x83 ∷ 0x37
    ∷ 0x84 ∷ 0xfe ∷ 0x13 ∷ 0x07 ∷ 0x50 ∷ 0x06 ∷ 0x23 ∷ 0x80 ∷ 0xe7 ∷ 0x00 ∷ 0x83 ∷ 0x37 ∷ 0x84
    ∷ 0xfe ∷ 0x13 ∷ 0x07 ∷ 0x30 ∷ 0x06 ∷ 0x23 ∷ 0x80 ∷ 0xe7 ∷ 0x00 ∷ 0x83 ∷ 0x37 ∷ 0x84 ∷ 0xfe
    ∷ 0x13 ∷ 0x07 ∷ 0x50 ∷ 0x07 ∷ 0x23 ∷ 0x80 ∷ 0xe7 ∷ 0x00 ∷ 0x83 ∷ 0x37 ∷ 0x84 ∷ 0xfe ∷ 0x13
    ∷ 0x07 ∷ 0x40 ∷ 0x07 ∷ 0x23 ∷ 0x80 ∷ 0xe7 ∷ 0x00 ∷ 0x83 ∷ 0x37 ∷ 0x84 ∷ 0xfe ∷ 0x13 ∷ 0x07
    ∷ 0x90 ∷ 0x06 ∷ 0x23 ∷ 0x80 ∷ 0xe7 ∷ 0x00 ∷ 0x83 ∷ 0x37 ∷ 0x84 ∷ 0xfe ∷ 0x13 ∷ 0x07 ∷ 0xe0
    ∷ 0x06 ∷ 0x23 ∷ 0x80 ∷ 0xe7 ∷ 0x00 ∷ 0x83 ∷ 0x37 ∷ 0x84 ∷ 0xfe ∷ 0x13 ∷ 0x07 ∷ 0x70 ∷ 0x06
    ∷ 0x23 ∷ 0x80 ∷ 0xe7 ∷ 0x00 ∷ 0x83 ∷ 0x37 ∷ 0x84 ∷ 0xfe ∷ 0x13 ∷ 0x07 ∷ 0x00 ∷ 0x02 ∷ 0x23
    ∷ 0x80 ∷ 0xe7 ∷ 0x00 ∷ 0x83 ∷ 0x37 ∷ 0x84 ∷ 0xfe ∷ 0x13 ∷ 0x07 ∷ 0x60 ∷ 0x06 ∷ 0x23 ∷ 0x80
    ∷ 0xe7 ∷ 0x00 ∷ 0x83 ∷ 0x37 ∷ 0x84 ∷ 0xfe ∷ 0x13 ∷ 0x07 ∷ 0x20 ∷ 0x07 ∷ 0x23 ∷ 0x80 ∷ 0xe7
    ∷ 0x00 ∷ 0x83 ∷ 0x37 ∷ 0x84 ∷ 0xfe ∷ 0x13 ∷ 0x07 ∷ 0xf0 ∷ 0x06 ∷ 0x23 ∷ 0x80 ∷ 0xe7 ∷ 0x00
    ∷ 0x83 ∷ 0x37 ∷ 0x84 ∷ 0xfe ∷ 0x13 ∷ 0x07 ∷ 0xd0 ∷ 0x06 ∷ 0x23 ∷ 0x80 ∷ 0xe7 ∷ 0x00 ∷ 0x83
    ∷ 0x37 ∷ 0x84 ∷ 0xfe ∷ 0x13 ∷ 0x07 ∷ 0x00 ∷ 0x02 ∷ 0x23 ∷ 0x80 ∷ 0xe7 ∷ 0x00 ∷ 0x83 ∷ 0x37
    ∷ 0x84 ∷ 0xfe ∷ 0x13 ∷ 0x07 ∷ 0xf0 ∷ 0x06 ∷ 0x23 ∷ 0x80 ∷ 0xe7 ∷ 0x00 ∷ 0x83 ∷ 0x37 ∷ 0x84
    ∷ 0xfe ∷ 0x13 ∷ 0x07 ∷ 0x50 ∷ 0x07 ∷ 0x23 ∷ 0x80 ∷ 0xe7 ∷ 0x00 ∷ 0x83 ∷ 0x37 ∷ 0x84 ∷ 0xfe
    ∷ 0x13 ∷ 0x07 ∷ 0x40 ∷ 0x07 ∷ 0x23 ∷ 0x80 ∷ 0xe7 ∷ 0x00 ∷ 0x83 ∷ 0x37 ∷ 0x84 ∷ 0xfe ∷ 0x13
    ∷ 0x07 ∷ 0x00 ∷ 0x02 ∷ 0x23 ∷ 0x80 ∷ 0xe7 ∷ 0x00 ∷ 0x83 ∷ 0x37 ∷ 0x84 ∷ 0xfe ∷ 0x13 ∷ 0x07
    ∷ 0xf0 ∷ 0x06 ∷ 0x23 ∷ 0x80 ∷ 0xe7 ∷ 0x00 ∷ 0x83 ∷ 0x37 ∷ 0x84 ∷ 0xfe ∷ 0x13 ∷ 0x07 ∷ 0x60
    ∷ 0x06 ∷ 0x23 ∷ 0x80 ∷ 0xe7 ∷ 0x00 ∷ 0x83 ∷ 0x37 ∷ 0x84 ∷ 0xfe ∷ 0x13 ∷ 0x07 ∷ 0x00 ∷ 0x02
    ∷ 0x23 ∷ 0x80 ∷ 0xe7 ∷ 0x00 ∷ 0x83 ∷ 0x37 ∷ 0x84 ∷ 0xfe ∷ 0x13 ∷ 0x07 ∷ 0x20 ∷ 0x06 ∷ 0x23
    ∷ 0x80 ∷ 0xe7 ∷ 0x00 ∷ 0x83 ∷ 0x37 ∷ 0x84 ∷ 0xfe ∷ 0x13 ∷ 0x07 ∷ 0xf0 ∷ 0x06 ∷ 0x23 ∷ 0x80
    ∷ 0xe7 ∷ 0x00 ∷ 0x83 ∷ 0x37 ∷ 0x84 ∷ 0xfe ∷ 0x13 ∷ 0x07 ∷ 0x50 ∷ 0x07 ∷ 0x23 ∷ 0x80 ∷ 0xe7
    ∷ 0x00 ∷ 0x83 ∷ 0x37 ∷ 0x84 ∷ 0xfe ∷ 0x13 ∷ 0x07 ∷ 0x30 ∷ 0x06 ∷ 0x23 ∷ 0x80 ∷ 0xe7 ∷ 0x00
    ∷ 0x83 ∷ 0x37 ∷ 0x84 ∷ 0xfe ∷ 0x13 ∷ 0x07 ∷ 0x40 ∷ 0x06 ∷ 0x23 ∷ 0x80 ∷ 0xe7 ∷ 0x00 ∷ 0x83
    ∷ 0x37 ∷ 0x84 ∷ 0xfe ∷ 0x13 ∷ 0x07 ∷ 0x30 ∷ 0x07 ∷ 0x23 ∷ 0x80 ∷ 0xe7 ∷ 0x00 ∷ 0x83 ∷ 0x37
    ∷ 0x84 ∷ 0xfe ∷ 0x13 ∷ 0x07 ∷ 0x10 ∷ 0x02 ∷ 0x23 ∷ 0x80 ∷ 0xe7 ∷ 0x00 ∷ 0x83 ∷ 0x37 ∷ 0x84
    ∷ 0xfe ∷ 0x29 ∷ 0x47 ∷ 0x23 ∷ 0x80 ∷ 0xe7 ∷ 0x00 ∷ 0x01 ∷ 0x00 ∷ 0x62 ∷ 0x64 ∷ 0x05 ∷ 0x61
    ∷ 0x82 ∷ 0x80 ∷ []

abbrev pub code_new_code : List ℕ
code_new_code =
    0x44 ∷ 0xdf ∷ 0xd5 ∷ 0x04 ∷ 0x5a ∷ 0x89 ∷ 0x8d ∷ 0x1b ∷ 0x0e ∷ 0xe3 ∷ 0x21 ∷ 0x42 ∷ 0x04 ∷ 0xf4
    ∷ 0x5a ∷ 0x8e ∷ 0x40 ∷ 0x01 ∷ 0x00 ∷ 0x00 ∷ 0x00 ∷ 0x00 ∷ 0x00 ∷ 0x00 ∷ 0x00 ∷ 0x00 ∷ 0x00
    ∷ 0x00 ∷ 0x00 ∷ 0x00 ∷ 0x00 ∷ 0x00 ∷ 0x01 ∷ 0x11 ∷ 0x22 ∷ 0xec ∷ 0x00 ∷ 0x10 ∷ 0xb7 ∷ 0x07
    ∷ 0x00 ∷ 0x10 ∷ 0x23 ∷ 0x34 ∷ 0xf4 ∷ 0xfe ∷ 0x83 ∷ 0x37 ∷ 0x84 ∷ 0xfe ∷ 0x13 ∷ 0x07 ∷ 0x50
    ∷ 0x04 ∷ 0x23 ∷ 0x80 ∷ 0xe7 ∷ 0x00 ∷ 0x83 ∷ 0x37 ∷ 0x84 ∷ 0xfe ∷ 0x13 ∷ 0x07 ∷ 0x80 ∷ 0x07
    ∷ 0x23 ∷ 0x80 ∷ 0xe7 ∷ 0x00 ∷ 0x83 ∷ 0x37 ∷ 0x84 ∷ 0xfe ∷ 0x13 ∷ 0x07 ∷ 0x50 ∷ 0x06 ∷ 0x23
    ∷ 0x80 ∷ 0xe7 ∷ 0x00 ∷ 0x83 ∷ 0x37 ∷ 0x84 ∷ 0xfe ∷ 0x13 ∷ 0x07 ∷ 0x30 ∷ 0x06 ∷ 0x23 ∷ 0x80
    ∷ 0xe7 ∷ 0x00 ∷ 0x83 ∷ 0x37 ∷ 0x84 ∷ 0xfe ∷ 0x13 ∷ 0x07 ∷ 0x50 ∷ 0x07 ∷ 0x23 ∷ 0x80 ∷ 0xe7
    ∷ 0x00 ∷ 0x83 ∷ 0x37 ∷ 0x84 ∷ 0xfe ∷ 0x13 ∷ 0x07 ∷ 0x40 ∷ 0x07 ∷ 0x23 ∷ 0x80 ∷ 0xe7 ∷ 0x00
    ∷ 0x83 ∷ 0x37 ∷ 0x84 ∷ 0xfe ∷ 0x13 ∷ 0x07 ∷ 0x90 ∷ 0x06 ∷ 0x23 ∷ 0x80 ∷ 0xe7 ∷ 0x00 ∷ 0x83
    ∷ 0x37 ∷ 0x84 ∷ 0xfe ∷ 0x13 ∷ 0x07 ∷ 0xe0 ∷ 0x06 ∷ 0x23 ∷ 0x80 ∷ 0xe7 ∷ 0x00 ∷ 0x83 ∷ 0x37
    ∷ 0x84 ∷ 0xfe ∷ 0x13 ∷ 0x07 ∷ 0x70 ∷ 0x06 ∷ 0x23 ∷ 0x80 ∷ 0xe7 ∷ 0x00 ∷ 0x83 ∷ 0x37 ∷ 0x84
    ∷ 0xfe ∷ 0x13 ∷ 0x07 ∷ 0x00 ∷ 0x02 ∷ 0x23 ∷ 0x80 ∷ 0xe7 ∷ 0x00 ∷ 0x83 ∷ 0x37 ∷ 0x84 ∷ 0xfe
    ∷ 0x13 ∷ 0x07 ∷ 0x60 ∷ 0x06 ∷ 0x23 ∷ 0x80 ∷ 0xe7 ∷ 0x00 ∷ 0x83 ∷ 0x37 ∷ 0x84 ∷ 0xfe ∷ 0x13
    ∷ 0x07 ∷ 0x20 ∷ 0x07 ∷ 0x23 ∷ 0x80 ∷ 0xe7 ∷ 0x00 ∷ 0x83 ∷ 0x37 ∷ 0x84 ∷ 0xfe ∷ 0x13 ∷ 0x07
    ∷ 0xf0 ∷ 0x06 ∷ 0x23 ∷ 0x80 ∷ 0xe7 ∷ 0x00 ∷ 0x83 ∷ 0x37 ∷ 0x84 ∷ 0xfe ∷ 0x13 ∷ 0x07 ∷ 0xd0
    ∷ 0x06 ∷ 0x23 ∷ 0x80 ∷ 0xe7 ∷ 0x00 ∷ 0x83 ∷ 0x37 ∷ 0x84 ∷ 0xfe ∷ 0x13 ∷ 0x07 ∷ 0x00 ∷ 0x02
    ∷ 0x23 ∷ 0x80 ∷ 0xe7 ∷ 0x00 ∷ 0x83 ∷ 0x37 ∷ 0x84 ∷ 0xfe ∷ 0x13 ∷ 0x07 ∷ 0xe0 ∷ 0x04 ∷ 0x23
    ∷ 0x80 ∷ 0xe7 ∷ 0x00 ∷ 0x83 ∷ 0x37 ∷ 0x84 ∷ 0xfe ∷ 0x13 ∷ 0x07 ∷ 0x50 ∷ 0x04 ∷ 0x23 ∷ 0x80
    ∷ 0xe7 ∷ 0x00 ∷ 0x83 ∷ 0x37 ∷ 0x84 ∷ 0xfe ∷ 0x13 ∷ 0x07 ∷ 0x70 ∷ 0x05 ∷ 0x23 ∷ 0x80 ∷ 0xe7
    ∷ 0x00 ∷ 0x83 ∷ 0x37 ∷ 0x84 ∷ 0xfe ∷ 0x13 ∷ 0x07 ∷ 0x00 ∷ 0x02 ∷ 0x23 ∷ 0x80 ∷ 0xe7 ∷ 0x00
    ∷ 0x83 ∷ 0x37 ∷ 0x84 ∷ 0xfe ∷ 0x13 ∷ 0x07 ∷ 0x30 ∷ 0x06 ∷ 0x23 ∷ 0x80 ∷ 0xe7 ∷ 0x00 ∷ 0x83
    ∷ 0x37 ∷ 0x84 ∷ 0xfe ∷ 0x13 ∷ 0x07 ∷ 0xf0 ∷ 0x06 ∷ 0x23 ∷ 0x80 ∷ 0xe7 ∷ 0x00 ∷ 0x83 ∷ 0x37
    ∷ 0x84 ∷ 0xfe ∷ 0x13 ∷ 0x07 ∷ 0x40 ∷ 0x06 ∷ 0x23 ∷ 0x80 ∷ 0xe7 ∷ 0x00 ∷ 0x83 ∷ 0x37 ∷ 0x84
    ∷ 0xfe ∷ 0x13 ∷ 0x07 ∷ 0x50 ∷ 0x06 ∷ 0x23 ∷ 0x80 ∷ 0xe7 ∷ 0x00 ∷ 0x83 ∷ 0x37 ∷ 0x84 ∷ 0xfe
    ∷ 0x13 ∷ 0x07 ∷ 0x10 ∷ 0x02 ∷ 0x23 ∷ 0x80 ∷ 0xe7 ∷ 0x00 ∷ 0x83 ∷ 0x37 ∷ 0x84 ∷ 0xfe ∷ 0x29
    ∷ 0x47 ∷ 0x23 ∷ 0x80 ∷ 0xe7 ∷ 0x00 ∷ 0x01 ∷ 0x00 ∷ 0x62 ∷ 0x64 ∷ 0x05 ∷ 0x61 ∷ 0x82 ∷ 0x80 ∷ []

abbrev pub code_broken_sig : List ℕ
code_broken_sig =
    0xff ∷ 0xdf ∷ 0xd5 ∷ 0x04 ∷ 0x5a ∷ 0x89 ∷ 0x8d ∷ 0x1b ∷ 0x0e ∷ 0xe3 ∷ 0x21 ∷ 0x42 ∷ 0x04 ∷ 0xf4
    ∷ 0x5a ∷ 0x8e ∷ 0x40 ∷ 0x01 ∷ 0x00 ∷ 0x00 ∷ 0x00 ∷ 0x00 ∷ 0x00 ∷ 0x00 ∷ 0x00 ∷ 0x00 ∷ 0x00
    ∷ 0x00 ∷ 0x00 ∷ 0x00 ∷ 0x00 ∷ 0x00 ∷ 0x01 ∷ 0x11 ∷ 0x22 ∷ 0xec ∷ 0x00 ∷ 0x10 ∷ 0xb7 ∷ 0x07
    ∷ 0x00 ∷ 0x10 ∷ 0x23 ∷ 0x34 ∷ 0xf4 ∷ 0xfe ∷ 0x83 ∷ 0x37 ∷ 0x84 ∷ 0xfe ∷ 0x13 ∷ 0x07 ∷ 0x50
    ∷ 0x04 ∷ 0x23 ∷ 0x80 ∷ 0xe7 ∷ 0x00 ∷ 0x83 ∷ 0x37 ∷ 0x84 ∷ 0xfe ∷ 0x13 ∷ 0x07 ∷ 0x80 ∷ 0x07
    ∷ 0x23 ∷ 0x80 ∷ 0xe7 ∷ 0x00 ∷ 0x83 ∷ 0x37 ∷ 0x84 ∷ 0xfe ∷ 0x13 ∷ 0x07 ∷ 0x50 ∷ 0x06 ∷ 0x23
    ∷ 0x80 ∷ 0xe7 ∷ 0x00 ∷ 0x83 ∷ 0x37 ∷ 0x84 ∷ 0xfe ∷ 0x13 ∷ 0x07 ∷ 0x30 ∷ 0x06 ∷ 0x23 ∷ 0x80
    ∷ 0xe7 ∷ 0x00 ∷ 0x83 ∷ 0x37 ∷ 0x84 ∷ 0xfe ∷ 0x13 ∷ 0x07 ∷ 0x50 ∷ 0x07 ∷ 0x23 ∷ 0x80 ∷ 0xe7
    ∷ 0x00 ∷ 0x83 ∷ 0x37 ∷ 0x84 ∷ 0xfe ∷ 0x13 ∷ 0x07 ∷ 0x40 ∷ 0x07 ∷ 0x23 ∷ 0x80 ∷ 0xe7 ∷ 0x00
    ∷ 0x83 ∷ 0x37 ∷ 0x84 ∷ 0xfe ∷ 0x13 ∷ 0x07 ∷ 0x90 ∷ 0x06 ∷ 0x23 ∷ 0x80 ∷ 0xe7 ∷ 0x00 ∷ 0x83
    ∷ 0x37 ∷ 0x84 ∷ 0xfe ∷ 0x13 ∷ 0x07 ∷ 0xe0 ∷ 0x06 ∷ 0x23 ∷ 0x80 ∷ 0xe7 ∷ 0x00 ∷ 0x83 ∷ 0x37
    ∷ 0x84 ∷ 0xfe ∷ 0x13 ∷ 0x07 ∷ 0x70 ∷ 0x06 ∷ 0x23 ∷ 0x80 ∷ 0xe7 ∷ 0x00 ∷ 0x83 ∷ 0x37 ∷ 0x84
    ∷ 0xfe ∷ 0x13 ∷ 0x07 ∷ 0x00 ∷ 0x02 ∷ 0x23 ∷ 0x80 ∷ 0xe7 ∷ 0x00 ∷ 0x83 ∷ 0x37 ∷ 0x84 ∷ 0xfe
    ∷ 0x13 ∷ 0x07 ∷ 0x60 ∷ 0x06 ∷ 0x23 ∷ 0x80 ∷ 0xe7 ∷ 0x00 ∷ 0x83 ∷ 0x37 ∷ 0x84 ∷ 0xfe ∷ 0x13
    ∷ 0x07 ∷ 0x20 ∷ 0x07 ∷ 0x23 ∷ 0x80 ∷ 0xe7 ∷ 0x00 ∷ 0x83 ∷ 0x37 ∷ 0x84 ∷ 0xfe ∷ 0x13 ∷ 0x07
    ∷ 0xf0 ∷ 0x06 ∷ 0x23 ∷ 0x80 ∷ 0xe7 ∷ 0x00 ∷ 0x83 ∷ 0x37 ∷ 0x84 ∷ 0xfe ∷ 0x13 ∷ 0x07 ∷ 0xd0
    ∷ 0x06 ∷ 0x23 ∷ 0x80 ∷ 0xe7 ∷ 0x00 ∷ 0x83 ∷ 0x37 ∷ 0x84 ∷ 0xfe ∷ 0x13 ∷ 0x07 ∷ 0x00 ∷ 0x02
    ∷ 0x23 ∷ 0x80 ∷ 0xe7 ∷ 0x00 ∷ 0x83 ∷ 0x37 ∷ 0x84 ∷ 0xfe ∷ 0x13 ∷ 0x07 ∷ 0xe0 ∷ 0x04 ∷ 0x23
    ∷ 0x80 ∷ 0xe7 ∷ 0x00 ∷ 0x83 ∷ 0x37 ∷ 0x84 ∷ 0xfe ∷ 0x13 ∷ 0x07 ∷ 0x50 ∷ 0x04 ∷ 0x23 ∷ 0x80
    ∷ 0xe7 ∷ 0x00 ∷ 0x83 ∷ 0x37 ∷ 0x84 ∷ 0xfe ∷ 0x13 ∷ 0x07 ∷ 0x70 ∷ 0x05 ∷ 0x23 ∷ 0x80 ∷ 0xe7
    ∷ 0x00 ∷ 0x83 ∷ 0x37 ∷ 0x84 ∷ 0xfe ∷ 0x13 ∷ 0x07 ∷ 0x00 ∷ 0x02 ∷ 0x23 ∷ 0x80 ∷ 0xe7 ∷ 0x00
    ∷ 0x83 ∷ 0x37 ∷ 0x84 ∷ 0xfe ∷ 0x13 ∷ 0x07 ∷ 0x30 ∷ 0x06 ∷ 0x23 ∷ 0x80 ∷ 0xe7 ∷ 0x00 ∷ 0x83
    ∷ 0x37 ∷ 0x84 ∷ 0xfe ∷ 0x13 ∷ 0x07 ∷ 0xf0 ∷ 0x06 ∷ 0x23 ∷ 0x80 ∷ 0xe7 ∷ 0x00 ∷ 0x83 ∷ 0x37
    ∷ 0x84 ∷ 0xfe ∷ 0x13 ∷ 0x07 ∷ 0x40 ∷ 0x06 ∷ 0x23 ∷ 0x80 ∷ 0xe7 ∷ 0x00 ∷ 0x83 ∷ 0x37 ∷ 0x84
    ∷ 0xfe ∷ 0x13 ∷ 0x07 ∷ 0x50 ∷ 0x06 ∷ 0x23 ∷ 0x80 ∷ 0xe7 ∷ 0x00 ∷ 0x83 ∷ 0x37 ∷ 0x84 ∷ 0xfe
    ∷ 0x13 ∷ 0x07 ∷ 0x10 ∷ 0x02 ∷ 0x23 ∷ 0x80 ∷ 0xe7 ∷ 0x00 ∷ 0x83 ∷ 0x37 ∷ 0x84 ∷ 0xfe ∷ 0x29
    ∷ 0x47 ∷ 0x23 ∷ 0x80 ∷ 0xe7 ∷ 0x00 ∷ 0x01 ∷ 0x00 ∷ 0x62 ∷ 0x64 ∷ 0x05 ∷ 0x61 ∷ 0x82 ∷ 0x80 ∷ []

abbrev pub arbitrary_data : List ℕ
arbitrary_data = 0xde ∷ 0xad ∷ 0xbe ∷ 0xef ∷ []
