-- ===== src/Keyboard/Codes.antt =====
-- src/include/kernel/drivers/ps2/keyboard.h: the values of ScanCodeSet2, and
-- src/drivers/ps2/keyboard.cpp: `validScanCodes`, which lists them in the same order.
use mayv.Prelude.{ℕ, List, [], ◌∷◌, ◌++◌}

-- The codes of the pressed keys.
abbrev pub pressed_codes : List ℕ
pressed_codes =
    0x01 ∷ 0x03 ∷ 0x04 ∷ 0x05 ∷ 0x06 ∷ 0x07 ∷ 0x09 ∷ 0x0a ∷ 0x0b ∷ 0x0c ∷ 0x0d ∷ 0x0e ∷ 0x11 ∷ 0x12
    ∷ 0x14 ∷ 0x15 ∷ 0x16 ∷ 0x1a ∷ 0x1b ∷ 0x1c ∷ 0x1d ∷ 0x1e ∷ 0x21 ∷ 0x22 ∷ 0x23 ∷ 0x24 ∷ 0x25
    ∷ 0x26 ∷ 0x29 ∷ 0x2a ∷ 0x2b ∷ 0x2c ∷ 0x2d ∷ 0x2e ∷ 0x31 ∷ 0x32 ∷ 0x33 ∷ 0x34 ∷ 0x35 ∷ 0x36
    ∷ 0x3a ∷ 0x3b ∷ 0x3c ∷ 0x3d ∷ 0x3e ∷ 0x41 ∷ 0x42 ∷ 0x43 ∷ 0x44 ∷ 0x45 ∷ 0x46 ∷ 0x49 ∷ 0x4a
    ∷ 0x4b ∷ 0x4c ∷ 0x4d ∷ 0x4e ∷ 0x52 ∷ 0x54 ∷ 0x55 ∷ 0x58 ∷ 0x59 ∷ 0x5a ∷ 0x5b ∷ 0x5d ∷ 0x66
    ∷ 0x69 ∷ 0x6b ∷ 0x6c ∷ 0x70 ∷ 0x71 ∷ 0x72 ∷ 0x73 ∷ 0x74 ∷ 0x75 ∷ 0x76 ∷ 0x77 ∷ 0x78 ∷ 0x79
    ∷ 0x7a ∷ 0x7b ∷ 0x7c ∷ 0x7d ∷ 0x7e ∷ 0x83 ∷ 0xe011 ∷ 0xe014 ∷ 0xe015 ∷ 0xe01f ∷ 0xe021 ∷ 0xe023
    ∷ 0xe027 ∷ 0xe02b ∷ 0xe032 ∷ 0xe034 ∷ 0xe037 ∷ 0xe03b ∷ 0xe03f ∷ 0xe04a ∷ 0xe04d ∷ 0xe05a
    ∷ 0xe05e ∷ 0xe069 ∷ 0xe06b ∷ 0xe06c ∷ 0xe070 ∷ 0xe071 ∷ 0xe072 ∷ 0xe074 ∷ 0xe075 ∷ 0xe07a
    ∷ 0xe07d ∷ 0xe07c ∷ 0xe11477e1f014f077 ∷ []

-- The codes of the released keys.
abbrev pub released_codes : List ℕ
released_codes =
    0xf001 ∷ 0xf003 ∷ 0xf004 ∷ 0xf005 ∷ 0xf006 ∷ 0xf007 ∷ 0xf009 ∷ 0xf00a ∷ 0xf00b ∷ 0xf00c ∷ 0xf00d
    ∷ 0xf00e ∷ 0xf011 ∷ 0xf012 ∷ 0xf014 ∷ 0xf015 ∷ 0xf016 ∷ 0xf01a ∷ 0xf01b ∷ 0xf01c ∷ 0xf01d
    ∷ 0xf01e ∷ 0xf021 ∷ 0xf022 ∷ 0xf023 ∷ 0xf024 ∷ 0xf025 ∷ 0xf026 ∷ 0xf029 ∷ 0xf02a ∷ 0xf02b
    ∷ 0xf02c ∷ 0xf02d ∷ 0xf02e ∷ 0xf031 ∷ 0xf032 ∷ 0xf033 ∷ 0xf034 ∷ 0xf035 ∷ 0xf036 ∷ 0xf03a
    ∷ 0xf03b ∷ 0xf03c ∷ 0xf03d ∷ 0xf03e ∷ 0xf041 ∷ 0xf042 ∷ 0xf043 ∷ 0xf044 ∷ 0xf045 ∷ 0xf046
    ∷ 0xf049 ∷ 0xf04a ∷ 0xf04b ∷ 0xf04c ∷ 0xf04d ∷ 0xf04e ∷ 0xf052 ∷ 0xf054 ∷ 0xf055 ∷ 0xf058
    ∷ 0xf059 ∷ 0xf05a ∷ 0xf05b ∷ 0xf05d ∷ 0xf066 ∷ 0xf069 ∷ 0xf06b ∷ 0xf06c ∷ 0xf070 ∷ 0xf071
    ∷ 0xf072 ∷ 0xf073 ∷ 0xf074 ∷ 0xf075 ∷ 0xf076 ∷ 0xf077 ∷ 0xf078 ∷ 0xf079 ∷ 0xf07a ∷ 0xf07b
    ∷ 0xf07c ∷ 0xf07d ∷ 0xf07e ∷ 0xf083 ∷ 0xe0f011 ∷ 0xe0f014 ∷ 0xe0f015 ∷ 0xe0f01f ∷ 0xe0f021
    ∷ 0xe0f023 ∷ 0xe0f027 ∷ 0xe0f02b ∷ 0xe0f032 ∷ 0xe0f034 ∷ 0xe0f037 ∷ 0xe0f03b ∷ 0xe0f03f
    ∷ 0xe0f04a ∷ 0xe0f04d ∷ 0xe0f05a ∷ 0xe0f05e ∷ 0xe0f069 ∷ 0xe0f06b ∷ 0xe0f06c ∷ 0xe0f070
    ∷ 0xe0f071 ∷ 0xe0f072 ∷ 0xe0f074 ∷ 0xe0f075 ∷ 0xe0f07a ∷ 0xe0f07d ∷ 0xe0f07c ∷ []

abbrev pub valid_scan_codes : List ℕ
valid_scan_codes = pressed_codes ++ released_codes
