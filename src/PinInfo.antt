-- ===== src/PinInfo.antt =====
-- kernel/drivers/pininfo.c: which register and field selects the function of a pin.
use ninjastorms.Prelude.{ℕ, List, [], ◌∷◌, ◌++◌}

pub record PinInfo : Type 0 where
  pub muxreg : ℕ
  pub muxreg_mask : ℕ
  pub muxreg_mode : ℕ

abbrev pub muxed : ℕ → ℕ → ℕ → PinInfo
muxed r mask mode = record { muxreg = r; muxreg_mask = mask; muxreg_mode = mode }

abbrev pub unknown : PinInfo
unknown = muxed 0 0x00000000 0x00000000

abbrev pub bank0 : List PinInfo
bank0 =
    unknown
    ∷ muxed 1 0xF0FFFFFF 0x08000000
    ∷ muxed 1 0xFF0FFFFF 0x00800000
    ∷ muxed 1 0xFFF0FFFF 0x00080000
    ∷ muxed 1 0xFFFF0FFF 0x00008000
    ∷ muxed 1 0xFFFFF0FF 0x00000800
    ∷ muxed 1 0xFFFFFF0F 0x00000080
    ∷ muxed 1 0xFFFFFFF0 0x00000008
    ∷ unknown
    ∷ unknown
    ∷ unknown
    ∷ muxed 0 0xFFF0FFFF 0x00080000
    ∷ muxed 0 0xFFFF0FFF 0x00008000
    ∷ muxed 0 0xFFFFF0FF 0x00000800
    ∷ muxed 0 0xFFFFFF0F 0x00000080
    ∷ muxed 0 0xFFFFFFF0 0x00000008
    ∷ []

abbrev pub bank1 : List PinInfo
bank1 =
    muxed 4 0x0FFFFFFF 0x80000000
    ∷ unknown
    ∷ unknown
    ∷ unknown
    ∷ unknown
    ∷ unknown
    ∷ unknown
    ∷ unknown
    ∷ muxed 3 0xFFFFFFF0 0x00000004
    ∷ muxed 2 0xF0FFFFFF 0x04000000
    ∷ muxed 2 0xFF0FFFFF 0x00400000
    ∷ muxed 2 0xFFF0FFFF 0x00040000
    ∷ muxed 2 0xFFFF0FFF 0x00004000
    ∷ muxed 2 0xFFFFF0FF 0x00000400
    ∷ muxed 2 0xFFFFFF0F 0x00000040
    ∷ muxed 2 0xFFFFFFF0 0x00000008
    ∷ []

abbrev pub bank2 : List PinInfo
bank2 =
    muxed 6 0x0FFFFFFF 0x80000000
    ∷ muxed 6 0xF0FFFFFF 0x08000000
    ∷ muxed 6 0xFF0FFFFF 0x00800000
    ∷ muxed 6 0xFFF0FFFF 0x00080000
    ∷ muxed 6 0xFFFF0FFF 0x00008000
    ∷ muxed 6 0xFFFFF0FF 0x00000800
    ∷ muxed 6 0xFFFFFF0F 0x00000080
    ∷ muxed 6 0xFFFFFFF0 0x00000008
    ∷ muxed 5 0x0FFFFFFF 0x80000000
    ∷ muxed 5 0xF0FFFFFF 0x08000000
    ∷ muxed 5 0xFF0FFFFF 0x00800000
    ∷ muxed 5 0xFFF0FFFF 0x00080000
    ∷ muxed 5 0xFFFF0FFF 0x00008000
    ∷ muxed 5 0xFFFFF0FF 0x00000800
    ∷ unknown
    ∷ unknown
    ∷ []

abbrev pub bank3 : List PinInfo
bank3 =
    muxed 8 0x0FFFFFFF 0x80000000
    ∷ muxed 8 0xF0FFFFFF 0x08000000
    ∷ muxed 8 0xFF0FFFFF 0x00800000
    ∷ muxed 8 0xFFF0FFFF 0x00080000
    ∷ muxed 8 0xFFFF0FFF 0x00008000
    ∷ muxed 8 0xFFFFF0FF 0x00000800
    ∷ muxed 8 0xFFFFFF0F 0x00000080
    ∷ muxed 8 0xFFFFFFF0 0x00000008
    ∷ muxed 7 0x0FFFFFFF 0x80000000
    ∷ muxed 7 0xF0FFFFFF 0x08000000
    ∷ muxed 7 0xFF0FFFFF 0x00800000
    ∷ muxed 7 0xFFF0FFFF 0x00080000
    ∷ muxed 7 0xFFFF0FFF 0x00008000
    ∷ muxed 7 0xFFFFF0FF 0x00000800
    ∷ muxed 7 0xFFFFFF0F 0x00000080
    ∷ muxed 7 0xFFFFFFF0 0x00000008
    ∷ []

abbrev pub bank4 : List PinInfo
bank4 =
    unknown
    ∷ muxed 10 0xF0FFFFFF 0x08000000
    ∷ unknown
    ∷ unknown
    ∷ unknown
    ∷ unknown
    ∷ unknown
    ∷ unknown
    ∷ muxed 9 0x0FFFFFFF 0x80000000
    ∷ muxed 9 0xF0FFFFFF 0x08000000
    ∷ muxed 9 0xFF0FFFFF 0x00800000
    ∷ unknown
    ∷ muxed 9 0xFFFF0FFF 0x00008000
    ∷ unknown
    ∷ muxed 9 0xFFFFFF0F 0x00000080
    ∷ unknown
    ∷ []

abbrev pub bank5 : List PinInfo
bank5 =
    muxed 12 0x0FFFFFFF 0x80000000
    ∷ muxed 12 0xF0FFFFFF 0x08000000
    ∷ muxed 12 0xFF0FFFFF 0x00800000
    ∷ muxed 12 0xFFF0FFFF 0x00080000
    ∷ muxed 12 0xFFFF0FFF 0x00008000
    ∷ muxed 12 0xFFFFF0FF 0x00000800
    ∷ muxed 12 0xFFFFFF0F 0x00000080
    ∷ muxed 12 0xFFFFFFF0 0x00000008
    ∷ muxed 11 0x0FFFFFFF 0x80000000
    ∷ muxed 11 0xF0FFFFFF 0x08000000
    ∷ muxed 11 0xFF0FFFFF 0x00800000
    ∷ muxed 11 0xFFF0FFFF 0x00080000
    ∷ muxed 11 0xFFFF0FFF 0x00008000
    ∷ muxed 11 0xFFFFF0FF 0x00000800
    ∷ muxed 11 0xFFFFFF0F 0x00000080
    ∷ muxed 11 0xFFFFFFF0 0x00000008
    ∷ []

abbrev pub bank6 : List PinInfo
bank6 =
    muxed 19 0xF0FFFFFF 0x08000000
    ∷ muxed 19 0xFF0FFFFF 0x00800000
    ∷ muxed 19 0xFFF0FFFF 0x00080000
    ∷ muxed 19 0xFFFF0FFF 0x00008000
    ∷ muxed 19 0xFFFFF0FF 0x00000800
    ∷ muxed 16 0xFFFFFF0F 0x00000080
    ∷ muxed 14 0xFFFFFF0F 0x00000080
    ∷ muxed 14 0xFFFFFFF0 0x00000008
    ∷ muxed 13 0x0FFFFFFF 0x80000000
    ∷ muxed 13 0xF0FFFFFF 0x08000000
    ∷ muxed 13 0xFF0FFFFF 0x00800000
    ∷ muxed 13 0xFFF0FFFF 0x00080000
    ∷ muxed 13 0xFFFF0FFF 0x00008000
    ∷ muxed 13 0xFFFFF0FF 0x00000800
    ∷ muxed 13 0xFFFFFF0F 0x00000080
    ∷ muxed 13 0xFFFFFFF0 0x00000008
    ∷ []

abbrev pub bank7 : List PinInfo
bank7 =
    unknown
    ∷ unknown
    ∷ unknown
    ∷ unknown
    ∷ muxed 17 0xFF0FFFFF 0x00800000
    ∷ unknown
    ∷ unknown
    ∷ unknown
    ∷ muxed 17 0xFFFFFF0F 0x00000080
    ∷ muxed 17 0xFFFFFFF0 0x00000008
    ∷ muxed 16 0x0FFFFFFF 0x80000000
    ∷ muxed 16 0xF0FFFFFF 0x08000000
    ∷ muxed 16 0xFF0FFFFF 0x00800000
    ∷ muxed 16 0xFFF0FFFF 0x00080000
    ∷ muxed 16 0xFFFF0FFF 0x00008000
    ∷ muxed 16 0xFFFFF0FF 0x00000800
    ∷ []

abbrev pub bank8 : List PinInfo
bank8 =
    unknown
    ∷ unknown
    ∷ muxed 3 0xF0FFFFFF 0x04000000
    ∷ muxed 3 0xFF0FFFFF 0x00400000
    ∷ unknown
    ∷ muxed 3 0xFFFF0FFF 0x00004000
    ∷ muxed 3 0xFFFFF0FF 0x00000400
    ∷ unknown
    ∷ muxed 19 0xFFFFFF0F 0x00000080
    ∷ muxed 19 0xFFFFFFF0 0x00000008
    ∷ muxed 18 0x0FFFFFFF 0x80000000
    ∷ muxed 18 0xF0FFFFFF 0x08000000
    ∷ muxed 18 0xFF0FFFFF 0x00800000
    ∷ muxed 18 0xFFF0FFFF 0x00080000
    ∷ muxed 18 0xFFFF0FFF 0x00008000
    ∷ muxed 18 0xFFFFF0FF 0x00000800
    ∷ []

-- Behind the pins of the banks: those of the serial lines.
abbrev pub serial_pins : List PinInfo
serial_pins =
    unknown
    ∷ muxed 3 0xFF0FFFFF 0x00200000
    ∷ muxed 3 0xFFF0FFFF 0x00020000
    ∷ muxed 4 0x0FFFFFFF 0x20000000
    ∷ unknown
    ∷ muxed 3 0xFFFF0FFF 0x00001000
    ∷ muxed 3 0xFFFFF0FF 0x00000100
    ∷ muxed 3 0xFFFFFFF0 0x00000001
    ∷ muxed 3 0xF0FFFFFF 0x01000000
    ∷ unknown
    ∷ []

abbrev pub pininfo : List PinInfo
pininfo =
    bank0 ++ bank1 ++ bank2 ++ bank3 ++ bank4 ++ bank5 ++ bank6 ++ bank7 ++ bank8 ++ serial_pins

-- The table has 16 pins for each of the 9 banks, and 10 more entries.
abbrev pub pininfo_size : ℕ
pininfo_size = 154
