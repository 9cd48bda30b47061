-- ===== src/Memory/Tests.antt =====
-- The string functions at concrete memories.
use ninjastorms.Prelude.{ℕ, ◌%◌, ◌≡◌, inr, arith}
use ninjastorms.Memory.{Memory, memcpy, memcmp}
use ninjastorms.Memory.Copy.{copied, memcpy-copied}
use ninjastorms.Memory.Compare.{Verdict, memcmp-Verdict}

-- Each address holds its low byte.
abbrev ramp : Memory
ramp a = a % 256

memcpy-copied_example :
    ((memcpy 100 98 2 ramp).0 ≡ 100)
    × ((a : ℕ) → (memcpy 100 98 2 ramp).1 a ≡ copied 100 98 2 ramp a)
memcpy-copied_example = memcpy-copied 100 98 2 ramp (inr (omega arith))

memcmp-Verdict_example : Verdict 1 3 4 ramp (memcmp 1 3 4 ramp)
memcmp-Verdict_example = memcmp-Verdict 1 3 4 ramp
