-- ===== src/Device.antt =====
-- kernel/mmio.c: reads and writes of device registers, and the programs that make them. What a read
-- gives is up to the hardware, which knows all accesses that came before: it is an argument. What a
-- program prints stands between its accesses, as one entry for a call.
use ninjastorms.Prelude.{
  ℕ, zero, suc, ◌-◌, ◌*◌, ◌%◌, ◌^◌, List, [], ◌∷◌, bit_and, bit_or, Bool, true, false, Option, none,
  some, if◌then◌else◌, ◌==◌,
}
use ninjastorms.Stdio.{Output, Arg, printf, puts}

-- An access: its width in bytes, the address, and the value that was read or written; or what `printf`
-- sent to the serial port.
pub data Access : Type 0 where
  got : ℕ → ℕ → ℕ → Access
  put : ℕ → ℕ → ℕ → Access
  printed : Option Output → Access

-- All accesses so far, the last one first.
abbrev pub History : Type 0
History = List Access

-- What a read of a width at an address gives, behind a history.
abbrev pub Hardware : Type 0
Hardware = History → ℕ → ℕ → ℕ

-- A program that accesses registers: its result, and the history with its own accesses in front.
abbrev pub Io : Type 0 → Type 0
Io A = Hardware → History → A × History

abbrev pub pure : {A : Type 0} → A → Io A
pure a hw h = (a, h)

infixl 5 ◌>>=◌ ◌>>◌
abbrev pub ◌>>=◌ : {A B : Type 0} → Io A → (A → Io B) → Io B
(m >>= f) hw h = let (a, h') = m hw h in f a hw h'

abbrev pub ◌>>◌ : {A B : Type 0} → Io A → Io B → Io B
m >> k = m >>= λ _. k

-- A volatile read and write of `w` bytes.
abbrev pub read : ℕ → ℕ → Io ℕ
read w address hw h = let value = hw h w address % 2 ^ (8 * w) in (value, got w address value ∷ h)

abbrev pub write : ℕ → ℕ → ℕ → Io Unit
write w address value hw h = (tt, put w address value ∷ h)

abbrev pub read8 : ℕ → Io ℕ
read8 address = read 1 address

abbrev pub read16 : ℕ → Io ℕ
read16 address = read 2 address

abbrev pub read32 : ℕ → Io ℕ
read32 address = read 4 address

abbrev pub read64 : ℕ → Io ℕ
read64 address = read 8 address

abbrev pub write8 : ℕ → ℕ → Io Unit
write8 address value = write 1 address value

abbrev pub write16 : ℕ → ℕ → Io Unit
write16 address value = write 2 address value

abbrev pub write32 : ℕ → ℕ → Io Unit
write32 address value = write 4 address value

abbrev pub write64 : ℕ → ℕ → Io Unit
write64 address value = write 8 address value

-- `*r |= bits`, `*r &= mask`
abbrev pub set_bits : ℕ → ℕ → Io Unit
set_bits address bits = do value ← read32 address; write32 address (bit_or value bits)

abbrev pub clear_bits : ℕ → ℕ → Io Unit
clear_bits address mask = do value ← read32 address; write32 address (bit_and value mask)

-- `~x` on 32 bits
abbrev pub complement : ℕ → ℕ
complement x = 2 ^ 32 - 1 - x

abbrev pub print : List ℕ → List Arg → Io Unit
print format args hw h = (tt, printed (printf format args []) ∷ h)

-- A call of `puts`.
abbrev pub say : List ℕ → Io Unit
say text hw h = (tt, printed (some (record { sent = puts text []; chars_written = 0 })) ∷ h)

-- `while (*r & bits);` with the number of reads it is given: whether it ended.
unfoldable pub poll : ℕ → ℕ → ℕ → Io Bool
poll zero address bits = pure false
poll (suc n) address bits =
    let rest = poll n address bits in
    read32 address >>= λ value. if bit_and value bits == 0 then pure true else rest

-- A program that goes on only where the one before it ended.
infixl 5 ◌>>?◌
abbrev pub after_some : {A B : Type 0} → (A → Io (Option B)) → Option A → Io (Option B)
after_some k none = pure none
after_some k (some a) = k a

abbrev pub ◌>>?◌ : {A B : Type 0} → Io (Option A) → (A → Io (Option B)) → Io (Option B)
m >>? k = m >>= after_some k

-- What an address was last written; the registers are 0 at the reset.
abbrev pub last_put : ℕ → History → ℕ
last_put a [] = 0
last_put a (got w b v ∷ h) = last_put a h
last_put a (printed o ∷ h) = last_put a h
last_put a (put w b v ∷ h) = if b == a then v else last_put a h
