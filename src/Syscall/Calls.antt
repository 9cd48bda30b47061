-- ===== src/Syscall/Calls.antt =====
-- kernel/syscall.c: system calls as a task makes them. The trap, which is inline assembly, runs the dispatcher in the
-- supervisor mode; the addresses of a call's data and of the function in it are arguments.
use ninjastorms.Prelude.{ℕ, Option, List, [], ◌∷◌, if◌then◌else◌, ◌==◌}
use ninjastorms.Device.{Io, pure, ◌>>◌, print, say}
use ninjastorms.Stdio.{int}
use ninjastorms.Scheduler.{Scheduler, Board}
use ninjastorms.Syscall.{zero_syscall, create_process_no, shutdown_no, syscall_dispatcher}

abbrev pub supervisor_mode : ℕ
supervisor_mode = 0x13

-- "Handling syscall %i with data at address %x.\n"
abbrev handling : List ℕ
handling =
    b'H' ∷ b'a' ∷ b'n' ∷ b'd' ∷ b'l' ∷ b'i' ∷ b'n' ∷ b'g' ∷ b' ' ∷ b's' ∷ b'y' ∷ b's' ∷ b'c' ∷ b'a'
    ∷ b'l' ∷ b'l' ∷ b' ' ∷ b'%' ∷ b'i' ∷ b' ' ∷ b'w' ∷ b'i' ∷ b't' ∷ b'h' ∷ b' ' ∷ b'd' ∷ b'a'
    ∷ b't' ∷ b'a' ∷ b' ' ∷ b'a' ∷ b't' ∷ b' ' ∷ b'a' ∷ b'd' ∷ b'd' ∷ b'r' ∷ b'e' ∷ b's' ∷ b's'
    ∷ b' ' ∷ b'%' ∷ b'x' ∷ b'.' ∷ b'\n' ∷ []

-- "This is not a real syscall!\n"
abbrev not_real : List ℕ
not_real =
    b'T' ∷ b'h' ∷ b'i' ∷ b's' ∷ b' ' ∷ b'i' ∷ b's' ∷ b' ' ∷ b'n' ∷ b'o' ∷ b't' ∷ b' ' ∷ b'a' ∷ b' '
    ∷ b'r' ∷ b'e' ∷ b'a' ∷ b'l' ∷ b' ' ∷ b's' ∷ b'y' ∷ b's' ∷ b'c' ∷ b'a' ∷ b'l' ∷ b'l' ∷ b'!'
    ∷ b'\n' ∷ []

-- What the dispatcher and its routines print.
abbrev pub report : ℕ → ℕ → Io Unit
report syscallno address = do
  print handling (int syscallno ∷ int address ∷ [])
  if syscallno == zero_syscall then say not_real else pure tt

pub syscall : Board → ℕ → ℕ → ℕ → Scheduler → Io (Option ℕ × Scheduler)
syscall b number address function s = do
  report number address
  pure (syscall_dispatcher b supervisor_mode number function s)

unfoldable pub create_process : Board → ℕ → ℕ → Scheduler → Io (Option ℕ × Scheduler)
unfolding syscall
create_process b address function s = syscall b create_process_no address function s

-- The pointer to the data is null.
unfoldable pub shutdown : Board → Scheduler → Io (Option ℕ × Scheduler)
unfolding syscall
shutdown b s = syscall b shutdown_no 0 0 s
