-- ===== src/Network/Ipv4/Print.antt =====
-- `ipv4_print` of kernel/network/ipv4.c: an address as four numbers with dots, on a little-endian processor.

use ninjastorms.Prelude.{
  ℕ, ◌/◌, ◌%◌, ◌^◌, ◌<◌, ◌≡◌, refl, ap, ◌∙◌, Option, some, List, [], ◌∷◌, ◌++◌, arith, append_assoc,
  ltb, true, ◌-◌, ◌*◌,
}
use ninjastorms.Stdio.{Output, Arg, int, printf, vprintf, vprintf_loop, emit}
use ninjastorms.Memory.{pos}
use ninjastorms.Stdio.Number.{append_text, read_number, signed}
use ninjastorms.Stdio.Conversion.{signed_int, vprintf_loop-Conversion}
use ninjastorms.Stdio.Format.{vprintf_loop-text}

-- `((uint8_t *) &ip)[k]`
abbrev pub ip_byte : ℕ → ℕ → ℕ
ip_byte ip k = ip / 2 ^ (8 * k) % 256

-- "%i.%i.%i.%i"
abbrev pub quad : List ℕ
quad = b'%' ∷ b'i' ∷ b'.' ∷ b'%' ∷ b'i' ∷ b'.' ∷ b'%' ∷ b'i' ∷ b'.' ∷ b'%' ∷ b'i' ∷ []

pub ipv4_print : ℕ → List ℕ → Option Output
ipv4_print ip sent =
    printf quad
      (int (ip_byte ip 3) ∷ int (ip_byte ip 2) ∷ int (ip_byte ip 1) ∷ int (ip_byte ip 0) ∷ []) sent

signed-pos : (x : ℕ) → x < 256 → signed 32 x ≡ pos x
signed-pos x h = let t : ltb x (2 ^ (32 - 1)) ≡ true = ground arith in rw t refl

-- A number with a dot behind it.
dotted :
    (x : ℕ) (rest : List ℕ) (args : List Arg) (out : Output)
    → x < 256
    → out.chars_written < 2 ^ 32
    → (text : List ℕ) × (out' : Output) × (vprintf_loop
          (b'%' ∷ b'i' ∷ b'.' ∷ rest)
          (int x ∷ args)
          out
        ≡ vprintf_loop rest args out')
      × (out'.sent ≡ out.sent ++ (text ++ b'.' ∷ []))
      × (out'.chars_written < 2 ^ 32)
      × (read_number 10 text ≡ pos x)
dotted x rest args out h k =
    let (text, run, reads) =
      vprintf_loop-Conversion b'i' (int x) 10 (signed 32 x) (b'.' ∷ rest) args out
        (signed_int x (omega arith) (omega arith)) k in
    let after = append_text text out in
    (
      text,
      emit b'.' after,
      run ∙ vprintf_loop-text (b'.' ∷ []) rest args after refl,
      append_assoc out.sent text (b'.' ∷ []),
      omega arith,
      reads ∙ signed-pos x h,
    )

-- `ipv4_print` is defined, and prints four numbers with dots between them, which read back as the bytes of the address,
-- the most significant one first.
pub ipv4_print_lem :
    (ip : ℕ) (sent : List ℕ)
    → (a : List ℕ) × (b : List ℕ) × (c : List ℕ) × (d : List ℕ) × (out : Output) × (ipv4_print ip
          sent
        ≡ some out)
      × (out.sent ≡ (((sent ++ (a ++ b'.' ∷ [])) ++ (b ++ b'.' ∷ [])) ++ (c ++ b'.' ∷ [])) ++ d)
      × (read_number 10 a ≡ pos (ip_byte ip 3))
      × (read_number 10 b ≡ pos (ip_byte ip 2))
      × (read_number 10 c ≡ pos (ip_byte ip 1))
      × (read_number 10 d ≡ pos (ip_byte ip 0))
unfolding ipv4_print printf vprintf vprintf_loop
ipv4_print_lem ip sent =
    let x₃ = int (ip_byte ip 3) in
    let x₂ = int (ip_byte ip 2) in
    let x₁ = int (ip_byte ip 1) in
    let x₀ = int (ip_byte ip 0) in
    let start : Output = record { sent = sent; chars_written = 0 } in
    let last : List ℕ = b'%' ∷ b'i' ∷ [] in
    let (a, o₃, run₃, s₃, k₃, r₃) =
      dotted (ip_byte ip 3) (b'%' ∷ b'i' ∷ b'.' ∷ b'%' ∷ b'i' ∷ b'.' ∷ last) (x₂ ∷ x₁ ∷ x₀ ∷ [])
        start (omega arith) (omega arith) in
    let (b, o₂, run₂, s₂, k₂, r₂) =
      dotted (ip_byte ip 2) (b'%' ∷ b'i' ∷ b'.' ∷ last) (x₁ ∷ x₀ ∷ []) o₃ (omega arith) k₃ in
    let (c, o₁, run₁, s₁, k₁, r₁) = dotted (ip_byte ip 1) last (x₀ ∷ []) o₂ (omega arith) k₂ in
    let (d, run₀, r₀) =
      vprintf_loop-Conversion b'i' x₀ 10 (signed 32 (ip_byte ip 0)) [] [] o₁
        (signed_int (ip_byte ip 0) (omega arith) (omega arith)) k₁ in
    (
      a,
      b,
      c,
      d,
      append_text d o₁,
      run₃ ∙ run₂ ∙ run₁ ∙ run₀,
      ap (λ s. s ++ d)
          (s₁ ∙ ap (λ s. s ++ (c ++ b'.' ∷ [])) (s₂ ∙ ap (λ s. s ++ (b ++ b'.' ∷ [])) s₃)),
      r₃,
      r₂,
      r₁,
      r₀ ∙ signed-pos (ip_byte ip 0) (omega arith),
    )
