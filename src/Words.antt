-- ===== src/Words.antt =====
-- Machine words: the unsigned arithmetic of C on 32 bits, written out.
pub mod Digits
pub mod Mask
use lkp_project.Prelude.{ℕ, ◌+◌, ◌-◌, ◌*◌, ◌/◌, ◌%◌, ◌^◌}

-- Truncation to uint32_t and uint16_t.
abbrev pub u32 : ℕ → ℕ
u32 n = n % 2 ^ 32

abbrev pub u16 : ℕ → ℕ
u16 n = n % 2 ^ 16

-- `a + b` and `a - b` on uint32_t. The modulus comes first, since `-` on ℕ stops at 0.
abbrev pub add32 : ℕ → ℕ → ℕ
add32 a b = u32 (a + b)

abbrev pub sub32 : ℕ → ℕ → ℕ
sub32 a b = u32 (a + 2 ^ 32 - u32 b)

-- `a << k`, `a >> k` and `~a` on uint32_t.
abbrev pub shl32 : ℕ → ℕ → ℕ
shl32 a k = u32 (a * 2 ^ k)

abbrev pub shr32 : ℕ → ℕ → ℕ
shr32 a k = a / 2 ^ k

abbrev pub not32 : ℕ → ℕ
not32 a = 2 ^ 32 - 1 - a

-- DIV_ROUND_UP(n, d)
abbrev pub div_round_up : ℕ → ℕ → ℕ
div_round_up n d = (n + d - 1) / d
