-- ===== src/Base/Int.antt =====
-- The C `int` as a signed integer, with the conversions that the sources make.
use Prim.Native.Nat.{ℕ, zero, suc, ◌-◌, ◌%◌, ◌^◌}
use mathlib.Core.Bool.{Bool, false}
use minimal_sip_proxy_sip_cl.Base.Tests.{◌==◌}

-- `negsuc n` is -(n + 1).
pub data ℤ : Type 0 where
  pos : ℕ → ℤ
  negsuc : ℕ → ℤ

-- -n
abbrev pub negate : ℕ → ℤ
negate zero = pos 0
negate (suc n) = negsuc n

-- z == n, for a literal n
abbrev pub is_int : ℤ → ℕ → Bool
is_int (pos m) n = m == n
is_int (negsuc m) n = false

-- static_cast<uint16_t>(z)
unfoldable pub to_u16 : ℤ → ℕ
to_u16 (pos n) = n % 2 ^ 16
to_u16 (negsuc n) = (2 ^ 16 - 1) - n % 2 ^ 16
