-- ===== src/Base/Text/Decimal.antt =====
-- `str::parse` for an unsigned integer type, by its largest value.
use Prim.Native.Nat.{ℕ, ◌+◌, ◌-◌, ◌*◌, ◌^◌}
use Prim.Native.Char.{code}
use Prim.Native.String.{String}
use mathlib.Core.Bool.{Bool, ◌&&◌}
use mathlib.Core.Option.{Option, none, some}
use r.Base.Tests.{◌==◌, leb, if◌then◌else◌}

abbrev pub is_digit : ℕ → Bool
is_digit c = leb b'0' c && leb c b'9'

abbrev pub u64_max : ℕ
u64_max = 2 ^ 64 - 1

abbrev pub u128_max : ℕ
u128_max = 2 ^ 128 - 1

-- The digits after those that made up `n`; a character that is no digit and an overflow both fail.
unfoldable pub parse_digits : ℕ → ℕ → String → Option ℕ
parse_digits most n String.[] = some n
parse_digits most n (String.◌∷◌ c s) =
    let next = n * 10 + (code c - b'0') in
    let rest = parse_digits most next s in if is_digit (code c) && leb next most then rest else none

-- A leading plus sign is passed over where digits follow it.
unfoldable pub parse_uint : ℕ → String → Option ℕ
parse_uint most String.[] = none
parse_uint most (String.◌∷◌ c String.[]) = parse_digits most 0 (String.◌∷◌ c String.[])
parse_uint most (String.◌∷◌ c (String.◌∷◌ d s)) =
    if code c == b'+'
    then parse_digits most 0 (String.◌∷◌ d s)
    else parse_digits most 0 (String.◌∷◌ c (String.◌∷◌ d s))
