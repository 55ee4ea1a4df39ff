-- ===== src/Server/Limits.antt =====
-- engraphy/server/auth.py: `read_rate_limits`, the limits of a space. `int` of a text is given for
-- texts of ASCII characters.
use engraphy.Base.{
  ℕ, zero, suc, ◌+◌, ◌-◌, ◌*◌, ◌/◌, ◌^◌, String, Bool, true, false, ◌&&◌, ◌||◌, Option, none, some,
  List, [], ◌∷◌, ℤ, pos, negsuc, leb, ◌==◌, nat_eq, if◌then◌else◌,
}
use engraphy.Core.Json.{Json, bool, int, float, str}
use engraphy.Core.AttrSpec.{codes}
use engraphy.Core.Store.{Db}
use engraphy.Server.RateLimit.{default_read_per_min, default_write_per_min}
use engraphy.Server.Registry.{config_value}

negative : ℕ → ℤ
negative zero = pos 0
negative (suc n) = negsuc n

signed : Bool → ℕ → ℤ
unfolding negative
signed minus n = if minus then negative n else pos n

-- White space of `int`
is_space : ℕ → Bool
is_space c = (leb 9 c && leb c 13) || (leb 28 c && leb c 32)

is_digit : ℕ → Bool
is_digit c = leb 48 c && leb c 57

all_space : List ℕ → Bool
unfolding is_space
all_space [] = true
all_space (c ∷ cs) = let rest = all_space cs in is_space c && rest

skip_space : List ℕ → List ℕ
unfolding is_space
skip_space [] = []
skip_space (c ∷ cs) = let rest = skip_space cs in if is_space c then rest else c ∷ cs

-- Digits, with one `_` between two of them at most, then white space. The second argument is whether
-- a digit came just before.
digits : ℕ → Bool → List ℕ → Option ℕ
unfolding is_digit all_space is_space
digits value after_digit [] = if after_digit then some value else none
digits value after_digit (c ∷ cs) =
    let rest = digits (if is_digit c then value * 10 + (c - 48) else value) (is_digit c) cs in
    if is_digit c || (c == 95 && after_digit)
    then rest
    else if after_digit && (is_space c && all_space cs)
    then some value
    else none

with_sign : Bool → Option ℕ → Option ℤ
unfolding signed
with_sign minus none = none
with_sign minus (some n) = some (signed minus n)

int_of_codes : List ℕ → Option ℤ
unfolding digits with_sign
int_of_codes [] = none
int_of_codes (c ∷ cs) =
    if c == 45
    then with_sign true (digits 0 false cs)
    else if c == 43
    then with_sign false (digits 0 false cs)
    else with_sign false (digits 0 false (c ∷ cs))

-- `int(value)`; none is TypeError or ValueError
int_of : Json → Option ℤ
unfolding signed int_of_codes skip_space codes
int_of (bool b) = some (pos (if b then 1 else 0))
int_of (int n) = some n
int_of (float s m k) = some (signed s (m / 2 ^ k))
int_of (str s) = int_of_codes (skip_space (codes s))
int_of _ = none

limit_or : ℤ → Option Json → ℤ
unfolding int_of
limit_or default none = default
limit_or default (some v) = elim (int_of v) [ none ↦ default | some n ↦ n ]

-- `read_rate_limits`: those for reads and for writes
unfoldable pub read_rate_limits : String → Db → ℤ × ℤ
unfolding limit_or config_value
read_rate_limits space db = (
  limit_or default_read_per_min (config_value space "rate.read_per_min" db.config),
  limit_or default_write_per_min (config_value space "rate.write_per_min" db.config),
)
