-- ===== src/Core/Dedup/Bands.antt =====
-- engraphy/core/dedup.py: the bands, their per-profile defaults and their configuration. A
-- similarity is an integer in millionths.
use engraphy.Base.{
  ◌+◌, ◌*◌, ◌/◌, ◌^◌, String, Bool, true, false, ◌&&◌, Option, none, some, ℤ, pos, negsuc, leb_ℤ,
  ltb_ℤ, sub_ℕ, find_first, ◌==◌, string_eq, if◌then◌else◌,
}
use engraphy.Core.Json.{Json, null, bool, int, float, str, arr, obj}
use engraphy.Core.Tx.{Tx, config_error, gets, or_raise, require, pure, ◌>>=◌, ◌>>◌}
use engraphy.Core.Store.{Db, Session}

pub record BandThresholds : Type 0 where
  pub t_high : ℤ
  pub t_low : ℤ

-- `_PROFILE_BANDS` with `_DEFAULT_BANDS`
unfoldable pub for_profile : String → BandThresholds
for_profile name =
    if name == "onnx-int8"
    then record { t_high = pos 940000; t_low = pos 810000 }
    else if name == "micro"
    then record { t_high = pos 955000; t_low = pos 902000 }
    else record { t_high = pos 950000; t_low = pos 800000 }

-- `_PROFILE_RESONANCE_FLOOR` with `RESONANCE_FLOOR`
unfoldable pub resonance_floor_default : String → ℤ
resonance_floor_default name = if name == "micro" then pos 900000 else pos 750000

pub data Band : Type 0 where
  merge pending insert : Band

unfoldable pub select_band : ℤ → BandThresholds → Band
select_band max_similarity t =
    if leb_ℤ t.t_high max_similarity
    then merge
    else if leb_ℤ t.t_low max_similarity
    then pending
    else insert

-- A JSON number in millionths, rounded down; nothing for what is no number.
millionths : Json → Option ℤ
millionths (int (pos n)) = some (pos (n * 1000000))
millionths (int (negsuc n)) = some (negsuc (n * 1000000 + 999999))
millionths (float true m k) = some (sub_ℕ 0 (m * 1000000 / 2 ^ k))
millionths (float false m k) = some (pos (m * 1000000 / 2 ^ k))
millionths null = none
millionths (bool b) = none
millionths (str s) = none
millionths (arr xs) = none
millionths (obj d) = none

unfoldable pub config_value : Session → String → Db → Option Json
config_value s key db = elim (find_first (λ r. r.space == s.space && r.key == key) db.config) [
  | none ↦ none
  | some r ↦ some r.value
]

number_or : ℤ → Option Json → Option ℤ
unfolding millionths
number_or default none = some default
number_or default (some v) = millionths v

-- `_config_float`: the configured value, the default if there is none, an error if it is no number
unfoldable pub config_float : Session → String → ℤ → Tx Db ℤ
unfolding config_value number_or
config_float s key default = do
  v ← gets (config_value s key)
  or_raise (number_or default v) config_error

-- 0 < t_low <= t_high <= 1
abbrev pub in_order : BandThresholds → Bool
in_order b = ltb_ℤ (pos 0) b.t_low && (leb_ℤ b.t_low b.t_high && leb_ℤ b.t_high (pos 1000000))

unfoldable pub resolve_bands : Session → String → Option BandThresholds → Tx Db BandThresholds
resolve_bands s profile (some given) = pure given
resolve_bands s profile none = do
  t_high ← config_float s "dedup.t_high" (for_profile profile).t_high
  t_low ← config_float s "dedup.t_low" (for_profile profile).t_low
  let bands : BandThresholds = record { t_high = t_high; t_low = t_low }
  require (in_order bands) config_error
  pure bands

unfoldable pub resolve_floor : Session → String → Option ℤ → Tx Db ℤ
resolve_floor s profile (some given) = pure given
resolve_floor s profile none = do
  floor ← config_float s "resonance.floor" (resonance_floor_default profile)
  require (ltb_ℤ (pos 0) floor && leb_ℤ floor (pos 1000000)) config_error
  pure floor

-- `_resolve_config`
unfoldable pub resolve_config :
    Session → String → Option BandThresholds → Option ℤ → Tx Db (BandThresholds × ℤ)
unfolding resolve_bands resolve_floor
resolve_config s profile thresholds resonance_floor = do
  bands ← resolve_bands s profile thresholds
  floor ← resolve_floor s profile resonance_floor
  pure (bands, floor)
