-- ===== src/Tools/Tests.antt =====
-- Runs of the tools at concrete inputs.
use nndsk_ro_launcher.Base.{
  ℕ, ◌*◌, ◌<◌, ◌≡◌, refl, ◌↔◌, true, some, List, [], ◌∷◌, arith, Text, codes, trim, ok, err, clamp,
}
use nndsk_ro_launcher.Tools.Ports.{Ports, other, literal, read_string, read_u32_slice, press_key}
use nndsk_ro_launcher.Tools.Hex.{parse_hex}
use nndsk_ro_launcher.Tools.Hex.Numbers.{base16}
use nndsk_ro_launcher.Tools.Hex.Spelling.{IsHexText, parse_hex_iff}
use nndsk_ro_launcher.Tools.Autopot.Config.{ClientProfile, default_config, clamped}
use nndsk_ro_launcher.Tools.Autopot.Engine.{
  AutopotEngine, new, is_below, is_hp_below, is_sp_below, as_bars, pot_hp, pot_sp, read_bars,
  refresh_name, third_hp, recover_hp, recover_sp, pulse, act, tick,
}
use nndsk_ro_launcher.Tools.Autopot.Thresholds.{is_below_iff, is_below_wraps}
use nndsk_ro_launcher.Tools.Autopot.Reference.{forget, plain_tick, tick-eq-plain_tick}
use nndsk_ro_launcher.Tools.Autopot.Invariant.{IsValid, new-IsValid, tick-IsValid}

abbrev address : Text
address = codes " 0x1f"

parse_hex_iff_example :
    (parse_hex address ≡ some 31)
    ↔ ((ds : List ℕ) × IsHexText (trim address) ds × (base16 0 ds ≡ 31) × (31 < 4294967296))
parse_hex_iff_example = parse_hex_iff address 31

is_below_iff_example : (is_below 80 700 1000 ≡ true) ↔ ((0 < 1000) × (700 * 100 < 80 * 1000))
is_below_iff_example = is_below_iff 80 700 1000 (omega arith) (omega arith) (omega arith)

is_below_wraps_example : is_below 80 50_000_000 50_000_000 ≡ true
is_below_wraps_example = is_below_wraps 50_000_000 (omega arith) (omega arith)

-- The memory always shows 700 of 1000 HP and 200 of 500 SP, and every press succeeds.
abbrev game : Ports
game = record {
  on_read_u32 = λ h a. err (other (literal []));
  on_read_u32_slice = λ h a n. ok (700 ∷ 1000 ∷ 200 ∷ 500 ∷ []);
  on_read_string = λ h a n. ok (codes "TestChar");
  on_press_key = λ h k. ok tt;
}

abbrev profile : ClientProfile
profile = record {
  id = codes "test";
  label = codes "test";
  exe_names = [];
  hp_base = 0x1000;
  name_address = 0x2000;
}

abbrev engine : AutopotEngine
engine = new default_config profile

first_tick :
    (tick game engine []).2
    ≡ press_key (codes "F9")
      ∷ press_key (codes "F8")
      ∷ read_string 0x2000 40
      ∷ read_u32_slice 0x1000 4
      ∷ []
unfolding tick read_bars refresh_name act recover_hp third_hp recover_sp pulse pot_hp pot_sp
    is_hp_below is_sp_below is_below as_bars new clamped clamp
first_tick = refl

tick-eq-plain_tick_example :
    (forget game (tick game engine []).0, (tick game engine []).2) ≡ plain_tick game engine []
tick-eq-plain_tick_example = tick-eq-plain_tick game engine []

tick-IsValid_example : IsValid (tick game engine []).1
tick-IsValid_example = tick-IsValid game engine [] (new-IsValid default_config profile)
