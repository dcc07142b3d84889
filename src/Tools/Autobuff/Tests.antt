-- ===== src/Tools/Autobuff/Tests.antt =====
-- Runs of AutoBuff at concrete inputs.
use nndsk_ro_launcher.Base.{
  ℕ, ◌≡◌, ◌⊎◌, ◌↔◌, refl, inl, true, false, ok, err, List, [], ◌∷◌, codes, filter, All,
}
use nndsk_ro_launcher.Base.Dict.{Text-eq, lookup}
use nndsk_ro_launcher.Tools.Ports.{Ports, other, literal, pressed}
use nndsk_ro_launcher.Tools.Autopot.Config.{ClientProfile}
use nndsk_ro_launcher.Tools.Autobuff.Config.{
  AutobuffRule, AutobuffConfig, IsComplete, HasDistinctIds, validate_autobuff, normalized_rules,
  validate_autobuff_iff,
}
use nndsk_ro_launcher.Tools.Autobuff.Engine.{
  AutobuffEngine, active_of, to_set, is_present, is_cooling_down, is_skipped, is_in_game,
  tick_autobuff,
}
use nndsk_ro_launcher.Tools.Autobuff.Choice.{
  IsLeast, IsPlaying, tick_autobuff-pressed, tick_autobuff-presses,
}

abbrev agi : AutobuffRule
agi = record {
  id = codes "agi";
  label = codes "AGI";
  status_id = 3;
  key = codes "F1";
  cooldown_ms = 1000;
  priority = 1;
  enabled = true;
}

abbrev config : AutobuffConfig
config = record { enabled = true; delay_ms = 300; rules = agi ∷ [] }

abbrev profile : ClientProfile
profile = record {
  id = codes "test";
  label = codes "test";
  exe_names = [];
  hp_base = 0x1000;
  name_address = 0x2000;
}

abbrev engine : AutobuffEngine
engine = record { config = config; profile = profile; last_used = [] }

-- The memory shows 10 of 20, for the bars and for the statuses.
abbrev game : Ports
game = record {
  on_read_u32 = λ h a. err (other (literal []));
  on_read_u32_slice = λ h a n. ok (10 ∷ 20 ∷ []);
  on_read_string = λ h a n. err (other (literal []));
  on_press_key = λ h k. ok tt;
}

validate_autobuff_iff_example :
    (validate_autobuff config ≡ ok tt)
    ↔ All IsComplete (normalized_rules config).rules
      × HasDistinctIds (normalized_rules config).rules
validate_autobuff_iff_example = validate_autobuff_iff config

tick_autobuff-pressed_example :
    (pressed (tick_autobuff game 0 engine []).2 ≡ [])
    ⊎ ((statuses : List ℕ) × (rule : AutobuffRule) × IsPlaying game 0 engine [] statuses
        × IsLeast engine (active_of statuses) 0 rule
        × (pressed (tick_autobuff game 0 engine []).2 ≡ rule.key ∷ []))
tick_autobuff-pressed_example = tick_autobuff-pressed game 0 engine []

playing : IsPlaying game 0 engine [] (10 ∷ 20 ∷ [])
unfolding is_in_game
playing = record {
  current_hp = 10;
  max_hp = 20;
  hp_read = refl;
  in_game = refl;
  status_read = refl;
}

agi_due : is_skipped engine (active_of (10 ∷ 20 ∷ [])) 0 agi ≡ false
unfolding is_skipped is_present is_cooling_down active_of to_set filter lookup
agi_due = refl

tick_autobuff-presses_example :
    (rule : AutobuffRule) × IsLeast engine (active_of (10 ∷ 20 ∷ [])) 0 rule
    × (pressed (tick_autobuff game 0 engine []).2 ≡ rule.key ∷ [])
tick_autobuff-presses_example =
    tick_autobuff-presses game 0 engine [] (10 ∷ 20 ∷ []) agi playing (inl refl) refl agi_due
