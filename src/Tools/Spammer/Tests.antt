-- ===== src/Tools/Spammer/Tests.antt =====
-- Runs of the spammer's configuration at concrete inputs.
use mathlib.Core.Option
use nndsk_ro_launcher.Base.{
  is_empty, ◌||◌, if◌then◌else◌, none, ◌≤◌, ◌≡◌, ◌↔◌, refl, sym, subst, inl, true, false, some,
  List, [], ◌∷◌, map, Text, codes, In, contains, text_eq, find, to_upper, trim, filter,
}
use nndsk_ro_launcher.Tools.Spammer.Keys.{
  spammer_key_labels, canonical, is_valid_spammer_key, position, spammer_key_order, insert_by_key,
  sort_by_key, dedup_after, dedup, normalize_spammer_keys,
}
use nndsk_ro_launcher.Tools.Spammer.Keys.Normal.{
  IsKeyList, normalize_spammer_keys_iff, normalize_spammer_keys-IsKeyList,
}
use nndsk_ro_launcher.Tools.Spammer.Config.{
  GearSwitchRule, SpammerConfig, SpammerConfigWire, rule_for, uses_shift_for, normalized,
  clamped_spammer, from_wire, has_legacy_config,
}
use nndsk_ro_launcher.Tools.Spammer.Normalized.{IsNormal, clamped_spammer-IsNormal}
use nndsk_ro_launcher.Tools.Spammer.Rules.{
  normal_rule, answers, rule_for-normalized, rule_for-from_wire, uses_shift_for-normalized,
}

abbrev raw_keys : List Text
raw_keys = codes "z" ∷ codes " f3" ∷ codes "F3" ∷ codes "SPACE" ∷ []

normal_keys : normalize_spammer_keys raw_keys ≡ codes "F3" ∷ codes "Z" ∷ []
unfolding normalize_spammer_keys is_valid_spammer_key canonical to_upper trim spammer_key_order
    position dedup dedup_after sort_by_key insert_by_key filter contains text_eq
normal_keys = refl

normalize_spammer_keys_iff_example :
    In (codes "F3") (normalize_spammer_keys raw_keys)
    ↔ In (codes "F3") spammer_key_labels × In (codes "F3") (map canonical raw_keys)
normalize_spammer_keys_iff_example = normalize_spammer_keys_iff (codes "F3") raw_keys

normalize_spammer_keys-IsKeyList_example : IsKeyList (normalize_spammer_keys raw_keys)
normalize_spammer_keys-IsKeyList_example = normalize_spammer_keys-IsKeyList raw_keys

abbrev gear_rule : GearSwitchRule
gear_rule = record { trigger = codes "f3"; atk_keys = codes "8" ∷ []; def_keys = codes "9" ∷ [] }

abbrev config : SpammerConfig
config = record {
  enabled = true;
  delay_ms = 10;
  keys = raw_keys;
  shift_mode = record { enabled = true; trigger_keys = codes "f3" ∷ codes "F4" ∷ [] };
  gear_switch = record { enabled = true; switch_delay_ms = 5000; rules = gear_rule ∷ [] };
}

clamped_spammer-IsNormal_example :
    IsNormal (clamped_spammer config)
    × (16 ≤ (clamped_spammer config).delay_ms)
    × ((clamped_spammer config).delay_ms ≤ 100)
    × (clamped_spammer (clamped_spammer config) ≡ clamped_spammer config)
clamped_spammer-IsNormal_example = clamped_spammer-IsNormal config

f3_normal : In (codes "F3") (normalize_spammer_keys raw_keys)
f3_normal = subst (λ (xs : List Text). In (codes "F3") xs) (sym normal_keys) (inl refl)

rule_for-normalized_example :
    rule_for (normalized config).gear_switch (codes "F3")
    ≡ Option.map (normal_rule (codes "F3")) (find (answers (codes "F3")) (gear_rule ∷ []))
rule_for-normalized_example = rule_for-normalized config (codes "F3") f3_normal

abbrev stored : SpammerConfigWire
stored = record {
  enabled = false;
  delay_ms = 16;
  keys = raw_keys;
  shift_mode = record { enabled = false; trigger_keys = [] };
  gear_switch = record {
    enabled = true;
    switch_delay_ms = 60;
    rules = [];
    trigger_keys = [];
    atk_keys = codes "8" ∷ [];
    def_keys = codes "9" ∷ [];
  };
}

has_legacy : has_legacy_config stored.gear_switch ≡ true
unfolding has_legacy_config
has_legacy = refl

rule_for-from_wire_example : rule_for (normalized (from_wire stored)).gear_switch (codes "F3") ≡ (
    if is_empty stored.gear_switch.trigger_keys
      || contains (map canonical stored.gear_switch.trigger_keys) (codes "F3")
    then some (record {
      trigger = codes "F3";
      atk_keys = normalize_spammer_keys (codes "8" ∷ []);
      def_keys = normalize_spammer_keys (codes "9" ∷ []);
    })
    else none)
rule_for-from_wire_example = rule_for-from_wire stored (codes "F3") refl has_legacy f3_normal

uses_shift_for-normalized_example :
    (uses_shift_for (normalized config) (codes "F3") ≡ true)
    ↔ (true ≡ true)
      × In (codes "F3") spammer_key_labels
      × In (codes "F3") (map canonical raw_keys)
      × In (codes "F3") (map canonical (codes "f3" ∷ codes "F4" ∷ []))
uses_shift_for-normalized_example = uses_shift_for-normalized config (codes "F3")
