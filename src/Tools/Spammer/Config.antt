-- ===== src/Tools/Spammer/Config.antt =====
-- crates/ro-tools-core/src/spammer/config.rs: the configuration, its normal form, and the migration
-- of the older form of the gear switch. Decoding JSON into the wire records is serde's.
use nndsk_ro_launcher.Base.{
  ℕ, Bool, false, not, ◌&&◌, ◌||◌, Option, none, some, List, [], ◌∷◌, map, Text, codes, is_empty,
  clamp, filter, find, any, contains, text_eq, if◌then◌else◌, Result, ok, err,
}
use nndsk_ro_launcher.Tools.Ports.{ToolsError, other, literal}
use nndsk_ro_launcher.Tools.Spammer.Keys.{canonical, is_valid_spammer_key, normalize_spammer_keys}

pub record GearSwitchRule : Type 0 where
  pub trigger : Text
  pub atk_keys : List Text
  pub def_keys : List Text

pub record GearSwitchConfig : Type 0 where
  pub enabled : Bool
  pub switch_delay_ms : ℕ
  pub rules : List GearSwitchRule

pub record ShiftModeConfig : Type 0 where
  pub enabled : Bool
  pub trigger_keys : List Text

pub record SpammerConfig : Type 0 where
  pub enabled : Bool
  pub delay_ms : ℕ
  pub keys : List Text
  pub shift_mode : ShiftModeConfig
  pub gear_switch : GearSwitchConfig

abbrev pub default_gear_switch : GearSwitchConfig
default_gear_switch = record { enabled = false; switch_delay_ms = 50; rules = [] }

abbrev pub default_shift_mode : ShiftModeConfig
default_shift_mode = record { enabled = false; trigger_keys = [] }

abbrev pub default_spammer : SpammerConfig
default_spammer = record {
  enabled = false;
  delay_ms = 16;
  keys = codes "F1" ∷ [];
  shift_mode = default_shift_mode;
  gear_switch = default_gear_switch;
}

-- `GearSwitchRule::clamped`.
unfoldable pub clamped_rule : GearSwitchRule → Option GearSwitchRule
clamped_rule rule =
    if is_valid_spammer_key (canonical rule.trigger)
    then some (record {
      trigger = canonical rule.trigger;
      atk_keys = normalize_spammer_keys rule.atk_keys;
      def_keys = normalize_spammer_keys rule.def_keys;
    })
    else none

unfoldable pub filter_map : {A B : Type 0} → (A → Option B) → List A → List B
filter_map f [] = []
filter_map f (x ∷ xs) = let rest = filter_map f xs in elim (f x) [ some y ↦ y ∷ rest | none ↦ rest ]

-- The filter on `seen.insert`: the triggers seen so far are an argument.
unfoldable pub keep_first : List Text → List GearSwitchRule → List GearSwitchRule
keep_first seen [] = []
keep_first seen (rule ∷ rules) =
    let without = keep_first seen rules in
    let rest = keep_first (rule.trigger ∷ seen) rules in
    if contains seen rule.trigger then without else rule ∷ rest

-- `GearSwitchConfig::clamped`.
unfoldable pub clamped_gear : GearSwitchConfig → GearSwitchConfig
clamped_gear gear = record {
  enabled = gear.enabled;
  switch_delay_ms = clamp 10 300 gear.switch_delay_ms;
  rules = keep_first [] (filter_map clamped_rule gear.rules);
}

unfoldable pub rule_for : GearSwitchConfig → Text → Option GearSwitchRule
rule_for gear key = find (λ rule. text_eq rule.trigger key) gear.rules

-- `ShiftModeConfig::normalized`.
unfoldable pub normalized_shift : ShiftModeConfig → ShiftModeConfig
normalized_shift shift = record {
  enabled = shift.enabled;
  trigger_keys = normalize_spammer_keys shift.trigger_keys;
}

unfoldable pub uses_trigger : ShiftModeConfig → Text → Bool
uses_trigger shift key = shift.enabled && any (λ trigger. text_eq trigger key) shift.trigger_keys

-- `SpammerConfig::normalized`.
unfoldable pub normalized : SpammerConfig → SpammerConfig
normalized config =
    let keys = normalize_spammer_keys config.keys in
    let shift : ShiftModeConfig = normalized_shift config.shift_mode in
    let gear : GearSwitchConfig = clamped_gear config.gear_switch in
    record config {
      keys = keys;
      shift_mode = record shift { trigger_keys = filter (contains keys) shift.trigger_keys };
      gear_switch = record gear { rules = filter (λ rule. contains keys rule.trigger) gear.rules };
    }

-- `SpammerConfig::clamped`.
unfoldable pub clamped_spammer : SpammerConfig → SpammerConfig
clamped_spammer config =
    let c : SpammerConfig = normalized config in record c { delay_ms = clamp 16 100 c.delay_ms }

unfoldable pub uses_shift_for : SpammerConfig → Text → Bool
uses_shift_for config = uses_trigger config.shift_mode

unfoldable pub validate_for_start : SpammerConfig → Result ToolsError (Unit {0})
validate_for_start config =
    let c : SpammerConfig = normalized config in
    if c.enabled && is_empty c.keys
    then err (other (literal (codes "Spammer: selecciona al menos una tecla")))
    else ok tt

-- The older gear switch had one set of keys for all triggers.
pub record GearSwitchConfigWire : Type 0 where
  pub enabled : Bool
  pub switch_delay_ms : ℕ
  pub rules : List GearSwitchRule
  pub trigger_keys : List Text
  pub atk_keys : List Text
  pub def_keys : List Text

pub record SpammerConfigWire : Type 0 where
  pub enabled : Bool
  pub delay_ms : ℕ
  pub keys : List Text
  pub shift_mode : ShiftModeConfig
  pub gear_switch : GearSwitchConfigWire

unfoldable pub has_legacy_config : GearSwitchConfigWire → Bool
has_legacy_config wire =
    not (is_empty wire.trigger_keys) || not (is_empty wire.atk_keys) || not (is_empty wire.def_keys)

unfoldable pub into_config : GearSwitchConfigWire → List Text → GearSwitchConfig
into_config wire spammer_keys = record {
  enabled = wire.enabled;
  switch_delay_ms = wire.switch_delay_ms;
  rules =
      if is_empty wire.rules && has_legacy_config wire
      then map
          (λ trigger. record {
            trigger = trigger;
            atk_keys = wire.atk_keys;
            def_keys = wire.def_keys;
          })
          (if is_empty wire.trigger_keys then spammer_keys else wire.trigger_keys)
      else wire.rules;
}

-- `Deserialize::deserialize`, from the decoded wire record on.
unfoldable pub from_wire : SpammerConfigWire → SpammerConfig
from_wire wire = record {
  enabled = wire.enabled;
  delay_ms = wire.delay_ms;
  keys = wire.keys;
  shift_mode = wire.shift_mode;
  gear_switch = into_config wire.gear_switch wire.keys;
}
