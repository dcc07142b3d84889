-- ===== src/Tools/Autopot/Config.antt =====
-- crates/ro-tools-core/src/autopot/config.rs, and the client profile of domain.rs.
use nndsk_ro_launcher.Base.{
  ℕ, ◌+◌, ◌%◌, ◌≤◌, Bool, false, ◌||◌, Option, none, some, List, arith, Text, codes, trim, is_empty,
  clamp, if◌then◌else◌, Result, ok, err, and_then,
}
use nndsk_ro_launcher.Tools.Ports.{ToolsError, other, literal, invalid_hex}
use nndsk_ro_launcher.Tools.Hex.{parse_hex, u32_limit}

pub record ClientProfile : Type 0 where
  pub id : Text
  pub label : Text
  pub exe_names : List Text
  pub hp_base : ℕ
  pub name_address : ℕ

-- `u32` addition wraps.
unfoldable pub max_hp_address : ClientProfile → ℕ
max_hp_address p = (p.hp_base + 4) % u32_limit

unfoldable pub cur_sp_address : ClientProfile → ℕ
cur_sp_address p = (p.hp_base + 8) % u32_limit

unfoldable pub max_sp_address : ClientProfile → ℕ
max_sp_address p = (p.hp_base + 12) % u32_limit

unfoldable pub status_buffer_address : ClientProfile → ℕ
status_buffer_address p = (p.hp_base + 0x474) % u32_limit

pub record AutopotConfig : Type 0 where
  pub enabled : Bool
  pub hp_key : Text
  pub sp_key : Text
  pub hp_percent : ℕ
  pub sp_percent : ℕ
  pub delay_ms : ℕ
  pub proactive_mode : Bool
  pub profile_id : Option Text
  pub hp_base_override : Option Text
  pub name_address_override : Option Text
  pub level_address_override : Option Text
  pub job_level_address_override : Option Text
  pub map_address_override : Option Text

abbrev pub default_config : AutopotConfig
default_config = record {
  enabled = false;
  hp_key = codes "F8";
  sp_key = codes "F9";
  hp_percent = 80;
  sp_percent = 50;
  delay_ms = 100;
  proactive_mode = false;
  profile_id = none;
  hp_base_override = none;
  name_address_override = none;
  level_address_override = none;
  job_level_address_override = none;
  map_address_override = none;
}

unfoldable pub clamped : AutopotConfig → AutopotConfig
clamped c = record c {
  hp_percent = clamp 1 99 c.hp_percent;
  sp_percent = clamp 1 99 c.sp_percent;
  delay_ms = clamp 10 2000 c.delay_ms;
}

-- An override must be absent or a number in hex.
unfoldable pub check_override : Option Text → Result ToolsError (Unit {0})
check_override none = ok tt
check_override (some address) = elim (parse_hex address) [
  | some _ ↦ ok tt
  | none ↦ err (other (invalid_hex address))
]

abbrev pub is_blank : Text → Bool
is_blank s = is_empty (trim s)

abbrev pub is_blank_option : Option Text → Bool
is_blank_option none = false
is_blank_option (some s) = is_blank s

unfoldable pub validate : AutopotConfig → Result ToolsError (Unit {0})
validate c =
    if is_blank c.hp_key || is_blank c.sp_key
    then err (other (literal (codes "AutoPot: las teclas de HP y SP no pueden estar vacías")))
    else if is_blank_option c.profile_id
    then err (other (literal (codes "AutoPot: el perfil no puede estar vacío")))
    else and_then (check_override c.hp_base_override) λ _.
      and_then (check_override c.name_address_override) λ _.
        and_then (check_override c.level_address_override) λ _.
          and_then (check_override c.job_level_address_override)
            λ _. check_override c.map_address_override

-- The ranges that `clamped` promises.
pub record InRange (c : AutopotConfig) : Type 0 where
  pub hp_percent_low : 1 ≤ c.hp_percent
  pub hp_percent_high : c.hp_percent ≤ 99
  pub sp_percent_low : 1 ≤ c.sp_percent
  pub sp_percent_high : c.sp_percent ≤ 99
  pub delay_low : 10 ≤ c.delay_ms
  pub delay_high : c.delay_ms ≤ 2000

pub clamped-InRange : (c : AutopotConfig) → InRange (clamped c)
unfolding clamped clamp
clamped-InRange c = ground arith
