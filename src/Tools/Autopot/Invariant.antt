-- ===== src/Tools/Autopot/Invariant.antt =====
-- What holds of an engine between two calls.
use nndsk_ro_launcher.Base.{◌<◌, ◌≡◌, ◌∷◌, arith, Result-cases, inl, inr, ◌+◌, ◌%◌}
use nndsk_ro_launcher.Tools.Ports.{read_string, read_u32_slice, History, Ports}
use nndsk_ro_launcher.Tools.Autopot.Config.{AutopotConfig, ClientProfile, InRange, clamped-InRange}
use nndsk_ro_launcher.Tools.Autopot.Engine.{
  u64_limit, AutopotEngine, Bars, new, update_config, as_bars, or_default, read_bars, refresh_name,
  pot_hp, pot_sp, third_hp, recover_hp, recover_sp, pulse, act, tick,
}

-- The configuration is in range, and fewer than three HP potions are counted.
pub record IsValid (e : AutopotEngine) : Type 0 where
  pub in_range : InRange e.config
  pub counted : e.hp_pot_count < 3

pub new-IsValid : (config : AutopotConfig) (profile : ClientProfile) → IsValid (new config profile)
unfolding new
new-IsValid config profile = record { in_range = clamped-InRange config; counted = ground arith }

pub update_config-IsValid :
    (e : AutopotEngine) (config : AutopotConfig) → IsValid (update_config e config)
unfolding update_config
update_config-IsValid e config = record {
  in_range = clamped-InRange config;
  counted = ground arith;
}

module _ (ports : Ports) where
  act-config :
      (bars : Bars) (e : AutopotEngine) (h : History) → (act ports bars e h).1.config ≡ e.config
  unfolding act recover_hp third_hp recover_sp pulse pot_hp pot_sp
  act-config bars e h = ground arith

  act-counted :
      (bars : Bars) (e : AutopotEngine) (h : History)
      → e.hp_pot_count < 3
      → (act ports bars e h).1.hp_pot_count < 3
  unfolding act recover_hp third_hp recover_sp pulse pot_hp pot_sp
  act-counted bars e h k = ground arith

  -- The engines that `act` may start from in a tick.
  abbrev counted_up : AutopotEngine → AutopotEngine
  counted_up e = record e { tick_count = (e.tick_count + 1) % u64_limit }

  abbrev named : AutopotEngine → History → AutopotEngine
  named e h = record (counted_up e) {
    cached_name = or_default (ports.on_read_string h e.profile.name_address 40);
  }

  tick-kept :
      (e : AutopotEngine) (h : History)
      → e.hp_pot_count < 3
      → ((tick ports e h).1.config ≡ e.config) × ((tick ports e h).1.hp_pot_count < 3)
  unfolding tick read_bars refresh_name
  tick-kept e h k = elim (Result-cases (ports.on_read_u32_slice h e.profile.hp_base 4)) [
    | inr (x, f) ↦ ground arith
    | inl (values, f) ↦ elim (Result-cases (as_bars values)) [
      | inr (x, g) ↦ ground arith
      | inl (bars, g) ↦
          let h' = read_u32_slice e.profile.hp_base 4 ∷ h in
          let h'' = read_string e.profile.name_address 40 ∷ h' in
          ground (
            arith,
            act-config bars (counted_up e) h',
            act-counted bars (counted_up e) h',
            act-config bars (named e h') h'',
            act-counted bars (named e h') h'',
          )
    ]
  ]

  -- A tick keeps an engine valid, also when a read or a press fails in its middle.
  pub tick-IsValid : (e : AutopotEngine) (h : History) → IsValid e → IsValid (tick ports e h).1
  tick-IsValid e h v =
      let (same, counted) = tick-kept e h v.counted in
      record { in_range = rw same v.in_range; counted = counted }
