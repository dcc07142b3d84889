-- ===== src/Tools/Autopot/Reference.antt =====
-- The engine against a reading of it without the count of HP potions.
use nndsk_ro_launcher.Base.{
  ◌≡◌, Bool, true, false, not, ◌&&◌, ◌∷◌, arith, Text, if◌then◌else◌, Result, ok, err, Result-cases,
  inl, inr, ◌+◌, ◌%◌,
}
use nndsk_ro_launcher.Tools.Ports.{
  ToolsError, press_key, read_u32_slice, read_string, History, Ports,
}
use nndsk_ro_launcher.Tools.Autopot.Config.{AutopotConfig}
use nndsk_ro_launcher.Tools.Autopot.Engine.{
  u64_limit, AutopotEngine, AutopotTick, Bars, is_below, reads_name, as_bars, or_default, read_bars,
  refresh_name, is_hp_below, is_sp_below, pot_hp, pot_sp, third_hp, recover_hp, recover_sp, pulse,
  act, tick,
}

module _ (ports : Ports) where
  -- A press of a key, if it is wanted; the history grows by the call.
  abbrev pub press_if : Bool → Text → History → Result ToolsError (Unit {0}) × History
  press_if true key h = (ports.on_press_key h key, press_key key ∷ h)
  press_if false key h = (ok tt, h)

  abbrev pub then_press :
      Result ToolsError (Unit {0}) × History → Bool → Text → Result ToolsError (Unit {0}) × History
  then_press (ok _, h) wanted key = press_if wanted key h
  then_press (err e, h) wanted key = (err e, h)

  -- HP if it is low, then SP if it is low, then the proactive press if neither was.
  abbrev pub plain_presses : AutopotConfig → Bars → History → Result ToolsError (Unit {0}) × History
  plain_presses c bars h =
      let hp = is_below c.hp_percent bars.cur_hp bars.max_hp in
      let sp = is_below c.sp_percent bars.cur_sp bars.max_sp in
      then_press (then_press (press_if hp c.hp_key h) sp c.sp_key)
        (c.proactive_mode && not hp && not sp) c.hp_key

  abbrev pub forget : Result ToolsError AutopotTick → Result ToolsError (Unit {0})
  forget (ok _) = ok tt
  forget (err e) = err e

  act-presses :
      (bars : Bars) (e : AutopotEngine) (h : History)
      → let (r, _, h') = act ports bars e h in (forget r, h') ≡ plain_presses e.config bars h
  unfolding act recover_hp third_hp recover_sp pulse pot_hp pot_sp is_hp_below is_sp_below
  act-presses bars e h = ground arith

  -- What a tick reports, if it succeeds: the bars, and which keys it pressed and why.
  pub act_reports :
      (bars : Bars) (e : AutopotEngine) (h : History) (t : AutopotTick)
      → (act ports bars e h).0 ≡ ok t
      → let hp = is_below e.config.hp_percent bars.cur_hp bars.max_hp in
        let sp = is_below e.config.sp_percent bars.cur_sp bars.max_sp in
        (t.potted_hp ≡ hp)
        × (t.potted_sp ≡ sp)
        × (t.proactive_hp_pulse ≡ (e.config.proactive_mode && not hp && not sp))
        × (t.cur_hp ≡ bars.cur_hp)
        × (t.character_name ≡ e.cached_name)
  unfolding act recover_hp third_hp recover_sp pulse pot_hp pot_sp is_hp_below is_sp_below
  act_reports bars e h t k = ground arith

  abbrev pub name_call : AutopotEngine → History → History
  name_call e h =
      if reads_name ports ((e.tick_count + 1) % u64_limit)
      then read_string e.profile.name_address 40 ∷ h
      else h

  -- A tick without the count of HP potions: one read of four values, the read of the name where it
  -- is due, and the plain presses.
  abbrev pub plain_tick : AutopotEngine → History → Result ToolsError (Unit {0}) × History
  plain_tick e h =
      let h' = read_u32_slice e.profile.hp_base 4 ∷ h in
      elim (ports.on_read_u32_slice h e.profile.hp_base 4) [
        | err x ↦ (err x, h')
        | ok values ↦ elim (as_bars values) [
          | err x ↦ (err x, h')
          | ok bars ↦ plain_presses e.config bars (name_call e h')
        ]
      ]

  -- The calls that a tick makes, their order and the error that ends it do not depend on how many
  -- HP potions were counted before: they are those of the plain tick.
  pub tick-eq-plain_tick :
      (e : AutopotEngine) (h : History)
      → let (r, _, h') = tick ports e h in (forget r, h') ≡ plain_tick e h
  unfolding tick read_bars refresh_name
  tick-eq-plain_tick e h = elim (Result-cases (ports.on_read_u32_slice h e.profile.hp_base 4)) [
    | inr (x, f) ↦ ground arith
    | inl (values, f) ↦ elim (Result-cases (as_bars values)) [
      | inr (x, g) ↦ ground arith
      | inl (bars, g) ↦
          let counted = record e { tick_count = (e.tick_count + 1) % u64_limit } in
          let h' = read_u32_slice e.profile.hp_base 4 ∷ h in
          let named = record counted {
            cached_name = or_default (ports.on_read_string h' e.profile.name_address 40);
          } in
          ground (
            arith,
            act-presses bars counted h',
            act-presses bars named (read_string e.profile.name_address 40 ∷ h'),
          )
    ]
  ]
