-- ===== src/Tools/Autopot/Engine.antt =====
-- crates/ro-tools-core/src/autopot/engine.rs. Machine words wrap, as in a release build.
use nndsk_ro_launcher.Base.{
  ℕ, ◌+◌, ◌*◌, ◌%◌, Bool, true, false, not, ◌&&◌, ◌||◌, List, [], ◌∷◌, Text, ltb, ◌==◌,
  if◌then◌else◌, Result, ok, err, length,
}
use nndsk_ro_launcher.Tools.Hex.{u32_limit}
use nndsk_ro_launcher.Tools.Ports.{
  ToolsError, other, incomplete_hp_sp, read_u32_slice, read_string, press_key, Ports, Method, pure,
  perform, ◌>>=◌, ◌>>◌, get, modify,
}
use nndsk_ro_launcher.Tools.Autopot.Config.{AutopotConfig, ClientProfile, clamped}

abbrev pub u64_limit : ℕ
u64_limit = 18446744073709551616

pub record AutopotTick : Type 0 where
  pub cur_hp : ℕ
  pub max_hp : ℕ
  pub cur_sp : ℕ
  pub max_sp : ℕ
  pub character_name : Text
  pub potted_hp : Bool
  pub potted_sp : Bool
  pub proactive_hp_pulse : Bool

-- The memory and the input are the `Ports` of each call.
pub record AutopotEngine : Type 0 where
  pub config : AutopotConfig
  pub profile : ClientProfile
  pub hp_pot_count : ℕ
  pub tick_count : ℕ
  pub cached_name : Text

unfoldable pub new : AutopotConfig → ClientProfile → AutopotEngine
new config profile = record {
  config = clamped config;
  profile = profile;
  hp_pot_count = 0;
  tick_count = 0;
  cached_name = [];
}

unfoldable pub update_config : AutopotEngine → AutopotConfig → AutopotEngine
update_config e config = record e { config = clamped config; hp_pot_count = 0 }

unfoldable pub replace_memory : AutopotEngine → AutopotEngine
replace_memory e = record e { cached_name = []; tick_count = 0 }

-- `is_hp_below` and `is_sp_below`, at their percentage.
unfoldable pub is_below : (percent cur max_value : ℕ) → Bool
is_below percent cur max_value =
    ltb 0 max_value && ltb (cur * 100 % u32_limit) (percent * max_value % u32_limit)

unfoldable pub is_hp_below : AutopotEngine → ℕ → ℕ → Bool
is_hp_below e = is_below e.config.hp_percent

unfoldable pub is_sp_below : AutopotEngine → ℕ → ℕ → Bool
is_sp_below e = is_below e.config.sp_percent

-- The bars that one read gives.
pub record Bars : Type 0 where
  pub cur_hp : ℕ
  pub max_hp : ℕ
  pub cur_sp : ℕ
  pub max_sp : ℕ

unfoldable pub as_bars : List ℕ → Result ToolsError Bars
as_bars (a ∷ b ∷ c ∷ d ∷ []) = ok (record { cur_hp = a; max_hp = b; cur_sp = c; max_sp = d })
as_bars values = err (other (incomplete_hp_sp (length values)))

abbrev pub lift : {S A : Type 0} → Result ToolsError A → Method S A
lift r s h = (r, s, h)

-- `read_string(..).unwrap_or_default()`.
abbrev pub or_default : Result ToolsError Text → Text
or_default (ok s) = s
or_default (err _) = []

module _ (ports : Ports) where
  abbrev pub press : Text → Method AutopotEngine (Unit {0})
  press key = perform (λ h. ports.on_press_key h key) (press_key key)

  unfoldable pub pot_hp : Method AutopotEngine (Unit {0})
  pot_hp = do e ← get; press e.config.hp_key

  unfoldable pub pot_sp : Method AutopotEngine (Unit {0})
  pot_sp = do e ← get; press e.config.sp_key

  unfoldable pub read_bars : Method AutopotEngine Bars
  read_bars = do
    e ← get
    values ←
        perform (λ h. ports.on_read_u32_slice h e.profile.hp_base 4)
          (read_u32_slice e.profile.hp_base 4)
    lift (as_bars values)

  -- The name is read on the first tick and on every twentieth.
  abbrev pub reads_name : ℕ → Bool
  reads_name count = count == 1 || count % 20 == 0

  unfoldable pub refresh_name : Method AutopotEngine (Unit {0})
  refresh_name e h =
      if reads_name e.tick_count
      then (
        ok tt,
        record e { cached_name = or_default (ports.on_read_string h e.profile.name_address 40) },
        read_string e.profile.name_address 40 ∷ h,
      )
      else (ok tt, e, h)

  -- The third HP potion in a row also restores SP.
  unfoldable pub third_hp : Bars → Method AutopotEngine Bool
  third_hp bars = do
    e ← get
    if e.hp_pot_count == 3
        then (do
          modify (λ s. record s { hp_pot_count = 0 })
          if is_sp_below e bars.cur_sp bars.max_sp then (do pot_sp; pure true) else pure false)
        else pure false

  -- Whether HP and SP potions were used.
  unfoldable pub recover_hp : Bars → Method AutopotEngine (Bool × Bool)
  recover_hp bars = do
    e ← get
    if is_hp_below e bars.cur_hp bars.max_hp
        then (do
          pot_hp
          modify (λ s. record s { hp_pot_count = (s.hp_pot_count + 1) % u32_limit })
          potted_sp ← third_hp bars
          pure (true, potted_sp))
        else pure (false, false)

  unfoldable pub recover_sp : Bars → Bool → Method AutopotEngine Bool
  recover_sp bars potted_sp = do
    e ← get
    if is_sp_below e bars.cur_sp bars.max_sp && not potted_sp
        then (do pot_sp; pure true)
        else pure potted_sp

  unfoldable pub pulse : Bool → Bool → Method AutopotEngine Bool
  pulse potted_hp potted_sp = do
    e ← get
    if e.config.proactive_mode && not potted_hp && not potted_sp
        then (do pot_hp; pure true)
        else pure false

  -- From the bars on.
  unfoldable pub act : Bars → Method AutopotEngine AutopotTick
  act bars = do
    e ← get
    (potted_hp, sp_early) ← recover_hp bars
    potted_sp ← recover_sp bars sp_early
    pulsed ← pulse potted_hp potted_sp
    pure (record {
      cur_hp = bars.cur_hp;
      max_hp = bars.max_hp;
      cur_sp = bars.cur_sp;
      max_sp = bars.max_sp;
      character_name = e.cached_name;
      potted_hp = potted_hp;
      potted_sp = potted_sp;
      proactive_hp_pulse = pulsed;
    })

  unfoldable pub tick : Method AutopotEngine AutopotTick
  tick = do
    modify (λ s. record s { tick_count = (s.tick_count + 1) % u64_limit })
    bars ← read_bars
    refresh_name
    act bars
