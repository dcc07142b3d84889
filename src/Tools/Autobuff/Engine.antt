-- ===== src/Tools/Autobuff/Engine.antt =====
-- crates/ro-tools-core/src/autobuff/engine.rs: at most one buff for each tick. The clock is an
-- argument, in nanoseconds; a `HashSet` is a list without repeats.
use nndsk_ro_launcher.Base.{
  ℕ, ◌-◌, ◌*◌, Bool, false, not, ◌&&◌, ◌||◌, Option, none, some, List, [], ◌∷◌, Text, ltb, ◌==◌,
  any, filter, length, if◌then◌else◌, Result, ok, err,
}
use nndsk_ro_launcher.Base.Dict.{Text-eq, lookup, insert}
use nndsk_ro_launcher.Tools.Ports.{
  ToolsError, other, incomplete_hp, read_u32_slice, press_key, Ports, Method, pure, perform, ◌>>=◌,
  ◌>>◌, get, modify,
}
use nndsk_ro_launcher.Tools.Autopot.Config.{ClientProfile, status_buffer_address}
use nndsk_ro_launcher.Tools.Spammer.Keys.{sort_by_key}
use nndsk_ro_launcher.Tools.Autobuff.Config.{AutobuffRule, AutobuffConfig, clamped_autobuff}

abbrev pub status_slots : ℕ
status_slots = 100

abbrev pub quagmire_id : ℕ
quagmire_id = 8

abbrev pub overthrust : ℕ
overthrust = 25

abbrev pub overthrust_max : ℕ
overthrust_max = 188

abbrev pub quagmire_blocked : List ℕ
quagmire_blocked = 3 ∷ 23 ∷ 68 ∷ 115 ∷ 116 ∷ []

pub record AutobuffTick : Type 0 where
  pub active_statuses : ℕ
  pub applied_rule : Option Text

-- The memory and the input are the `Ports` of each call.
pub record AutobuffEngine : Type 0 where
  pub config : AutobuffConfig
  pub profile : ClientProfile
  pub last_used : List (Text × ℕ)

unfoldable pub new_autobuff : AutobuffConfig → ClientProfile → AutobuffEngine
new_autobuff config profile = record {
  config = clamped_autobuff config;
  profile = profile;
  last_used = [];
}

unfoldable pub update_autobuff : AutobuffEngine → AutobuffConfig → AutobuffEngine
update_autobuff e config = record e { config = clamped_autobuff config }

unfoldable pub replace_autobuff_memory : AutobuffEngine → AutobuffEngine
replace_autobuff_memory e = record e { last_used = [] }

abbrev pub has : List ℕ → ℕ → Bool
has ids id = any (λ x. x == id) ids

-- `collect` into a `HashSet`.
unfoldable pub to_set : List ℕ → List ℕ
to_set [] = []
to_set (x ∷ xs) = let rest = to_set xs in if has rest x then rest else x ∷ rest

abbrev pub is_status : ℕ → Bool
is_status id = not (id == 0) && not (id == 0xffffffff) && not (id == 210803216)

unfoldable pub active_of : List ℕ → List ℕ
active_of statuses = to_set (filter is_status statuses)

unfoldable pub is_present : List ℕ → AutobuffRule → Bool
is_present active rule =
    has active rule.status_id || rule.status_id == overthrust && has active overthrust_max

abbrev pub within : ℕ → AutobuffRule → Option ℕ → Bool
within now rule none = false
within now rule (some last) = ltb (now - last) (rule.cooldown_ms * 1000000)

unfoldable pub is_cooling_down : AutobuffEngine → ℕ → AutobuffRule → Bool
is_cooling_down e now rule = within now rule (lookup rule.id e.last_used)

-- The loop goes on to the next rule.
unfoldable pub is_skipped : AutobuffEngine → List ℕ → ℕ → AutobuffRule → Bool
is_skipped e active now rule =
    is_present active rule
    || is_cooling_down e now rule
    || has active quagmire_id && has quagmire_blocked rule.status_id

unfoldable pub rules_in_order : AutobuffEngine → List AutobuffRule
rules_in_order e =
    sort_by_key (λ rule. rule.priority) (filter (λ rule. rule.enabled) e.config.rules)

-- The game takes an input only from a living character that has logged in.
unfoldable pub is_in_game : ℕ → ℕ → Bool
is_in_game current_hp max_hp = not (current_hp == 0 || max_hp == 0 || ltb max_hp current_hp)

unfoldable pub as_hp : List ℕ → Result ToolsError (ℕ × ℕ)
as_hp (current_hp ∷ max_hp ∷ []) = ok (current_hp, max_hp)
as_hp hp = err (other (incomplete_hp (length hp)))

abbrev pub lift : {A : Type 0} → Result ToolsError A → Method AutobuffEngine A
lift r s h = (r, s, h)

module _ (ports : Ports) (now : ℕ) where
  unfoldable pub apply : List ℕ → AutobuffRule → Method AutobuffEngine AutobuffTick
  apply active rule = do
    perform (λ h. ports.on_press_key h rule.key) (press_key rule.key)
    modify (λ s. record s { last_used = insert rule.id now s.last_used })
    pure (record { active_statuses = length active; applied_rule = some rule.label })

  unfoldable pub apply_first : List ℕ → List AutobuffRule → Method AutobuffEngine AutobuffTick
  apply_first active [] e h =
      (ok (record { active_statuses = length active; applied_rule = none }), e, h)
  apply_first active (rule ∷ rules) e h =
      let rest = apply_first active rules e h in
      if is_skipped e active now rule then rest else apply active rule e h

  -- From the check of the bars on.
  unfoldable pub buff : ℕ × ℕ → Method AutobuffEngine AutobuffTick
  buff (current_hp, max_hp) = do
    e ← get
    if is_in_game current_hp max_hp
        then (do
          statuses ←
              perform
                (λ h. ports.on_read_u32_slice h (status_buffer_address e.profile) status_slots)
                (read_u32_slice (status_buffer_address e.profile) status_slots)
          apply_first (active_of statuses) (rules_in_order e))
        else pure (record { active_statuses = 0; applied_rule = none })

  unfoldable pub tick_autobuff : Method AutobuffEngine AutobuffTick
  tick_autobuff = do
    e ← get
    hp ←
        perform (λ h. ports.on_read_u32_slice h e.profile.hp_base 2)
          (read_u32_slice e.profile.hp_base 2)
    bars ← lift (as_hp hp)
    buff bars
