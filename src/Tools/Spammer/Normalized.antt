-- ===== src/Tools/Spammer/Normalized.antt =====
-- The normal form of a spammer configuration: what it promises to the engine, and that it is
-- reached at once.
use nndsk_ro_launcher.Base.{
  ◌≤◌, ◌≡◌, ◌⊎◌, refl, inl, inr, Bool, true, none, some, List, [], ◌∷◌, arith, Text, All, In,
  filter, contains, contains_iff, clamp_bounds, clamp_inside, clamp_idem, Bool-cases,
}
use nndsk_ro_launcher.Tools.Spammer.Keys.{
  spammer_key_labels, canonical, is_valid_spammer_key, normalize_spammer_keys,
}
use nndsk_ro_launcher.Tools.Spammer.Keys.Canonical.{canonical_idem}
use nndsk_ro_launcher.Tools.Spammer.Keys.Sorting.{All-map}
use nndsk_ro_launcher.Tools.Spammer.Keys.Normal.{
  IsKeyList, normalize_spammer_keys-IsKeyList, normalize_spammer_keys-eq, In-labels-canonical,
}
use nndsk_ro_launcher.Tools.Spammer.Config.{
  GearSwitchRule, SpammerConfig, clamped_rule, filter_map, keep_first, clamped_gear,
  normalized_shift, normalized, clamped_spammer,
}
use nndsk_ro_launcher.Tools.Spammer.Repeats.{
  filter-All, filter-holds, filter-eq, All-every, filter-IsKeyList, Distinct, filter-Distinct,
  keep_first-All, keep_first-Distinct, keep_first-eq, filter_map-none, filter_map-some,
}

-- What the engine may rely on.
pub record IsReadyRule (rule : GearSwitchRule) : Type 0 where
  pub trigger : In rule.trigger spammer_key_labels
  pub atk_keys : IsKeyList rule.atk_keys
  pub def_keys : IsKeyList rule.def_keys

pub record IsNormal (c : SpammerConfig) : Type 0 where
  pub keys : IsKeyList c.keys
  pub shift_keys : IsKeyList c.shift_mode.trigger_keys
  pub shift_keys_in : All (λ k. In k c.keys) c.shift_mode.trigger_keys
  pub rules : All IsReadyRule c.gear_switch.rules
  pub rules_in : All (λ r. In r.trigger c.keys) c.gear_switch.rules
  pub rules_distinct : Distinct c.gear_switch.rules
  pub switch_delay_low : 10 ≤ c.gear_switch.switch_delay_ms
  pub switch_delay_high : c.gear_switch.switch_delay_ms ≤ 300

clamped_rule-cases :
    (r : GearSwitchRule)
    → (clamped_rule r ≡ none) ⊎ ((q : GearSwitchRule) × (clamped_rule r ≡ some q) × IsReadyRule q)
unfolding clamped_rule is_valid_spammer_key
clamped_rule-cases r =
    elim (Bool-cases (contains spammer_key_labels (canonical (canonical r.trigger)))) [
      | inl e ↦ inr (
        record {
          trigger = canonical r.trigger;
          atk_keys = normalize_spammer_keys r.atk_keys;
          def_keys = normalize_spammer_keys r.def_keys;
        },
        rw e refl,
        record {
          trigger =
              rw (canonical_idem r.trigger) at
                ((contains_iff spammer_key_labels (canonical (canonical r.trigger))).0 e);
          atk_keys = normalize_spammer_keys-IsKeyList r.atk_keys;
          def_keys = normalize_spammer_keys-IsKeyList r.def_keys;
        },
      )
      | inr e ↦ inl (rw e refl)
    ]

clamped_rule-IsReadyRule : (rs : List GearSwitchRule) → All IsReadyRule (filter_map clamped_rule rs)
unfolding filter_map
clamped_rule-IsReadyRule [] = tt
clamped_rule-IsReadyRule (r ∷ rs) = elim (clamped_rule-cases r) [
  | inl e ↦ rw (filter_map-none clamped_rule r rs e) (clamped_rule-IsReadyRule rs)
  | inr (q, e, h) ↦ rw (filter_map-some clamped_rule r rs q e) (h, clamped_rule-IsReadyRule rs)
]

filter-contains : (keys xs : List Text) → All (λ k. In k keys) (filter (contains keys) xs)
filter-contains keys xs =
    All-map (λ k (e : contains keys k ≡ true). (contains_iff keys k).0 e)
      (filter (contains keys) xs) (filter-holds (contains keys) xs)

-- `normalized` gives a configuration in normal form.
pub normalized-IsNormal : (c : SpammerConfig) → IsNormal (normalized c)
unfolding normalized normalized_shift clamped_gear
normalized-IsNormal c =
    let keys : List Text = normalize_spammer_keys c.keys in
    let rules : List GearSwitchRule = keep_first [] (filter_map clamped_rule c.gear_switch.rules) in
    let active : GearSwitchRule → Bool = λ rule. contains keys rule.trigger in
    let (low, high) = clamp_bounds 10 300 c.gear_switch.switch_delay_ms (omega arith) in
    record {
      keys = normalize_spammer_keys-IsKeyList c.keys;
      shift_keys =
          filter-IsKeyList (contains keys) (normalize_spammer_keys c.shift_mode.trigger_keys)
            (normalize_spammer_keys-IsKeyList c.shift_mode.trigger_keys);
      shift_keys_in = filter-contains keys (normalize_spammer_keys c.shift_mode.trigger_keys);
      rules = filter-All IsReadyRule active rules (
          keep_first-All IsReadyRule [] (filter_map clamped_rule c.gear_switch.rules)
            (clamped_rule-IsReadyRule c.gear_switch.rules));
      rules_in =
          All-map (λ r (e : contains keys r.trigger ≡ true). (contains_iff keys r.trigger).0 e)
            (filter active rules) (filter-holds active rules);
      rules_distinct =
          filter-Distinct active rules
            (keep_first-Distinct [] (filter_map clamped_rule c.gear_switch.rules));
      switch_delay_low = low;
      switch_delay_high = high;
    }

clamped_rule_ready : (r : GearSwitchRule) → IsReadyRule r → clamped_rule r ≡ some r
unfolding clamped_rule is_valid_spammer_key
clamped_rule_ready r h =
    rw
      (
        In-labels-canonical r.trigger h.trigger,
        In-labels-canonical r.trigger h.trigger,
        (contains_iff spammer_key_labels r.trigger).1 h.trigger,
        normalize_spammer_keys-eq r.atk_keys h.atk_keys,
        normalize_spammer_keys-eq r.def_keys h.def_keys,
      )
      refl

clamped_rule-eq : (rs : List GearSwitchRule) → All IsReadyRule rs → filter_map clamped_rule rs ≡ rs
unfolding filter_map
clamped_rule-eq [] h = refl
clamped_rule-eq (r ∷ rs) h =
    rw (filter_map-some clamped_rule r rs r (clamped_rule_ready r h.0), clamped_rule-eq rs h.1) refl

contains-eq : (keys xs : List Text) → All (λ k. In k keys) xs → filter (contains keys) xs ≡ xs
contains-eq keys xs h =
    filter-eq (contains keys) xs (All-map (λ k (m : In k keys). (contains_iff keys k).1 m) xs h)

-- A configuration in normal form is left alone.
pub normalized-eq : (c : SpammerConfig) → IsNormal c → normalized c ≡ c
unfolding normalized normalized_shift clamped_gear
normalized-eq c h =
    let active : GearSwitchRule → Bool = λ rule. contains c.keys rule.trigger in
    rw
      (
        normalize_spammer_keys-eq c.keys h.keys,
        normalize_spammer_keys-eq c.shift_mode.trigger_keys h.shift_keys,
        contains-eq c.keys c.shift_mode.trigger_keys h.shift_keys_in,
        clamped_rule-eq c.gear_switch.rules h.rules,
        keep_first-eq [] c.gear_switch.rules (All-every (λ r m. m) c.gear_switch.rules)
            h.rules_distinct,
        filter-eq active c.gear_switch.rules (
            All-map (λ r (m : In r.trigger c.keys). (contains_iff c.keys r.trigger).1 m)
              c.gear_switch.rules h.rules_in),
        clamp_inside 10 300 c.gear_switch.switch_delay_ms h.switch_delay_low h.switch_delay_high,
      )
      refl

-- Normalizing twice is normalizing once.
normalized_idem : (c : SpammerConfig) → normalized (normalized c) ≡ normalized c
normalized_idem c = normalized-eq (normalized c) (normalized-IsNormal c)

-- What a started engine holds is in normal form, with a delay from 16 to 100 milliseconds, and
-- clamping it again changes nothing.
pub clamped_spammer-IsNormal :
    (c : SpammerConfig)
    → IsNormal (clamped_spammer c)
      × (16 ≤ (clamped_spammer c).delay_ms)
      × ((clamped_spammer c).delay_ms ≤ 100)
      × (clamped_spammer (clamped_spammer c) ≡ clamped_spammer c)
unfolding clamped_spammer
clamped_spammer-IsNormal c =
    let h = normalized-IsNormal c in
    let (low, high) = clamp_bounds 16 100 (normalized c).delay_ms (omega arith) in
    let ready : IsNormal (clamped_spammer c) = record {
      keys = h.keys;
      shift_keys = h.shift_keys;
      shift_keys_in = h.shift_keys_in;
      rules = h.rules;
      rules_in = h.rules_in;
      rules_distinct = h.rules_distinct;
      switch_delay_low = h.switch_delay_low;
      switch_delay_high = h.switch_delay_high;
    } in
    (
      ready,
      low,
      high,
      rw
          (
            normalized-eq (clamped_spammer c) ready,
            clamp_idem 16 100 (normalized c).delay_ms (omega arith),
          )
          refl,
    )
