-- ===== src/Tools/Spammer/Rules.antt =====
-- Which rule of the gear switch answers to a trigger, after the normal form and after the migration
-- of the older gear switch; and when Shift is held.
use mathlib.Core.Option
use nndsk_ro_launcher.Base.{
  is_empty, ◌||◌, if◌then◌else◌, Bool, ◌≡◌, ◌≢◌, ◌↔◌, ◌⊎◌, ◌∙◌, refl, inl, inr, sym, true, none,
  some, List, [], ◌∷◌, map, arith, Text, In, In-filter, filter-In, filter, find, any, contains,
  contains_iff, text_eq, text_eq_iff, text_eq-false, Bool-cases,
}
use nndsk_ro_launcher.Tools.Spammer.Keys.{
  spammer_key_labels, canonical, is_valid_spammer_key, normalize_spammer_keys,
}
use nndsk_ro_launcher.Tools.Spammer.Keys.Canonical.{canonical_idem}
use nndsk_ro_launcher.Tools.Spammer.Keys.Normal.{normalize_spammer_keys_iff}
use nndsk_ro_launcher.Tools.Spammer.Config.{
  GearSwitchRule, SpammerConfig, SpammerConfigWire, clamped_rule, filter_map, keep_first,
  clamped_gear, rule_for, uses_trigger, uses_shift_for, normalized_shift, normalized, into_config,
  from_wire, has_legacy_config,
}
use nndsk_ro_launcher.Tools.Spammer.Repeats.{find-keep_first, filter_map-none, filter_map-some}

find-filter :
    (key : Text) (keys : List Text) (rs : List GearSwitchRule)
    → contains keys key ≡ true
    → find (λ rule. text_eq rule.trigger key) (filter (λ rule. contains keys rule.trigger) rs)
      ≡ find (λ rule. text_eq rule.trigger key) rs
unfolding filter
find-filter key keys [] h = refl
find-filter key keys (r ∷ rs) h = elim (Bool-cases (text_eq r.trigger key)) [
  | inl e ↦
      let active : contains keys r.trigger ≡ true = rw ((text_eq_iff r.trigger key).0 e) h in
      rw (active, e) refl
  | inr e ↦ elim (Bool-cases (contains keys r.trigger)) [
    | inl a ↦ rw (a, e) (find-filter key keys rs h)
    | inr a ↦ rw (a, e) (find-filter key keys rs h)
  ]
]

abbrev rule_of : (trigger : Text) (atk_keys def_keys : List Text) → GearSwitchRule
rule_of trigger atk_keys def_keys = record {
  trigger = trigger;
  atk_keys = atk_keys;
  def_keys = def_keys;
}

-- A rule for a key, with its sets of keys in normal form.
abbrev pub normal_rule : Text → GearSwitchRule → GearSwitchRule
normal_rule key rule =
    rule_of key (normalize_spammer_keys rule.atk_keys) (normalize_spammer_keys rule.def_keys)

clamped_rule_valid :
    (rule : GearSwitchRule)
    → In (canonical rule.trigger) spammer_key_labels
    → clamped_rule rule ≡ some (normal_rule (canonical rule.trigger) rule)
unfolding clamped_rule is_valid_spammer_key
clamped_rule_valid rule h =
    let k = rule.trigger in
    rw (canonical_idem k, (contains_iff spammer_key_labels (canonical k)).1 h) refl

clamped_rule-cases :
    (rule : GearSwitchRule)
    → (clamped_rule rule ≡ none)
      ⊎ (clamped_rule rule ≡ some (normal_rule (canonical rule.trigger) rule))
unfolding clamped_rule is_valid_spammer_key
clamped_rule-cases rule =
    elim (Bool-cases (contains spammer_key_labels (canonical (canonical rule.trigger)))) [
      | inl e ↦ inr (rw e refl)
      | inr e ↦ inl (rw e refl)
    ]

-- The trigger of a rule is a spelling of the key.
abbrev pub answers : Text → GearSwitchRule → Bool
answers key rule = text_eq (canonical rule.trigger) key

find-clamped :
    (key : Text) (rules : List GearSwitchRule)
    → In key spammer_key_labels
    → find (λ rule. text_eq rule.trigger key) (filter_map clamped_rule rules)
      ≡ Option.map (normal_rule key) (find (answers key) rules)
unfolding filter_map
find-clamped key [] label = refl
find-clamped key (r ∷ rules) label = elim (Bool-cases (text_eq (canonical r.trigger) key)) [
  | inl e ↦
      let q = (text_eq_iff (canonical r.trigger) key).0 e in
      rw
        (
          filter_map-some clamped_rule r rules (normal_rule (canonical r.trigger) r)
              (clamped_rule_valid r (rw q label)),
          e,
          q,
        )
        refl
  | inr e ↦
      let rest = find-clamped key rules label in
      elim (clamped_rule-cases r) [
        | inl n ↦ rw (filter_map-none clamped_rule r rules n, e) rest
        | inr s ↦
            rw (filter_map-some clamped_rule r rules (normal_rule (canonical r.trigger) r) s, e)
              rest
      ]
]

-- For an active key, the rule is the first configured one whose trigger is a spelling of the key: its
-- canonical form is the key. The rule then has the key as its trigger, and its sets of keys are in
-- normal form.
pub rule_for-normalized :
    (c : SpammerConfig) (key : Text)
    → In key (normalize_spammer_keys c.keys)
    → rule_for (normalized c).gear_switch key
      ≡ Option.map (normal_rule key) (find (answers key) c.gear_switch.rules)
unfolding rule_for normalized clamped_gear
rule_for-normalized c key h =
    let keys : List Text = normalize_spammer_keys c.keys in
    let rules : List GearSwitchRule = filter_map clamped_rule c.gear_switch.rules in
    let label = ((normalize_spammer_keys_iff key c.keys).0 h).0 in
    rw (find-filter key keys (keep_first [] rules) ((contains_iff keys key).1 h))
      (find-keep_first key [] rules λ m. m)
    ∙ find-clamped key c.gear_switch.rules label

-- Rules that share their sets of keys: one for each trigger.
find-shared :
    (key : Text) (atk_keys def_keys triggers : List Text)
    → Option.map
        (normal_rule key)
        (find (answers key) (map (λ k. rule_of k atk_keys def_keys) triggers))
      ≡ (if contains (map canonical triggers) key
          then some (normal_rule key (rule_of key atk_keys def_keys))
          else none)
unfolding contains
find-shared key atk_keys def_keys [] = refl
find-shared key atk_keys def_keys (k ∷ triggers) = elim (Bool-cases (text_eq (canonical k) key)) [
  | inl e ↦
      let q = (text_eq_iff (canonical k) key).0 e in
      rw (e, (text_eq_iff key (canonical k)).1 (sym q)) refl
  | inr e ↦
      let ne : key ≢ canonical k = λ q. cc (e, (text_eq_iff (canonical k) key).1 (sym q)) in
      rw (e, text_eq-false key (canonical k) ne) (find-shared key atk_keys def_keys triggers)
]

-- A stored gear switch of the older form gives an active key of the spammer a rule with the two shared
-- sets of keys, if it has no triggers of its own or the key is, in some spelling, among them; else the
-- key has no rule.
pub rule_for-from_wire :
    (w : SpammerConfigWire) (key : Text)
    → w.gear_switch.rules ≡ []
    → has_legacy_config w.gear_switch ≡ true
    → In key (normalize_spammer_keys w.keys)
    → rule_for (normalized (from_wire w)).gear_switch key ≡ (
        if is_empty w.gear_switch.trigger_keys
          || contains (map canonical w.gear_switch.trigger_keys) key
        then some (record {
          trigger = key;
          atk_keys = normalize_spammer_keys w.gear_switch.atk_keys;
          def_keys = normalize_spammer_keys w.gear_switch.def_keys;
        })
        else none)
unfolding from_wire into_config
rule_for-from_wire w key no_rules legacy h =
    let m = ((normalize_spammer_keys_iff key w.keys).0 h).1 in
    let gear = w.gear_switch in
    let shared = find-shared key gear.atk_keys gear.def_keys in
    rule_for-normalized (from_wire w) key h ∙ elim (Bool-cases (is_empty gear.trigger_keys)) [
      | inl e ↦
          rw (legacy, no_rules, e)
            (shared w.keys ∙ rw ((contains_iff (map canonical w.keys) key).1 m) refl)
      | inr e ↦ rw (legacy, no_rules, e) (shared gear.trigger_keys)
    ]

any-text_eq : (key : Text) (xs : List Text) → any (λ x. text_eq x key) xs ≡ contains xs key
unfolding contains
any-text_eq key [] = refl
any-text_eq key (x ∷ xs) = elim (Bool-cases (text_eq x key)) [
  | inl e ↦ let q = (text_eq_iff x key).0 e in rw (e, (text_eq_iff key x).1 (sym q)) refl
  | inr e ↦
      let ne : key ≢ x = λ q. cc (e, (text_eq_iff x key).1 (sym q)) in
      rw (e, text_eq-false key x ne) (any-text_eq key xs)
]

-- Shift is held for a key exactly if the mode is enabled and the key is a supported one that stands,
-- in some spelling, among the keys and among the triggers of the mode.
pub uses_shift_for-normalized :
    (c : SpammerConfig) (key : Text)
    → (uses_shift_for (normalized c) key ≡ true)
      ↔ (c.shift_mode.enabled ≡ true)
        × In key spammer_key_labels
        × In key (map canonical c.keys)
        × In key (map canonical c.shift_mode.trigger_keys)
unfolding uses_shift_for uses_trigger normalized normalized_shift
uses_shift_for-normalized c key =
    let keys : List Text = normalize_spammer_keys c.keys in
    let triggers : List Text = normalize_spammer_keys c.shift_mode.trigger_keys in
    let active : List Text = filter (contains keys) triggers in
    let same = any-text_eq key active in
    (
      λ h.
          let m : In key active = (contains_iff active key).0 (ground (arith, same)) in
          let (t, k) = In-filter (contains keys) key triggers m in
          let (label, in_keys) =
            (normalize_spammer_keys_iff key c.keys).0 ((contains_iff keys key).0 k) in
          (
            ground arith,
            label,
            in_keys,
            ((normalize_spammer_keys_iff key c.shift_mode.trigger_keys).0 t).1,
          ),
      λ (enabled, label, in_keys, in_triggers).
          let t =
            (normalize_spammer_keys_iff key c.shift_mode.trigger_keys).1 (label, in_triggers) in
          let k =
            (contains_iff keys key).1
              ((normalize_spammer_keys_iff key c.keys).1 (label, in_keys)) in
          rw (enabled, same)
            ((contains_iff active key).1 (filter-In (contains keys) key triggers t k)),
    )
