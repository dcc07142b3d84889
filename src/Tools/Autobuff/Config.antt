-- ===== src/Tools/Autobuff/Config.antt =====
-- crates/ro-tools-core/src/autobuff/config.rs: the rules, their normal form and their validation.
use nndsk_ro_launcher.Base.{
  ℕ, ◌≡◌, ◌≢◌, ◌↔◌, refl, inl, inr, Bool, true, false, not, ◌||◌, List, [], ◌∷◌, map, arith, Text,
  codes, trim, is_empty, any, In, All, ◌<◌, clamp, ◌==◌, if◌then◌else◌, Result, ok, err, Bool-cases,
}
use nndsk_ro_launcher.Tools.Ports.{
  ToolsError, other, literal, unsupported_rule_key, repeated_status_id,
}
use nndsk_ro_launcher.Tools.Spammer.Keys.{canonical, is_valid_spammer_key}

pub record AutobuffRule : Type 0 where
  pub id : Text
  pub label : Text
  pub status_id : ℕ
  pub key : Text
  pub cooldown_ms : ℕ
  pub priority : ℕ
  pub enabled : Bool

pub record AutobuffConfig : Type 0 where
  pub enabled : Bool
  pub delay_ms : ℕ
  pub rules : List AutobuffRule

abbrev pub default_autobuff : AutobuffConfig
default_autobuff = record { enabled = false; delay_ms = 300; rules = [] }

abbrev pub normalized_key : AutobuffRule → AutobuffRule
normalized_key rule = record rule { key = canonical rule.key }

-- `AutobuffConfig::normalized`.
unfoldable pub normalized_rules : AutobuffConfig → AutobuffConfig
normalized_rules config = record config { rules = map normalized_key config.rules }

abbrev pub clamped_cooldown : AutobuffRule → AutobuffRule
clamped_cooldown rule = record rule { cooldown_ms = clamp 100 60000 rule.cooldown_ms }

-- `AutobuffConfig::clamped`.
unfoldable pub clamped_autobuff : AutobuffConfig → AutobuffConfig
clamped_autobuff config =
    let c : AutobuffConfig = normalized_rules config in
    record c { delay_ms = clamp 100 2000 c.delay_ms; rules = map clamped_cooldown c.rules }

-- One of the three texts that each rule needs is blank.
unfoldable pub has_blank : AutobuffRule → Bool
has_blank rule = is_empty (trim rule.id) || is_empty (trim rule.label) || is_empty (trim rule.key)

-- The loop of `validate`, with the status ids seen so far.
unfoldable pub validate_rules : List ℕ → List AutobuffRule → Result ToolsError (Unit {0})
validate_rules seen [] = ok tt
validate_rules seen (rule ∷ rules) =
    let rest = validate_rules (rule.status_id ∷ seen) rules in
    if has_blank rule
    then err (other (literal (codes "AutoBuff: cada regla necesita identificador, nombre y tecla")))
    else if rule.status_id == 0
    then err (other (literal (codes "AutoBuff: el status ID debe ser mayor que cero")))
    else if not (is_valid_spammer_key rule.key)
    then err (other (unsupported_rule_key rule.label rule.key))
    else if any (λ id. id == rule.status_id) seen
    then err (other (repeated_status_id rule.status_id))
    else rest

-- `AutobuffConfig::validate`.
unfoldable pub validate_autobuff : AutobuffConfig → Result ToolsError (Unit {0})
validate_autobuff config = validate_rules [] (normalized_rules config).rules

-- What the loop demands of the rules after those with the ids of `seen`.
Accepted : List ℕ → List AutobuffRule → Type 0
Accepted seen [] = Unit
Accepted seen (r ∷ rs) =
    (has_blank r ≡ false)
    × (r.status_id ≢ 0)
    × (is_valid_spammer_key r.key ≡ true)
    × (¬ In r.status_id seen)
    × Accepted (r.status_id ∷ seen) rs

any-In : (a : ℕ) (xs : List ℕ) → (any (λ x. x == a) xs ≡ true) ↔ In a xs
any-In a [] = (λ h. cc, λ h. absurd h)
any-In a (x ∷ xs) =
    let (to, from) = any-In a xs in
    (
      λ h. elim (Bool-cases (x == a)) [
        | inl e ↦ inl (ground arith)
        | inr e ↦ inr (to (ground arith))
      ],
      λ h. elim h [ inl e ↦ ground arith | inr m ↦ ground (arith, from m) ],
    )

validate_rules_iff :
    (seen : List ℕ) (rs : List AutobuffRule) → (validate_rules seen rs ≡ ok tt) ↔ Accepted seen rs
unfolding validate_rules Accepted
validate_rules_iff seen [] = (λ _. tt, λ _. refl)
validate_rules_iff seen (r ∷ rs) =
    let (to, from) = validate_rules_iff (r.status_id ∷ seen) rs in
    let (is_in, of_in) = any-In r.status_id seen in
    (λ h. ground (arith, to, of_in), λ h. ground (arith, from, is_in))

-- Nothing that a rule needs is missing.
pub record IsComplete (rule : AutobuffRule) : Type 0 where
  pub id_given : trim rule.id ≢ []
  pub label_given : trim rule.label ≢ []
  pub key_given : trim rule.key ≢ []
  pub status_given : 0 < rule.status_id
  pub key_supported : is_valid_spammer_key rule.key ≡ true

-- Each rule has a status id of its own.
pub HasDistinctIds : List AutobuffRule → Type 0
HasDistinctIds [] = Unit
HasDistinctIds (r ∷ rs) = All (λ q. q.status_id ≢ r.status_id) rs × HasDistinctIds rs

is_empty_iff : (t : Text) → (is_empty t ≡ false) ↔ (t ≢ [])
is_empty_iff [] = (λ e. cc e, λ h. absurd (h refl))
is_empty_iff (c ∷ t) = (λ _ e. cc e, λ _. refl)

-- The tests of one rule.
tests_iff :
    (r : AutobuffRule)
    → ((has_blank r ≡ false) × (r.status_id ≢ 0) × (is_valid_spammer_key r.key ≡ true))
      ↔ IsComplete r
unfolding has_blank
tests_iff r =
    let (id_to, id_from) = is_empty_iff (trim r.id) in
    let (label_to, label_from) = is_empty_iff (trim r.label) in
    let (key_to, key_from) = is_empty_iff (trim r.key) in
    (
      λ (b, z, v). record {
        id_given = id_to (ground arith);
        label_given = label_to (ground arith);
        key_given = key_to (ground arith);
        status_given = omega arith;
        key_supported = v;
      },
      λ c. (
        rw (id_from c.id_given, label_from c.label_given, key_from c.key_given) refl,
        (let p = c.status_given in λ e. omega arith),
        c.key_supported,
      ),
    )

fresh_iff :
    (a : ℕ) (seen : List ℕ) (rs : List AutobuffRule)
    → All (λ q. ¬ In q.status_id (a ∷ seen)) rs
      ↔ All (λ q. q.status_id ≢ a) rs × All (λ q. ¬ In q.status_id seen) rs
fresh_iff a seen [] = (λ _. (tt, tt), λ _. tt)
fresh_iff a seen (r ∷ rs) =
    let (to, from) = fresh_iff a seen rs in
    (
      λ (n, h). let (k, l) = to h in ((λ e. n (inl e), k), (λ m. n (inr m), l)),
      λ ((n, k), (o, l)). (λ m. elim m [ inl e ↦ n e | inr i ↦ o i ], from (k, l)),
    )

Accepted-iff :
    (seen : List ℕ) (rs : List AutobuffRule)
    → Accepted seen rs ↔ All IsComplete rs × HasDistinctIds rs × All (λ q. ¬ In q.status_id seen) rs
unfolding Accepted HasDistinctIds
Accepted-iff seen [] = (λ _. (tt, tt, tt), λ _. tt)
Accepted-iff seen (r ∷ rs) =
    let (to, from) = Accepted-iff (r.status_id ∷ seen) rs in
    let (split, join) = fresh_iff r.status_id seen rs in
    let (complete, tests) = tests_iff r in
    (
      λ (b, z, v, n, h).
          let (c, d, f) = to h in let (k, l) = split f in ((complete (b, z, v), c), (k, d), (n, l)),
      λ ((c, cs), (k, d), (n, l)).
          let (b, z, v) = tests c in (b, z, v, n, from (cs, d, join (k, l))),
    )

All-unseen : (rs : List AutobuffRule) → All (λ q. ¬ In q.status_id []) rs
All-unseen [] = tt
All-unseen (r ∷ rs) = (λ m. m, All-unseen rs)

-- A configuration is valid exactly if, once its keys are in normal form, every rule has an
-- identifier, a name, a positive status id and a supported key, and no status id occurs twice.
pub validate_autobuff_iff :
    (c : AutobuffConfig)
    → (validate_autobuff c ≡ ok tt)
      ↔ All IsComplete (normalized_rules c).rules × HasDistinctIds (normalized_rules c).rules
unfolding validate_autobuff
validate_autobuff_iff c =
    let rules = (normalized_rules c).rules in
    let (to, from) = validate_rules_iff [] rules in
    let (split, join) = Accepted-iff [] rules in
    (
      λ h. let (complete, distinct, _) = split (to h) in (complete, distinct),
      λ (complete, distinct). from (join (complete, distinct, All-unseen rules)),
    )
