-- ===== src/Tools/Autobuff/Choice.antt =====
-- Which buff a tick of AutoBuff applies.
use nndsk_ro_launcher.Base.{
  ℕ, ◌≤◌, ◌≡◌, ◌⊎◌, refl, inl, inr, ap, true, false, List, [], ◌∷◌, arith, All-In, In, In-filter,
  filter-In, filter, Bool-cases, Result, ok, Result-cases,
}
use nndsk_ro_launcher.Tools.Ports.{ToolsError, History, Ports, pressed, read_u32_slice}
use nndsk_ro_launcher.Tools.Autopot.Config.{status_buffer_address}
use nndsk_ro_launcher.Tools.Spammer.Keys.Sorting.{Sorted, sort_by_key-Sorted, In-sort_by_key}
use nndsk_ro_launcher.Tools.Autobuff.Config.{AutobuffRule}
use nndsk_ro_launcher.Tools.Autobuff.Engine.{
  AutobuffEngine, active_of, is_skipped, rules_in_order, is_in_game, as_hp, apply, apply_first,
  buff, tick_autobuff,
}

-- The rule is enabled and due, and no other such rule comes before it.
pub record IsLeast (e : AutobuffEngine) (active : List ℕ) (now : ℕ) (rule : AutobuffRule)
    : Type 0 where
  pub configured : In rule e.config.rules
  pub enabled : rule.enabled ≡ true
  pub due : is_skipped e active now rule ≡ false
  pub least :
      (q : AutobuffRule)
      → In q e.config.rules
      → q.enabled ≡ true
      → is_skipped e active now q ≡ false
      → rule.priority ≤ q.priority

by_priority : AutobuffRule → ℕ
by_priority rule = rule.priority

module _ (ports : Ports) (now : ℕ) (e : AutobuffEngine) (active : List ℕ) (h : History) where
  -- The first rule of a sorted list that is not skipped, or none.
  FirstDue : List AutobuffRule → Type 0
  FirstDue rules =
      ((rule : AutobuffRule) × In rule rules
        × (is_skipped e active now rule ≡ false)
        × ((q : AutobuffRule)
            → In q rules
            → is_skipped e active now q ≡ false
            → rule.priority ≤ q.priority)
        × (apply_first ports now active rules e h ≡ apply ports now active rule e h))
      ⊎ (((q : AutobuffRule) → In q rules → is_skipped e active now q ≡ true)
          × ((apply_first ports now active rules e h).2 ≡ h))

  apply_first-FirstDue :
      (rules : List AutobuffRule) → Sorted (λ rule. rule.priority) rules → FirstDue rules
  unfolding FirstDue apply_first Sorted
  apply_first-FirstDue [] s = inr (λ q m. absurd m, refl)
  apply_first-FirstDue (rule ∷ rules) s = elim (Bool-cases (is_skipped e active now rule)) [
    | inl k ↦ elim (apply_first-FirstDue rules s.1) [
      | inl (r, m, due, least, eq) ↦
          inl
            (r, inr m, due, λ q i d. elim i [ inl p ↦ cc (k, d, p) | inr j ↦ least q j d ], rw k eq)
      | inr (skipped, eq) ↦ inr (λ q i. elim i [ inl p ↦ rw p k | inr j ↦ skipped q j ], rw k eq)
    ]
    | inr k ↦ inl (
      rule,
      inl refl,
      k,
      λ q i d. elim i [
        | inl p ↦ omega (arith, ap (λ (x : AutobuffRule). x.priority) p)
        | inr j ↦ All-In (λ (y : AutobuffRule). rule.priority ≤ y.priority) q rules s.0 j
      ],
      rw k refl,
    )
  ]

  apply-pressed :
      (rule : AutobuffRule) → pressed (apply ports now active rule e h).2 ≡ rule.key ∷ pressed h
  unfolding apply
  apply-pressed rule = elim (Result-cases (ports.on_press_key h rule.key)) [
    | inl (a, q) ↦ rw q refl
    | inr (x, q) ↦ rw q refl
  ]

  -- A pass over the rules presses the key of the least rule, or nothing if none is due.
  pub apply_first-pressed :
      ((rule : AutobuffRule) × IsLeast e active now rule
        × (pressed (apply_first ports now active (rules_in_order e) e h).2 ≡ rule.key ∷ pressed h))
      ⊎ (((q : AutobuffRule)
            → In q e.config.rules
            → q.enabled ≡ true
            → is_skipped e active now q ≡ true)
          × (pressed (apply_first ports now active (rules_in_order e) e h).2 ≡ pressed h))
  unfolding rules_in_order FirstDue
  apply_first-pressed =
      let enabled : List AutobuffRule = filter (λ rule. rule.enabled) e.config.rules in
      let listed : (q : AutobuffRule)
          → In q e.config.rules
          → q.enabled ≡ true
          → In q (rules_in_order e) =
        λ q m on.
          (In-sort_by_key (λ rule. rule.priority) q enabled).1
            (filter-In (λ rule. rule.enabled) q e.config.rules m on) in
      elim (apply_first-FirstDue (rules_in_order e)
        (sort_by_key-Sorted (λ rule. rule.priority) enabled)) [
          | inl (r, m, due, least, eq) ↦
              let (configured, on) =
                In-filter (λ rule. rule.enabled) r e.config.rules
                  ((In-sort_by_key (λ rule. rule.priority) r enabled).0 m) in
              inl (
                r,
                record {
                  configured = configured;
                  enabled = on;
                  due = due;
                  least = λ q i o d. least q (listed q i o) d;
                },
                rw eq (apply-pressed r),
              )
          | inr (skipped, eq) ↦ inr (λ q i o. skipped q (listed q i o), rw eq refl)
        ]

module _ (ports : Ports) (now : ℕ) (e : AutobuffEngine) (h : History) where
  -- What the two reads of a tick answer.
  abbrev hp_answer : Result ToolsError (List ℕ)
  hp_answer = ports.on_read_u32_slice h e.profile.hp_base 2

  abbrev status_answer : Result ToolsError (List ℕ)
  status_answer =
      ports.on_read_u32_slice (read_u32_slice e.profile.hp_base 2 ∷ h)
        (status_buffer_address e.profile) 100

  -- The game is seen with a living character and these statuses.
  pub record IsPlaying (statuses : List ℕ) : Type 0 where
    pub current_hp : ℕ
    pub max_hp : ℕ
    pub hp_read : ports.on_read_u32_slice h e.profile.hp_base 2 ≡ ok (current_hp ∷ max_hp ∷ [])
    pub in_game : is_in_game current_hp max_hp ≡ true
    pub status_read :
        ports.on_read_u32_slice
          (read_u32_slice e.profile.hp_base 2 ∷ h)
          (status_buffer_address e.profile)
          100
        ≡ ok statuses

  tick_autobuff-playing :
      (statuses : List ℕ) (p : IsPlaying statuses)
      → tick_autobuff ports now e h
        ≡ apply_first ports now (active_of statuses) (rules_in_order e) e (
            read_u32_slice (status_buffer_address e.profile) 100
            ∷ read_u32_slice e.profile.hp_base 2
            ∷ h)
  unfolding tick_autobuff buff as_hp
  tick_autobuff-playing statuses p = rw (p.hp_read, p.in_game, p.status_read) refl

  buff-cases :
      (current_hp max_hp : ℕ)
      → ports.on_read_u32_slice h e.profile.hp_base 2 ≡ ok (current_hp ∷ max_hp ∷ [])
      → ((statuses : List ℕ) × IsPlaying statuses)
        ⊎ (pressed (tick_autobuff ports now e h).2 ≡ pressed h)
  unfolding tick_autobuff buff as_hp
  buff-cases current_hp max_hp hp_read = elim (Bool-cases (is_in_game current_hp max_hp)) [
    | inl playing ↦ elim (Result-cases status_answer) [
      | inl (statuses, s) ↦ inl (
        statuses,
        record {
          current_hp = current_hp;
          max_hp = max_hp;
          hp_read = hp_read;
          in_game = playing;
          status_read = s;
        },
      )
      | inr (x, s) ↦ inr (rw (hp_read, playing, s) refl)
    ]
    | inr away ↦ inr (rw (hp_read, away) refl)
  ]

  tick_autobuff-cases :
      ((statuses : List ℕ) × IsPlaying statuses)
      ⊎ (pressed (tick_autobuff ports now e h).2 ≡ pressed h)
  unfolding tick_autobuff as_hp
  tick_autobuff-cases = elim (Result-cases hp_answer) [
    | inl ([], q) ↦ inr (rw q refl)
    | inl (a ∷ [], q) ↦ inr (rw q refl)
    | inl (a ∷ b ∷ [], q) ↦ buff-cases a b q
    | inl (a ∷ b ∷ c ∷ rest, q) ↦ inr (rw q refl)
    | inr (x, q) ↦ inr (rw q refl)
  ]

  -- A tick presses nothing, or the key of the least rule that is due for a living character with the
  -- statuses that were read.
  pub tick_autobuff-pressed :
      (pressed (tick_autobuff ports now e h).2 ≡ pressed h)
      ⊎ ((statuses : List ℕ) × (rule : AutobuffRule) × IsPlaying statuses
          × IsLeast e (active_of statuses) now rule
          × (pressed (tick_autobuff ports now e h).2 ≡ rule.key ∷ pressed h))
  tick_autobuff-pressed = elim tick_autobuff-cases [
    | inl (statuses, p) ↦
        elim (apply_first-pressed ports now e (active_of statuses) (
          read_u32_slice (status_buffer_address e.profile) 100
          ∷ read_u32_slice e.profile.hp_base 2
          ∷ h)) [
            | inl (rule, least, eq) ↦
                inr (statuses, rule, p, least, rw (tick_autobuff-playing statuses p) eq)
            | inr (_, eq) ↦ inl (rw (tick_autobuff-playing statuses p) eq)
          ]
    | inr eq ↦ inl eq
  ]

  -- If a rule is enabled and due for a living character, a tick presses the key of the least one.
  pub tick_autobuff-presses :
      (statuses : List ℕ) (due : AutobuffRule)
      → IsPlaying statuses
      → In due e.config.rules
      → due.enabled ≡ true
      → is_skipped e (active_of statuses) now due ≡ false
      → (rule : AutobuffRule) × IsLeast e (active_of statuses) now rule
        × (pressed (tick_autobuff ports now e h).2 ≡ rule.key ∷ pressed h)
  tick_autobuff-presses statuses due p m on d =
      elim (apply_first-pressed ports now e (active_of statuses) (
        read_u32_slice (status_buffer_address e.profile) 100
        ∷ read_u32_slice e.profile.hp_base 2
        ∷ h)) [
          | inl (rule, least, eq) ↦ (rule, least, rw (tick_autobuff-playing statuses p) eq)
          | inr (skipped, _) ↦ cc (d, skipped due m on)
        ]
