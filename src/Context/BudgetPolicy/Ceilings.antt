-- ===== src/Context/BudgetPolicy/Ceilings.antt =====
-- The ceilings that a resolved budget keeps to.
use llm_service.Prelude.{
  ℕ, ◌+◌, ◌≤◌, ◌≡◌, refl, sym, ◌∙◌, String, Bool, true, false, ◌&&◌, Option, some, ltb, min, str_eq,
  if◌then◌else◌, Bool-cases, Option-cases, arith, ◌⊎◌, inl, inr,
}
use mathlib.Core.Option.{some-injective, none-ne-some}
use llm_service.Context.BudgetPolicy.{
  ℤ, pos, negsuc, minus, less, min_input_tokens, tpm_headroom_tokens, BudgetConfig, ModelLimits,
  ContextBudget, app_budget_of, window_of, reserve_of, tpm_cap, legacy_cap, at_least_minimal,
  finish_budget, resolve_context_budget,
}

-- `z` with `slack` added is at most `n`.
abbrev pub Below : ℕ → ℕ → ℤ → Type 0
Below n slack (pos a) = a + slack ≤ n
Below n slack (negsuc _) = Unit

Below-pos : (n slack a : ℕ) (z : ℤ) → z ≡ pos a → Below n slack z → a + slack ≤ n
Below-pos n slack a z e h = rw e at h

minus-Below : (a b : ℕ) → Below a b (minus a b)
unfolding minus
minus-Below a b = ground arith

less-Below : (n slack : ℕ) (x y : ℤ) → less x y ≡ true → Below n slack y → Below n slack x
unfolding less
less-Below n slack (pos a) (pos b) h k = ground (arith, h, k)
less-Below n slack (pos a) (negsuc b) h k = ground (arith, h)
less-Below n slack (negsuc a) y h k = tt

not_less-Below : (n slack : ℕ) (x y : ℤ) → less x y ≡ false → Below n slack x → Below n slack y
unfolding less
not_less-Below n slack (pos a) (pos b) h k = ground (arith, h, k)
not_less-Below n slack x (negsuc b) h k = tt
not_less-Below n slack (negsuc a) (pos b) h k = ground (arith, h)

module _ (config : BudgetConfig) where
  module _ (provider : String) (reserve : ℕ) (z : ℤ) where
    abbrev tpm_input : ℤ
    tpm_input = minus config.groq_tpm_limit (reserve + tpm_headroom_tokens)

    tpm_cap-Below :
        (n slack : ℕ) → Below n slack z → Below n slack (tpm_cap config provider reserve z).0
    unfolding tpm_cap
    tpm_cap-Below n slack h =
        elim (Bool-cases
          (str_eq provider "groq" && ltb 0 config.groq_tpm_limit && less tpm_input z)) [
            | inr e ↦ rw e h
            | inl e ↦ rw e (less-Below n slack tpm_input z (ground (arith, e)) h)
          ]

    tpm_cap-caps :
        (str_eq provider "groq" ≡ false)
        ⊎ (config.groq_tpm_limit ≡ 0)
        ⊎ Below config.groq_tpm_limit (reserve + 200) (tpm_cap config provider reserve z).0
    unfolding tpm_cap tpm_headroom_tokens
    tpm_cap-caps = elim (Bool-cases (str_eq provider "groq")) [
      | inr e ↦ inl e
      | inl e ↦ elim (Bool-cases (ltb 0 config.groq_tpm_limit)) [
        | inr f ↦ inr (inl (ground (arith, f)))
        | inl f ↦ inr (
            inr (elim (Bool-cases (less tpm_input z)) [
              | inl g ↦ rw (e, f, g) (minus-Below config.groq_tpm_limit (reserve + 200))
              | inr g ↦
                  rw (e, f, g)
                    (not_less-Below config.groq_tpm_limit (reserve + 200) tpm_input z g
                      (minus-Below config.groq_tpm_limit (reserve + 200)))
            ]))
      ]
    ]

  legacy_cap-Below : (z : ℤ) (n slack : ℕ) → Below n slack z → Below n slack (legacy_cap config z).0
  unfolding legacy_cap
  legacy_cap-Below z n slack h =
      elim (Bool-cases
        (ltb 0 config.prompt_token_budget && less (pos config.prompt_token_budget) z)) [
          | inr e ↦ rw e h
          | inl e ↦
              rw e (less-Below n slack (pos config.prompt_token_budget) z (ground (arith, e)) h)
        ]

  legacy_cap-caps :
      (z : ℤ)
      → (config.prompt_token_budget ≡ 0)
        ⊎ Below config.prompt_token_budget 0 (legacy_cap config z).0
  unfolding legacy_cap
  legacy_cap-caps z = elim (Bool-cases (ltb 0 config.prompt_token_budget)) [
    | inr f ↦ inl (ground (arith, f))
    | inl f ↦ inr (elim (Bool-cases (less (pos config.prompt_token_budget) z)) [
      | inl g ↦ rw (f, g) (omega arith)
      | inr g ↦
          rw (f, g)
            (not_less-Below config.prompt_token_budget 0 (pos config.prompt_token_budget) z g
              (omega arith))
    ])
  ]

at_least_minimal-some : (z : ℤ) (n : ℕ) → at_least_minimal z ≡ some n → (z ≡ pos n) × (1000 ≤ n)
unfolding at_least_minimal min_input_tokens
at_least_minimal-some z n h = ground (arith, h)

-- What a resolved budget promises: the input budget holds a minimal request, and together with the
-- output reserve it fits what `shrink`, the safety margin, leaves of the total; the total is within
-- the model's window and, unless it is switched off, within the application budget; a configured
-- legacy cap holds; and with Groq's limit of tokens per minute the input leaves room in it for the
-- output reserve and the headroom.
abbrev pub IsWithin : (ℕ → ℕ) → BudgetConfig → String → ContextBudget → Type 0
IsWithin shrink config provider b =
    (1000 ≤ b.input_budget)
    × (b.input_budget + b.output_reserve ≤ shrink b.total)
    × (b.total ≤ b.model_window)
    × ((b.app_budget ≡ 0) ⊎ (b.total ≤ b.app_budget))
    × ((config.prompt_token_budget ≡ 0) ⊎ (b.input_budget ≤ config.prompt_token_budget))
    × ((str_eq provider "groq" ≡ false)
        ⊎ (config.groq_tpm_limit ≡ 0)
        ⊎ (b.input_budget + (b.output_reserve + 200) ≤ config.groq_tpm_limit))

total-le :
    (app window : ℕ)
    → ((if ltb 0 app then min app window else window) ≤ window)
      × ((app ≡ 0) ⊎ ((if ltb 0 app then min app window else window) ≤ app))
total-le app window = elim (Bool-cases (ltb 0 app)) [
  | inl e ↦ rw e (omega arith, inr (omega arith))
  | inr e ↦ rw e (omega arith, inl (ground (arith, e)))
]

finish_budget-IsWithin :
    (shrink : ℕ → ℕ) (config : BudgetConfig) (provider : String) (z : ℤ) (c b : ContextBudget)
    → finish_budget (at_least_minimal z) c ≡ some b
    → Below (shrink c.total) c.output_reserve z
    → c.total ≤ c.model_window
    → (c.app_budget ≡ 0) ⊎ (c.total ≤ c.app_budget)
    → (config.prompt_token_budget ≡ 0) ⊎ Below config.prompt_token_budget 0 z
    → (str_eq provider "groq" ≡ false)
      ⊎ (config.groq_tpm_limit ≡ 0)
      ⊎ Below config.groq_tpm_limit (c.output_reserve + 200) z
    → IsWithin shrink config provider b
unfolding finish_budget
finish_budget-IsWithin shrink config provider z c b h fits window app legacy tpm =
    elim (Option-cases (at_least_minimal z)) [
      | inl e ↦ elim (none-ne-some b (sym (rw e refl) ∙ h)) [ ]
      | inr (n, e) ↦
          let (is_pos, minimal) = at_least_minimal-some z n e in
          let given : record c { input_budget = n } ≡ b =
            some-injective (record c { input_budget = n }) b (sym (rw e refl) ∙ h) in
          go n is_pos minimal given
    ]
  where
    go :
        (n : ℕ)
        → z ≡ pos n
        → 1000 ≤ n
        → record c { input_budget = n } ≡ b
        → IsWithin shrink config provider b
    go n is_pos minimal given = rw⁻¹ given (
      minimal,
      Below-pos (shrink c.total) c.output_reserve n z is_pos fits,
      window,
      app,
      elim legacy [
        | inl e ↦ inl e
        | inr h ↦ inr (omega (arith, Below-pos config.prompt_token_budget 0 n z is_pos h))
      ],
      elim tpm [
        | inl e ↦ inl e
        | inr (inl e) ↦ inr (inl e)
        | inr (inr h) ↦
            inr (inr (Below-pos config.groq_tpm_limit (c.output_reserve + 200) n z is_pos h))
      ],
    )

module _ (shrink : ℕ → ℕ) where
  -- If `resolve_context_budget` gives a budget, then its input budget is at least 1000 tokens; with
  -- the output reserve it is within what the safety margin leaves of the total; the total is within
  -- the model's window and within the application budget, if that is not 0; the input budget is
  -- within the legacy cap, if that is not 0; and for Groq with a limit of tokens per minute the input
  -- budget, the output reserve and 200 tokens of headroom are within that limit.
  pub resolve_context_budget-IsWithin :
      (config : BudgetConfig) (provider model key : String) (limits : Option ModelLimits)
      (window_assumed : Bool) (requested : Option ℕ) (b : ContextBudget)
      → resolve_context_budget shrink config provider model key limits window_assumed requested
        ≡ some b
      → IsWithin shrink config provider b
  unfolding resolve_context_budget
  resolve_context_budget-IsWithin config provider model key limits window_assumed requested b h =
      finish_budget-IsWithin shrink config provider (legacy_cap config capped).0 _ b h
        (legacy_cap-Below config capped _ _
          (tpm_cap-Below config provider reserve start _ _ (minus-Below _ _)))
        (total-le (app_budget_of config provider model key).0 (window_of config limits)).0
        (total-le (app_budget_of config provider model key).0 (window_of config limits)).1
        (legacy_cap-caps config capped)
        (elim (tpm_cap-caps config provider reserve start) [
          | inl e ↦ inl e
          | inr (inl e) ↦ inr (inl e)
          | inr (inr below) ↦ inr (inr (legacy_cap-Below config capped _ _ below))
        ])
    where
      total : ℕ
      total =
          if ltb 0 (app_budget_of config provider model key).0
          then min (app_budget_of config provider model key).0 (window_of config limits)
          else window_of config limits

      reserve : ℕ
      reserve = reserve_of config limits window_assumed requested

      start : ℤ
      start = minus (shrink total) reserve

      capped : ℤ
      capped = (tpm_cap config provider reserve start).0
