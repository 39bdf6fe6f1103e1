-- ===== src/Context/Trimmer/Below.antt =====
-- Prompts with the same sections, each of no more tokens than before.
use llm_service.Prelude.{
  ℕ, zero, suc, ◌+◌, ◌≤◌, min, ◌≡◌, refl, sym, ◌∙◌, Bool-cases, inl, inr, false, none, some, List,
  [], ◌∷◌, map, arith, if◌then◌else◌, get_at, modify_at, All, sum_of,
}
use mathlib.Core.Option.{some-injective, none-ne-some}
use llm_service.Context.Sections.{PromptSection}
use llm_service.Context.Trimmer.{
  section_minimum, can_be_trimmed, can_trim, trimmable_indices, total_tokens,
}

-- what the section keeps however small the budget is
unfoldable pub floor_of : PromptSection → ℕ
floor_of s = if can_be_trimmed s then min s.token_count (section_minimum s.name) else s.token_count

abbrev pub Lower : PromptSection → PromptSection → Type 0
Lower s t =
    (t.token_count ≤ s.token_count) × (t.name ≡ s.name) × (can_be_trimmed t ≡ can_be_trimmed s)

pub data Below : List PromptSection → List PromptSection → Type 0 where
  none_left : Below [] []
  one_more :
      {s t : PromptSection} {ss ts : List PromptSection}
      → Lower s t
      → Below ss ts
      → Below (s ∷ ss) (t ∷ ts)

pub Below-refl : (ss : List PromptSection) → Below ss ss
Below-refl [] = none_left
Below-refl (s ∷ ss) = one_more (omega arith, refl, refl) (Below-refl ss)

pub Below-trans : {ss ts us : List PromptSection} → Below ss ts → Below ts us → Below ss us
Below-trans none_left none_left = none_left
Below-trans (one_more h hs) (one_more k ks) =
    one_more (omega (arith, h.0, k.0), k.1 ∙ h.1, k.2 ∙ h.2) (Below-trans hs ks)

-- one section lowered
pub Below-modify_at :
    (f : PromptSection → PromptSection) (idx : ℕ) (ss : List PromptSection) (sec : PromptSection)
    → get_at idx ss ≡ some sec
    → Lower sec (f sec)
    → Below ss (modify_at idx f ss)
Below-modify_at f idx [] sec e h = none_left
Below-modify_at f zero (s ∷ ss) sec e h = one_more (rw (some-injective s sec e) h) (Below-refl ss)
Below-modify_at f (suc idx) (s ∷ ss) sec e h =
    one_more (omega arith, refl, refl) (Below-modify_at f idx ss sec e h)

pub total_tokens-modify_at :
    (f : PromptSection → PromptSection) (idx : ℕ) (ss : List PromptSection) (sec : PromptSection)
    → get_at idx ss ≡ some sec
    → total_tokens (modify_at idx f ss) + sec.token_count ≡ total_tokens ss + (f sec).token_count
unfolding total_tokens
total_tokens-modify_at f idx [] sec e = elim (none-ne-some sec e) [ ]
total_tokens-modify_at f zero (s ∷ ss) sec e = rw (some-injective s sec e) (omega arith)
total_tokens-modify_at f (suc idx) (s ∷ ss) sec e =
    omega (arith, total_tokens-modify_at f idx ss sec e)

-- the section at a position has no more tokens than its minimum
abbrev pub AtFloor : List PromptSection → ℕ → Type 0
AtFloor [] i = Unit
AtFloor (s ∷ ss) zero = can_trim s ≡ 0
AtFloor (s ∷ ss) (suc i) = AtFloor ss i

pub AtFloor-modify_at :
    (f : PromptSection → PromptSection) (idx : ℕ) (ss : List PromptSection) (sec : PromptSection)
    → get_at idx ss ≡ some sec
    → can_trim (f sec) ≡ 0
    → AtFloor (modify_at idx f ss) idx
AtFloor-modify_at f idx [] sec e h = tt
AtFloor-modify_at f zero (s ∷ ss) sec e h = rw (some-injective s sec e) h
AtFloor-modify_at f (suc idx) (s ∷ ss) sec e h = AtFloor-modify_at f idx ss sec e h

pub AtFloor-get_at :
    (idx : ℕ) (ss : List PromptSection) (sec : PromptSection)
    → get_at idx ss ≡ some sec
    → can_trim sec ≡ 0
    → AtFloor ss idx
AtFloor-get_at idx [] sec e h = tt
AtFloor-get_at zero (s ∷ ss) sec e h = rw (some-injective s sec e) h
AtFloor-get_at (suc idx) (s ∷ ss) sec e h = AtFloor-get_at idx ss sec e h

pub AtFloor-missing : (idx : ℕ) (ss : List PromptSection) → get_at idx ss ≡ none → AtFloor ss idx
AtFloor-missing idx [] e = tt
AtFloor-missing zero (s ∷ ss) e = elim (none-ne-some s (sym e)) [ ]
AtFloor-missing (suc idx) (s ∷ ss) e = AtFloor-missing idx ss e

pub AtFloor-Below : {ss ts : List PromptSection} (i : ℕ) → Below ss ts → AtFloor ss i → AtFloor ts i
unfolding can_trim
AtFloor-Below i none_left k = tt
AtFloor-Below zero (one_more h hs) k = rw h.1 (omega (arith, h.0, k))
AtFloor-Below (suc i) (one_more h hs) k = AtFloor-Below i hs k

All-AtFloor-suc :
    (s : PromptSection) (ss : List PromptSection) (is : List ℕ)
    → All (AtFloor (s ∷ ss)) (map suc is)
    → All (AtFloor ss) is
All-AtFloor-suc s ss [] h = tt
All-AtFloor-suc s ss (i ∷ is) h = (h.0, All-AtFloor-suc s ss is h.1)

lowered_to_floor : (s t : PromptSection) → Lower s t → can_trim t ≡ 0 → t.token_count ≤ floor_of s
unfolding floor_of can_trim
lowered_to_floor s t h k = ground (arith, rw h.1 at k)

lowered_locked :
    (s t : PromptSection) → Lower s t → can_be_trimmed s ≡ false → t.token_count ≤ floor_of s
unfolding floor_of
lowered_locked s t h k = rw k h.0

pub total_tokens-AtFloor :
    {from now : List PromptSection}
    → Below from now
    → All (AtFloor now) (trimmable_indices from)
    → total_tokens now ≤ sum_of floor_of from
unfolding total_tokens trimmable_indices
total_tokens-AtFloor none_left k = omega arith
total_tokens-AtFloor (one_more {s} {t} {ss} {ts} h hs) k = elim (Bool-cases (can_be_trimmed s)) [
  | inl e ↦
      let here = rw e at k in
      omega (
        arith,
        lowered_to_floor s t h here.0,
        total_tokens-AtFloor hs (All-AtFloor-suc t ts (trimmable_indices ss) here.1),
      )
  | inr e ↦ omega (
    arith,
    lowered_locked s t h e,
    total_tokens-AtFloor hs (All-AtFloor-suc t ts (trimmable_indices ss) (rw e at k)),
  )
]
