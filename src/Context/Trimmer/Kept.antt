-- ===== src/Context/Trimmer/Kept.antt =====
-- Locked sections and those of the highest priority, through `trim`.
use llm_service.Prelude.{
  ℕ, zero, suc, ◌≡◌, refl, ◌∙◌, String, Bool, true, not, ◌&&◌, ◌||◌, Option, none, some, List, [],
  ◌∷◌, map, arith, Bool-cases, inl, inr, leb, filter, get_at, modify_at, All, All-sort_by,
}
use llm_service.Context.Tokens.{ChatMessage}
use llm_service.Context.Sections.{PromptSection}
use llm_service.Context.Shrink.{shrink, shrink_history, keep_newest, history_items}
use llm_service.Context.Trimmer.{
  trim_found, can_be_trimmed, can_trim, trimmable_indices, order_of, TrimContext, recount,
  trim_section, Work, trim_to, trim_at, trim_all, has_text, total_tokens, check_total,
  after_trimming, trimmed, trim,
}

-- the section at a position may be trimmed, where there is one
abbrev pub can_trim_at : List PromptSection → ℕ → Bool
can_trim_at [] idx = true
can_trim_at (s ∷ ss) zero = can_be_trimmed s
can_trim_at (s ∷ ss) (suc idx) = can_trim_at ss idx

-- a section that is locked or of priority 10, with a text
unfoldable pub is_protected : PromptSection → Bool
is_protected s = (not s.trimmable || leb 10 s.priority) && has_text s

-- the same, as the trimmer tells it
unfoldable is_kept : PromptSection → Bool
is_kept s = not (can_be_trimmed s) && has_text s

filter-is_kept : (ss : List PromptSection) → filter is_protected ss ≡ filter is_kept ss
unfolding is_protected is_kept can_be_trimmed
filter-is_kept [] = refl
filter-is_kept (s ∷ ss) = ground (arith, filter-is_kept ss)

can_be_trimmed-keep_newest :
    (c : TrimContext) (target : ℕ) (s : PromptSection) (h : String) (is : List ChatMessage)
    → can_be_trimmed (keep_newest c.counter c.capitalize c.provider target s h is)
      ≡ can_be_trimmed s
unfolding can_be_trimmed keep_newest
can_be_trimmed-keep_newest c target s h [] = refl
can_be_trimmed-keep_newest c target s h (i ∷ is) = refl

pub can_be_trimmed-trim_section :
    (c : TrimContext) (target : ℕ) (s : PromptSection)
    → can_be_trimmed (trim_section c target s) ≡ can_be_trimmed s
unfolding can_be_trimmed trim_section shrink shrink_history recount
can_be_trimmed-trim_section c target s =
    ground (arith, can_be_trimmed-keep_newest c target s (history_items s).0 (history_items s).1)

module _ (f : PromptSection → PromptSection)
    (same : (s : PromptSection) → can_be_trimmed (f s) ≡ can_be_trimmed s) where
  can_trim_at-modify_at :
      (i j : ℕ) (ss : List PromptSection) → can_trim_at (modify_at i f ss) j ≡ can_trim_at ss j
  can_trim_at-modify_at i j [] = refl
  can_trim_at-modify_at zero zero (s ∷ ss) = same s
  can_trim_at-modify_at zero (suc j) (s ∷ ss) = refl
  can_trim_at-modify_at (suc i) zero (s ∷ ss) = refl
  can_trim_at-modify_at (suc i) (suc j) (s ∷ ss) = can_trim_at-modify_at i j ss

  filter-modify_at :
      (i : ℕ) (ss : List PromptSection)
      → can_trim_at ss i ≡ true
      → filter is_kept (modify_at i f ss) ≡ filter is_kept ss
  unfolding is_kept
  filter-modify_at i [] h = refl
  filter-modify_at zero (s ∷ ss) h = rw (same s, h) refl
  filter-modify_at (suc i) (s ∷ ss) h = rw (filter-modify_at i ss h) refl

-- what the loop keeps of some sections
record SameKept (from now : List PromptSection) : Type 0 where
  flags : (i : ℕ) → can_trim_at now i ≡ can_trim_at from i
  texts : filter is_kept now ≡ filter is_kept from

trim_to-SameKept :
    (c : TrimContext) (idx : ℕ) (sec : PromptSection) (w : Work)
    → can_trim_at w.working idx ≡ true
    → SameKept w.working (trim_to c idx sec w).working
unfolding trim_to
trim_to-SameKept c idx sec w h = record {
  flags = λ i. can_trim_at-modify_at _ (can_be_trimmed-trim_section c _) idx i w.working;
  texts = filter-modify_at _ (can_be_trimmed-trim_section c _) idx w.working h;
}

SameKept-refl : (ss : List PromptSection) → SameKept ss ss
SameKept-refl ss = record { flags = λ i. refl; texts = refl }

trim_found-SameKept :
    (c : TrimContext) (idx : ℕ) (found : Option PromptSection) (w : Work)
    → can_trim_at w.working idx ≡ true
    → SameKept w.working (trim_found c idx found w).working
unfolding trim_found
trim_found-SameKept c idx none w h = SameKept-refl w.working
trim_found-SameKept c idx (some sec) w h = elim (Bool-cases (leb (can_trim sec) 0)) [
  | inl e ↦ rw e (SameKept-refl w.working)
  | inr e ↦ rw e (trim_to-SameKept c idx sec w h)
]

can_trim_at-All :
    (from now : List PromptSection)
    → ((i : ℕ) → can_trim_at now i ≡ can_trim_at from i)
    → (order : List ℕ) → All (λ i. can_trim_at from i ≡ true) order
    → All (λ i. can_trim_at now i ≡ true) order
can_trim_at-All from now same [] h = tt
can_trim_at-All from now same (i ∷ is) h = (same i ∙ h.0, can_trim_at-All from now same is h.1)

trim_all-SameKept :
    (c : TrimContext) (order : List ℕ) (w : Work)
    → All (λ i. can_trim_at w.working i ≡ true) order
    → SameKept w.working (trim_all c order w).working
unfolding trim_all trim_at
trim_all-SameKept c [] w h = SameKept-refl w.working
trim_all-SameKept c (idx ∷ rest) w h = elim (Bool-cases (leb w.excess 0)) [
  | inl e ↦ rw e (SameKept-refl w.working)
  | inr e ↦
      let one = trim_found-SameKept c idx (get_at idx w.working) w h.0 in
      let later =
        trim_all-SameKept c rest (trim_at c idx w) (can_trim_at-All _ _ one.flags rest h.1) in
      rw e (record { flags = λ i. later.flags i ∙ one.flags i; texts = later.texts ∙ one.texts })
]

All-suc :
    (s : PromptSection) (ss : List PromptSection) (is : List ℕ)
    → All (λ i. can_trim_at ss i ≡ true) is
    → All (λ i. can_trim_at (s ∷ ss) i ≡ true) (map suc is)
All-suc s ss [] h = tt
All-suc s ss (i ∷ is) h = (h.0, All-suc s ss is h.1)

pub trimmable_indices-can_trim_at :
    (ss : List PromptSection) → All (λ i. can_trim_at ss i ≡ true) (trimmable_indices ss)
unfolding trimmable_indices
trimmable_indices-can_trim_at [] = tt
trimmable_indices-can_trim_at (s ∷ ss) =
    let rest = All-suc s ss _ (trimmable_indices-can_trim_at ss) in
    elim (Bool-cases (can_be_trimmed s)) [ inl e ↦ rw e (e, rest) | inr e ↦ rw e rest ]

pub order_of-can_trim_at :
    (ss : List PromptSection) → All (λ i. can_trim_at ss i ≡ true) (order_of ss)
unfolding order_of
order_of-can_trim_at ss = All-sort_by _ _ _ (trimmable_indices-can_trim_at ss)

filter-twice : (ss : List PromptSection) → filter is_kept (filter has_text ss) ≡ filter is_kept ss
unfolding is_kept
filter-twice [] = refl
filter-twice (s ∷ ss) = ground (arith, filter-twice ss)

check_total-protected :
    (budget : ℕ) (ss : List PromptSection) {final : List PromptSection} (names : List String)
    {others : List String}
    → check_total budget ss names ≡ trimmed final others
    → final ≡ ss
unfolding check_total
check_total-protected budget ss names h = ground arith

-- Whatever `trim` returns holds the sections with some text that are locked or of priority 10, as
-- they were and in their order: trimming neither drops, cuts nor reorders one of them.
pub trim-protected :
    (c : TrimContext) (sections : List PromptSection) (budget : ℕ) {final : List PromptSection}
    {names : List String}
    → trim c sections budget ≡ trimmed final names
    → filter is_protected final ≡ filter is_protected sections
unfolding trim after_trimming check_total
trim-protected c sections budget h =
    rw (filter-is_kept _, filter-is_kept sections)
      (elim (Bool-cases (leb (total_tokens sections) budget)) [
        | inl e ↦ ground arith
        | inr e ↦ rw (check_total-protected budget _ _ (rw e at h)) (
            filter-twice _
            ∙ (trim_all-SameKept c (order_of sections) _ (order_of-can_trim_at sections)).texts)
      ])
