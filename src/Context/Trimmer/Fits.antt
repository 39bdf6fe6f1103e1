-- ===== src/Context/Trimmer/Fits.antt =====
-- `trim` succeeds whenever the floors of the sections fit the budget.
use llm_service.Prelude.{
  ℕ, ◌+◌, ◌-◌, ◌≤◌, min, ◌≡◌, ◌⊎◌, refl, Bool-cases, inl, inr, true, false, Option, none, some,
  List, [], ◌∷◌, String, arith, leb, filter, get_at, All-sort_by_back, All, sum_of,
}
use llm_service.Context.Tokens.{ChatMessage}
use llm_service.Context.Sections.{PromptSection}
use llm_service.Context.Shrink.{shrink, shrink_history, keep_newest, history_items}
use llm_service.Context.Shrink.Meets.{IsTame, shrink-meets}
use llm_service.Context.Trimmer.Kept.{can_be_trimmed-trim_section}
use llm_service.Context.Trimmer.Below.{
  floor_of, Below, Below-refl, Below-trans, Below-modify_at, total_tokens-modify_at, AtFloor,
  AtFloor-modify_at, AtFloor-get_at, AtFloor-missing, AtFloor-Below, total_tokens-AtFloor, Lower,
}
use llm_service.Context.Trimmer.{
  can_trim, trimmable_indices, order_of, TrimContext, recount, trim_section, Work, trim_to,
  trim_found, trim_at, trim_all, has_text, total_tokens, check_total, after_trimming, trimmed, trim,
}

module _ (c : TrimContext) where
  name-keep_newest :
      (target : ℕ) (s : PromptSection) (h : String) (is : List ChatMessage)
      → (keep_newest c.counter c.capitalize c.provider target s h is).name ≡ s.name
  unfolding keep_newest
  name-keep_newest target s h [] = refl
  name-keep_newest target s h (i ∷ is) = refl

  name-trim_section : (target : ℕ) (s : PromptSection) → (trim_section c target s).name ≡ s.name
  unfolding trim_section shrink shrink_history recount
  name-trim_section target s =
      ground (arith, name-keep_newest target s (history_items s).0 (history_items s).1)

  module _ (tame : IsTame c.counter c.provider) where
    token_count-trim_section :
        (target : ℕ) (s : PromptSection) → (trim_section c target s).token_count ≤ target
    unfolding trim_section recount
    token_count-trim_section target s =
        ground (arith, shrink-meets c.counter c.provider tame c.capitalize target s)

    -- what the loop does to the section that it comes to
    abbrev cut_of : PromptSection → Work → PromptSection → PromptSection
    cut_of sec w = trim_section c (sec.token_count - min (can_trim sec) w.excess)

    -- the section that the loop comes to, cut by `actual`
    trim_section-Lower :
        (sec : PromptSection) (actual : ℕ)
        → Lower sec (trim_section c (sec.token_count - actual) sec)
    trim_section-Lower sec actual = (
      omega (arith, token_count-trim_section (sec.token_count - actual) sec),
      name-trim_section (sec.token_count - actual) sec,
      can_be_trimmed-trim_section c (sec.token_count - actual) sec,
    )

    trim_found-Below :
        (idx : ℕ) (found : Option PromptSection) (w : Work)
        → get_at idx w.working ≡ found
        → Below w.working (trim_found c idx found w).working
    unfolding trim_found trim_to
    trim_found-Below idx none w e = Below-refl w.working
    trim_found-Below idx (some sec) w e = ground (
      arith,
      Below-refl w.working,
      Below-modify_at (cut_of sec w) idx w.working sec e
          (trim_section-Lower sec (min (can_trim sec) w.excess)),
    )

    trim_all-Below : (order : List ℕ) (w : Work) → Below w.working (trim_all c order w).working
    unfolding trim_all trim_at
    trim_all-Below [] w = Below-refl w.working
    trim_all-Below (idx ∷ rest) w = elim (Bool-cases (leb w.excess 0)) [
      | inl e ↦ rw e (Below-refl w.working)
      | inr e ↦ rw e (
          Below-trans (trim_found-Below idx (get_at idx w.working) w refl)
            (trim_all-Below rest (trim_at c idx w)))
    ]

    -- the total never exceeds the budget by more than the excess that is kept
    trim_found-total :
        (budget idx : ℕ) (found : Option PromptSection) (w : Work)
        → get_at idx w.working ≡ found
        → total_tokens w.working ≤ budget + w.excess
        → total_tokens (trim_found c idx found w).working
          ≤ budget + (trim_found c idx found w).excess
    unfolding trim_found trim_to can_trim
    trim_found-total budget idx none w e h = h
    trim_found-total budget idx (some sec) w e h = ground (
      arith,
      total_tokens-modify_at (cut_of sec w) idx w.working sec e,
      token_count-trim_section (sec.token_count - min (can_trim sec) w.excess) sec,
    )

    trim_all-total :
        (budget : ℕ) (order : List ℕ) (w : Work)
        → total_tokens w.working ≤ budget + w.excess
        → total_tokens (trim_all c order w).working ≤ budget + (trim_all c order w).excess
    unfolding trim_all trim_at
    trim_all-total budget [] w h = h
    trim_all-total budget (idx ∷ rest) w h = elim (Bool-cases (leb w.excess 0)) [
      | inl e ↦ rw e h
      | inr e ↦ rw e (
          trim_all-total budget rest (trim_at c idx w)
            (trim_found-total budget idx (get_at idx w.working) w refl h))
    ]

    cut_of-can_trim :
        (sec : PromptSection) (w : Work)
        → leb w.excess (can_trim sec) ≡ false
        → can_trim (cut_of sec w sec) ≡ 0
    unfolding can_trim
    cut_of-can_trim sec w h = ground (
      arith,
      name-trim_section (sec.token_count - min (can_trim sec) w.excess) sec,
      token_count-trim_section (sec.token_count - min (can_trim sec) w.excess) sec,
    )

    trim_found-AtFloor :
        (idx : ℕ) (found : Option PromptSection) (w : Work)
        → get_at idx w.working ≡ found
        → ((trim_found c idx found w).excess ≡ 0) ⊎ AtFloor (trim_found c idx found w).working idx
    unfolding trim_found trim_to
    trim_found-AtFloor idx none w e = inr (AtFloor-missing idx w.working e)
    trim_found-AtFloor idx (some sec) w e = elim (Bool-cases (leb (can_trim sec) 0)) [
      | inl small ↦ rw small (inr (AtFloor-get_at idx w.working sec e (ground (arith, small))))
      | inr large ↦ rw large (elim (Bool-cases (leb w.excess (can_trim sec))) [
        | inl last ↦ inl (ground (arith, last))
        | inr more ↦
            inr (AtFloor-modify_at (cut_of sec w) idx w.working sec e (cut_of-can_trim sec w more))
      ])
    ]

    -- nothing is done once the excess is gone
    trim_all-done : (order : List ℕ) (w : Work) → w.excess ≡ 0 → (trim_all c order w).excess ≡ 0
    unfolding trim_all
    trim_all-done [] w h = h
    trim_all-done (idx ∷ rest) w h = ground (arith, h)

    trim_all-stop : (order : List ℕ) (w : Work) → leb w.excess 0 ≡ true → trim_all c order w ≡ w
    unfolding trim_all
    trim_all-stop [] w h = refl
    trim_all-stop (idx ∷ rest) w h = rw h refl

    trim_all-step :
        (idx : ℕ) (rest : List ℕ) (w : Work)
        → leb w.excess 0 ≡ false
        → trim_all c (idx ∷ rest) w ≡ trim_all c rest (trim_at c idx w)
    unfolding trim_all
    trim_all-step idx rest w h = rw h refl

    trim_at-AtFloor :
        (idx : ℕ) (w : Work)
        → ((trim_at c idx w).excess ≡ 0) ⊎ AtFloor (trim_at c idx w).working idx
    unfolding trim_at
    trim_at-AtFloor idx w = trim_found-AtFloor idx (get_at idx w.working) w refl

    IsSettled : List ℕ → Work → Type 0
    IsSettled order done = (done.excess ≡ 0) ⊎ All (AtFloor done.working) order

    IsSettled-cons :
        (idx : ℕ) (rest : List ℕ) (w : Work)
        → ((trim_at c idx w).excess ≡ 0) ⊎ AtFloor (trim_at c idx w).working idx
        → IsSettled rest (trim_all c rest (trim_at c idx w))
        → IsSettled (idx ∷ rest) (trim_all c rest (trim_at c idx w))
    unfolding IsSettled
    IsSettled-cons idx rest w one (inl gone) = inl gone
    IsSettled-cons idx rest w (inl gone) (inr floors) =
        inl (trim_all-done rest (trim_at c idx w) gone)
    IsSettled-cons idx rest w (inr here) (inr floors) =
        inr (AtFloor-Below idx (trim_all-Below rest (trim_at c idx w)) here, floors)

    empty-IsSettled : (done : Work) → IsSettled [] done
    unfolding IsSettled
    empty-IsSettled done = inr tt

    gone-IsSettled : (order : List ℕ) (done : Work) → done.excess ≡ 0 → IsSettled order done
    unfolding IsSettled
    gone-IsSettled order done h = inl h

    trim_all-IsSettled : (order : List ℕ) (w : Work) → IsSettled order (trim_all c order w)
    trim_all-IsSettled [] w = empty-IsSettled (trim_all c [] w)
    trim_all-IsSettled (idx ∷ rest) w = elim (Bool-cases (leb w.excess 0)) [
      | inl e ↦
          rw (trim_all-stop (idx ∷ rest) w e) (gone-IsSettled (idx ∷ rest) w (ground (arith, e)))
      | inr e ↦ rw (trim_all-step idx rest w e) (
          IsSettled-cons idx rest w (trim_at-AtFloor idx w)
            (trim_all-IsSettled rest (trim_at c idx w)))
    ]

    total_tokens-filter :
        (ss : List PromptSection) → total_tokens (filter has_text ss) ≤ total_tokens ss
    unfolding total_tokens
    total_tokens-filter [] = omega arith
    total_tokens-filter (s ∷ ss) = ground (arith, total_tokens-filter ss)

    settled_total :
        (sections : List PromptSection) (budget : ℕ) (done : Work)
        → IsSettled (order_of sections) done
        → Below sections done.working
        → total_tokens done.working ≤ budget + done.excess
        → sum_of floor_of sections ≤ budget
        → total_tokens done.working ≤ budget
    unfolding order_of IsSettled
    settled_total sections budget done (inl gone) below total fits = omega (arith, gone, total)
    settled_total sections budget done (inr floors) below total fits = omega (
      arith,
      fits,
      total_tokens-AtFloor below (All-sort_by_back _ _ (trimmable_indices sections) floors),
    )

    check_total-fits :
        (budget : ℕ) (ss : List PromptSection) (names : List String)
        → total_tokens ss ≤ budget
        → check_total budget ss names ≡ trimmed ss names
    unfolding check_total
    check_total-fits budget ss names h = ground (arith, h)

    after_trimming-fits :
        (budget : ℕ) (done : Work)
        → total_tokens done.working ≤ budget
        → after_trimming budget done ≡ trimmed (filter has_text done.working) done.trimmed_names
    unfolding after_trimming
    after_trimming-fits budget done h =
        check_total-fits budget _ _ (omega (arith, h, total_tokens-filter done.working))

    -- Where the tokenizer is well behaved, `trim` succeeds on every list of sections whose floors fit
    -- the budget, and what it returns fits the budget. The floor of a section that may be trimmed is
    -- its minimum, or its tokens where these are fewer; the floor of any other is all its tokens.
    trim-fits :
        (sections : List PromptSection) (budget : ℕ)
        → sum_of floor_of sections ≤ budget
        → (final : List PromptSection) × (names : List String) × (trim c sections budget
            ≡ trimmed final names)
          × (total_tokens final ≤ budget)
    unfolding trim
    trim-fits sections budget h = elim (Bool-cases (leb (total_tokens sections) budget)) [
      | inl e ↦ (sections, [], rw e refl, ground (arith, e))
      | inr e ↦
          let w : Work = record {
            excess = total_tokens sections - budget;
            working = sections;
            trimmed_names = [];
          } in
          let done = trim_all c (order_of sections) w in
          let total =
            settled_total sections budget done (trim_all-IsSettled (order_of sections) w)
              (trim_all-Below (order_of sections) w)
              (trim_all-total budget (order_of sections) w (omega arith)) h in
          (
            filter has_text done.working,
            done.trimmed_names,
            rw e (after_trimming-fits budget done total),
            omega (arith, total, total_tokens-filter done.working),
          )
    ]
