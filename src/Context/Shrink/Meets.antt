-- ===== src/Context/Shrink/Meets.antt =====
-- A section shrunk to a number of tokens has at most so many, where the tokenizer is well behaved.
use Prim.Native.String.{◌++◌ as append}
use llm_service.Prelude.{
  ℕ, ◌+◌, ◌≤◌, ◌<◌, ◌≡◌, refl, String, Bool-cases, inl, inr, Option, none, some, List, [], ◌∷◌,
  arith, ltb, rstrip, strip, join_with, first_chars, split_on, sum_of,
}
use llm_service.Context.Tokens.{Tokenizer, count_text, truncate_text_to_tokens, ChatMessage}
use llm_service.Context.Sections.{PromptSection}
use llm_service.Context.Shrink.{
  whole_lines, last_break, cut_before, cut_at_word, lines_or_start, keep_whole_lines, drop_oldest,
  drop_words, history_text, keep_newest, shrink_history, history_items, shrink,
}

-- What the trimmer relies on: no more tokens in a text cut at an end than in the whole, at most one
-- token for a line break between two texts, and a truncation that keeps what it is asked for.
pub record IsTame (k : Tokenizer) (provider : String) : Type 0 where
  pub rstripped : (t : String) → count_text k (rstrip t) provider ≤ count_text k t provider
  pub stripped : (t : String) → count_text k (strip t) provider ≤ count_text k t provider
  pub prefixes :
      (n : ℕ) (t : String) → count_text k (first_chars n t) provider ≤ count_text k t provider
  pub joined :
      (s t : String)
      → count_text k (append s (append "\n" t)) provider
        ≤ count_text k s provider + 1 + count_text k t provider
  pub truncated :
      (t : String) (n : ℕ) → count_text k (truncate_text_to_tokens k t n provider) provider ≤ n

module _ (k : Tokenizer) (provider : String) where
  abbrev cost_of : List String → ℕ
  cost_of = sum_of (λ line. count_text k line provider + 1)

  count_text-empty : count_text k "" provider ≡ 0
  unfolding count_text
  count_text-empty = refl

  whole_lines-cost :
      (target used : ℕ) (lines : List String)
      → used ≤ target
      → used + cost_of (whole_lines k provider target used lines) ≤ target
  unfolding whole_lines
  whole_lines-cost target used [] h = omega (arith, h)
  whole_lines-cost target used (line ∷ lines) h =
      elim (Bool-cases (ltb target (used + (count_text k line provider + 1)))) [
        | inl e ↦ rw e (omega (arith, h))
        | inr e ↦
            rw e (
              grind
                (arith, whole_lines-cost target (used + (count_text k line provider + 1)) lines))
      ]

  drop_oldest-fits :
      (caps : String → String) (header : String) (target : ℕ) (items : List ChatMessage)
      → count_text k
          (history_text caps header (drop_oldest k caps provider header target items))
          provider
        ≤ target
  unfolding drop_oldest history_text
  drop_oldest-fits caps header target [] = rw count_text-empty (omega arith)
  drop_oldest-fits caps header target (i ∷ is) =
      ground (arith, drop_oldest-fits caps header target is)

  drop_words-fits :
      (target : ℕ) (words : List String)
      → count_text k (join_with " " (drop_words k provider target words)) provider ≤ target
  unfolding drop_words
  drop_words-fits target [] = rw count_text-empty (omega arith)
  drop_words-fits target (w ∷ ws) = ground (arith, drop_words-fits target ws)

  module _ (tame : IsTame k provider) where
    count_text-join_with :
        (line : String) (lines : List String)
        → count_text k (join_with "\n" (line ∷ lines)) provider ≤ cost_of (line ∷ lines)
    count_text-join_with line [] = omega arith
    count_text-join_with line (next ∷ lines) =
        omega
          (arith, tame.joined line (join_with "\n" (next ∷ lines)), count_text-join_with next lines)

    cut_before-fits :
        (cut : String) (at_break : Option ℕ)
        → count_text k (cut_before cut at_break) provider ≤ count_text k cut provider
    unfolding cut_before
    cut_before-fits cut none = rw count_text-empty (omega arith)
    cut_before-fits cut (some n) =
        ground (arith, count_text-empty, tame.rstripped (first_chars n cut), tame.prefixes n cut)

    cut_at_word-fits :
        (cut text : String)
        → count_text k (cut_at_word cut text) provider ≤ count_text k cut provider
    unfolding cut_at_word
    cut_at_word-fits cut text =
        ground (arith, tame.rstripped cut, cut_before-fits cut (last_break cut))

    lines_or_start-fits :
        (text : String) (target : ℕ) (lines : List String)
        → 0 < target
        → cost_of lines ≤ target
        → count_text k (lines_or_start k provider text target lines) provider ≤ target
    unfolding lines_or_start
    lines_or_start-fits text target [] h fits = omega (
      arith,
      tame.truncated text target,
      cut_at_word-fits (truncate_text_to_tokens k text target provider) text,
    )
    lines_or_start-fits text target (line ∷ lines) h fits =
        omega
          (arith, tame.rstripped (join_with "\n" (line ∷ lines)), count_text-join_with line lines)

    keep_newest-fits :
        (caps : String → String) (target : ℕ) (sec : PromptSection) (header : String)
        (items : List ChatMessage)
        → count_text k (keep_newest k caps provider target sec header items).content provider
          ≤ target
    unfolding keep_newest
    keep_newest-fits caps target sec header [] = omega (
      arith,
      tame.stripped (join_with " " (drop_words k provider target (split_on 32 sec.content))),
      drop_words-fits target (split_on 32 sec.content),
    )
    keep_newest-fits caps target sec header (i ∷ is) = drop_oldest-fits caps header target (i ∷ is)

    -- A section shrunk to a positive number of tokens counts at most so many, whichever its kind,
    -- where the tokenizer is well behaved (`IsTame`): a text cut at an end has no more tokens, a
    -- line break costs one token at most, and a truncated text has the tokens asked for.
    pub shrink-meets :
        (caps : String → String) (target : ℕ) (sec : PromptSection)
        → 0 < target
        → count_text k (shrink k caps provider target sec).content provider ≤ target
    unfolding shrink shrink_history keep_whole_lines
    shrink-meets caps target sec h = ground (
      arith,
      keep_newest-fits caps target sec (history_items sec).0 (history_items sec).1,
      lines_or_start-fits sec.content target
          (whole_lines k provider target 0 (split_on 10 sec.content)) h
          (omega (arith, whole_lines-cost target 0 (split_on 10 sec.content))),
    )
