-- ===== src/Context/Compaction/Suffix.antt =====
-- What a compacted history holds.
use llm_service.Prelude.{
  ℕ, ◌+◌, ◌-◌, ◌≤◌, min, ◌≡◌, ◌⊎◌, refl, ap, String, ◌||◌, List, [], ◌∷◌, ◌++◌, map, leb, ◌==◌,
  length, ltb, sym, ◌∙◌, filter, take, drop, take-drop, length-drop, length-append,
  length-filter-le, reversed, sum_of, arith, Bool-cases, inl, inr,
}
use mathlib.Core.List.{append_assoc, append-nil, cons-ne-nil}
use llm_service.Context.Tokens.{Tokenizer, count_text}
use llm_service.Context.Compaction.{
  Message, tokens_of, Recent, keep_recent, is_spoken, note_line, Chosen, choose_lines,
  CompactionResult, unchanged, note_of, with_note, choose_note, condense, split_history,
  compact_history,
}

-- how a result stands to the history: the newest messages as they were, after a note for the rest
pub record IsCompacted (messages : List Message) (least : ℕ) (r : CompactionResult) : Type 0 where
  pub older : List Message
  pub newest : List Message
  pub parts : older ++ newest ≡ messages
  pub kept_all : r.kept ≡ length newest
  pub enough : min least (length messages) ≤ r.kept
  pub counted : r.kept + r.condensed + r.omitted ≡ length messages
  pub result :
      (r.condensed ≡ 0) × (r.messages ≡ newest)
      ⊎ (skipped : List String) × (lines : List String) × (skipped ++ lines
          ≡ map note_line (filter (λ m. is_spoken m.role) older))
        × (r.condensed ≡ length lines)
        × (r.messages ≡ note_of lines ∷ newest)

length-reversed : (ms : List Message) → length (reversed ms) ≡ length ms
length-reversed [] = refl
length-reversed (m ∷ ms) = omega (arith, length-reversed ms, length-append (reversed ms) (m ∷ []))

length-map : (ms : List Message) → length (map note_line ms) ≡ length ms
length-map [] = refl
length-map (m ∷ ms) = omega (arith, length-map ms)

length-reversed_lines : (ls : List String) → length (reversed ls) ≡ length ls
length-reversed_lines [] = refl
length-reversed_lines (l ∷ ls) =
    omega (arith, length-reversed_lines ls, length-append (reversed ls) (l ∷ []))

reversed-snoc : (xs : List String) (y : String) → reversed (xs ++ y ∷ []) ≡ y ∷ reversed xs
reversed-snoc [] y = refl
reversed-snoc (x ∷ xs) y = ap (λ l. l ++ x ∷ []) (reversed-snoc xs y)

reversed-reversed : (xs : List String) → reversed (reversed xs) ≡ xs
reversed-reversed [] = refl
reversed-reversed (x ∷ xs) = reversed-snoc (reversed xs) x ∙ ap (x ∷◌) (reversed-reversed xs)

module _ (k : Tokenizer) (provider : String) where
  -- The chosen lines are the last of those given, newest first, in front of those chosen before.
  choose_lines-suffix :
      (note_budget : ℕ) (lines : List String) (done : Chosen)
      → (skipped : List String) × (skipped ++ (choose_lines k provider note_budget done lines).lines
          ≡ reversed lines ++ done.lines)
  unfolding choose_lines
  choose_lines-suffix note_budget [] done = ([], refl)
  choose_lines-suffix note_budget (line ∷ rest) done =
      let cost = count_text k line provider + 1 in
      let next : Chosen = record { lines = line ∷ done.lines; spent = done.spent + cost } in
      let (skipped, is) = choose_lines-suffix note_budget rest next in
      elim (Bool-cases (ltb note_budget (done.spent + cost))) [
        | inl e ↦ (reversed (line ∷ rest), rw e refl)
        | inr e ↦ (skipped, rw e (is ∙ sym (append_assoc (reversed rest) (line ∷ []) done.lines)))
      ]

  -- Lines are chosen only within the budget.
  choose_lines-within :
      (note_budget : ℕ) (lines : List String) (done : Chosen)
      → (done.lines ≡ []) ⊎ (done.spent ≤ note_budget)
      → ((choose_lines k provider note_budget done lines).lines ≡ [])
        ⊎ ((choose_lines k provider note_budget done lines).spent ≤ note_budget)
  unfolding choose_lines
  choose_lines-within note_budget [] done h = h
  choose_lines-within note_budget (line ∷ rest) done h =
      let cost = count_text k line provider + 1 in
      let next : Chosen = record { lines = line ∷ done.lines; spent = done.spent + cost } in
      elim (Bool-cases (ltb note_budget (done.spent + cost))) [
        | inl e ↦ rw e h
        | inr e ↦ rw e (choose_lines-within note_budget rest next (inr (ground (arith, e))))
      ]

  choose_note-suffix :
      (note_budget : ℕ) (older : List Message)
      → (skipped : List String) × (skipped ++ (choose_note k provider note_budget older).lines
          ≡ map note_line (filter (λ m. is_spoken m.role) older))
  unfolding choose_note
  choose_note-suffix note_budget older =
      let lines = map note_line (filter (λ m. is_spoken m.role) older) in
      let (skipped, is) = choose_lines-suffix note_budget (reversed lines) _ in
      (skipped, is ∙ append-nil _ ∙ reversed-reversed lines)

  choose_note-within :
      (note_budget : ℕ) (older : List Message)
      → ((choose_note k provider note_budget older).lines ≡ [])
        ⊎ ((choose_note k provider note_budget older).spent ≤ note_budget)
  unfolding choose_note
  choose_note-within note_budget older = choose_lines-within note_budget _ _ (inl refl)

  keep_recent-bounds :
      (token_budget note_reserve min_recent : ℕ) (done : Recent) (ms : List Message)
      → min min_recent (done.number + length ms)
          ≤ (keep_recent k provider token_budget note_reserve min_recent done ms).number
        × ((keep_recent k provider token_budget note_reserve min_recent done ms).number
            ≤ done.number + length ms)
  unfolding keep_recent
  keep_recent-bounds token_budget note_reserve min_recent done [] = (omega arith, omega arith)
  keep_recent-bounds token_budget note_reserve min_recent done (m ∷ ms) =
      let next : Recent = record {
        number = done.number + 1;
        used = done.used + tokens_of k provider m;
      } in
      let more = keep_recent-bounds token_budget note_reserve min_recent next ms in
      ground (arith, more.0, more.1)

  choose_lines-length :
      (note_budget : ℕ) (done : Chosen) (lines : List String)
      → length (choose_lines k provider note_budget done lines).lines
        ≤ length done.lines + length lines
  unfolding choose_lines
  choose_lines-length note_budget done [] = omega arith
  choose_lines-length note_budget done (line ∷ rest) = ground (
    arith,
    choose_lines-length note_budget
        (record {
          lines = line ∷ done.lines;
          spent = done.spent + (count_text k line provider + 1);
        })
        rest,
  )

  choose_note-length :
      (note_budget : ℕ) (older : List Message)
      → length (choose_note k provider note_budget older).lines ≤ length older
  unfolding choose_note
  choose_note-length note_budget older = omega (
    arith,
    choose_lines-length note_budget (record { lines = []; spent = count_text k _ provider + 4 })
        (reversed (map note_line (filter (λ m. is_spoken m.role) older))),
    length-reversed_lines (map note_line (filter (λ m. is_spoken m.role) older)),
    length-map (filter (λ m. is_spoken m.role) older),
    length-filter-le (λ m. is_spoken m.role) older,
  )

  unchanged-IsCompacted :
      (messages : List Message) (least before : ℕ)
      → IsCompacted messages least (unchanged messages before)
  unfolding unchanged
  unchanged-IsCompacted messages least before = record {
    older = [];
    newest = messages;
    parts = refl;
    kept_all = refl;
    enough = omega arith;
    counted = omega arith;
    result = inl (refl, refl);
  }

  with_note-result :
      (lines : List String) (spent note_budget : ℕ) (newest : List Message) (all : List String)
      → (lines ≡ []) ⊎ (spent ≤ note_budget)
      → ((skipped : List String) × (skipped ++ lines ≡ all))
      → (length lines ≡ 0) × (with_note lines spent note_budget newest ≡ newest)
        ⊎ (skipped : List String) × (ls : List String) × (skipped ++ ls ≡ all)
          × (length lines ≡ length ls)
          × (with_note lines spent note_budget newest ≡ note_of ls ∷ newest)
  unfolding with_note
  with_note-result [] spent note_budget newest all h k = inl (refl, refl)
  with_note-result (l ∷ ls) spent note_budget newest all (inl none_chosen) k =
      elim (cons-ne-nil l ls none_chosen) [ ]
  with_note-result (l ∷ ls) spent note_budget newest all (inr fits) (skipped, is) =
      inr (skipped, l ∷ ls, is, refl, ground (arith, fits))

  condense-IsCompacted :
      (least before note_budget : ℕ) (older newest messages : List Message)
      → older ++ newest ≡ messages
      → min least (length messages) ≤ length newest
      → IsCompacted messages least (condense k provider before note_budget older newest)
  unfolding condense
  condense-IsCompacted least before note_budget older newest messages e h = record {
    older = older;
    newest = newest;
    parts = e;
    kept_all = refl;
    enough = h;
    counted =
        omega
          (arith, choose_note-length note_budget older, length-append older newest, ap length e);
    result =
        with_note-result (choose_note k provider note_budget older).lines _ note_budget newest _
          (choose_note-within note_budget older) (choose_note-suffix note_budget older);
  }

  split_history-IsCompacted :
      (token_budget before least : ℕ) (messages : List Message) (recent : Recent)
      → min least (length messages) ≤ recent.number
      → IsCompacted messages least (split_history k provider token_budget before messages recent)
  unfolding split_history
  split_history-IsCompacted token_budget before least messages recent h =
      let from = length messages - recent.number in
      elim (Bool-cases (from == 0)) [
        | inl e ↦ rw e (unchanged-IsCompacted messages least before)
        | inr e ↦ rw e (
            condense-IsCompacted least before (token_budget - recent.used) (take from messages)
              (drop from messages) messages (take-drop from messages)
              (omega (arith, h, length-drop from messages)))
      ]

  -- A compacted history ends with the newest messages, unchanged and in their order, at least as many
  -- as asked for or all there are; before them stands one note at most. The note
  -- holds the last of the lines of the older messages of the user and the assistant, as many as are
  -- counted as condensed, and it is missing only where none is; each message is counted as kept, as
  -- condensed or as omitted.
  pub compact_history-IsCompacted :
      (token_budget note_reserve least : ℕ) (messages : List Message)
      → IsCompacted messages least
          (compact_history k provider token_budget note_reserve least messages)
  unfolding compact_history
  compact_history-IsCompacted token_budget note_reserve least messages =
      let before = sum_of (tokens_of k provider) messages in
      let start : Recent = record { number = 0; used = 0 } in
      elim (Bool-cases (leb before token_budget || length messages == 0)) [
        | inl e ↦ rw e (unchanged-IsCompacted messages least before)
        | inr e ↦ rw e (
            split_history-IsCompacted token_budget before least messages
              (keep_recent k provider token_budget note_reserve least start (reversed messages))
              (omega (
                arith,
                length-reversed messages,
                (keep_recent-bounds token_budget note_reserve least start (reversed messages)).0,
              )))
      ]
