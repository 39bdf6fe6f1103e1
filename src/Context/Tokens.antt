-- ===== src/Context/Tokens.antt =====
-- The token counter (app/context_window/token_counter.py). The tokenizer of tiktoken and the
-- floating-point multipliers are the parameters of a `Tokenizer`.
use Prim.Native.String.{count}
use llm_service.Prelude.{
  ℕ, ◌+◌, ◌*◌, ◌/◌, max, String, Option, none, some, List, [], ◌∷◌, str_eq, if◌then◌else◌, length,
  leb, take, first_chars,
}

-- `encode` and `decode` are `none` where there is no tokenizer or it raises; `calibrate p n` is
-- `int(n * m)` and `uncalibrate p n` is `int(n / m)`, for the multiplier m of the provider p.
pub record Tokenizer : Type 0 where
  pub encode : String → Option (List ℕ)
  pub decode : List ℕ → Option String
  pub calibrate : String → ℕ → ℕ
  pub uncalibrate : String → ℕ → ℕ

unfoldable pub base_count : Tokenizer → String → ℕ
base_count k text = elim (k.encode text) [
  | some tokens ↦ length tokens
  | none ↦ max 1 (count text / 4)
]

unfoldable pub count_text : Tokenizer → String → String → ℕ
count_text k text provider =
    if str_eq text "" then 0 else max 1 (k.calibrate provider (base_count k text))

-- a chat message, with its role and its content
pub record ChatMessage : Type 0 where
  pub role : String
  pub content : String

unfoldable pub total_of : Tokenizer → List ChatMessage → String → ℕ
total_of k [] provider = 0
total_of k (m ∷ ms) provider = (count_text k m.content provider + 4) + total_of k ms provider

unfoldable pub count_messages : Tokenizer → List ChatMessage → String → ℕ
count_messages k messages provider = total_of k messages provider + 2

-- the fallback: slicing by characters
unfoldable pub sliced : String → ℕ → String
sliced text target_tokens = first_chars (max 10 (target_tokens * 4)) text

unfoldable pub decoded : Tokenizer → List ℕ → String → ℕ → String → String
decoded k tokens text target_tokens provider =
    elim (k.decode (take (max 1 (k.uncalibrate provider target_tokens)) tokens)) [
      | some cut ↦ cut
      | none ↦ sliced text target_tokens
    ]

unfoldable pub truncate_text_to_tokens : Tokenizer → String → ℕ → String → String
truncate_text_to_tokens k text target_tokens provider =
    if leb target_tokens 0
    then ""
    else if leb (count_text k text provider) target_tokens
    then text
    else elim (k.encode text) [
      | none ↦ sliced text target_tokens
      | some tokens ↦ decoded k tokens text target_tokens provider
    ]
