-- ===== src/Context/Tests/Characters.antt =====
-- A tokenizer with one token for each character, which is well behaved, for the witnesses.
use Prim.Native.Nat.{suc, zero}
use Prim.Native.String.{String, count, ◌++◌ as append}
use Prim.Native.String.count
use Prim.Native.Char.{Char}
use text.Mathlib.TextLemmas.{length-append as count-append}
use llm_service.Prelude.{
  ℕ, ◌≤◌, max, ◌≡◌, ◌⊎◌, sym, ap, refl, some, List, [], ◌∷◌, length, take, rstrip, lstrip, strip,
  first_chars, arith, false, str_eq, str_eq_iff, Bool-cases, inl, inr, ◌&&◌, leb, is_space,
}
use llm_service.Context.Tokens.{Tokenizer, base_count, count_text, truncate_text_to_tokens, decoded}
use llm_service.Context.Shrink.Meets.{IsTame}

abbrev ones : String → List ℕ
ones String.[] = []
ones (String.◌∷◌ c s) = 1 ∷ ones s

abbrev letters : List ℕ → String
letters [] = ""
letters (t ∷ ts) = append "a" (letters ts)

abbrev pub characters : Tokenizer
characters = record {
  encode = λ t. some (ones t);
  decode = λ ts. some (letters ts);
  calibrate = λ _ n. n;
  uncalibrate = λ _ n. n;
}

length-ones : (t : String) → length (ones t) ≡ count t
length-ones String.[] = sym count.nil
length-ones (String.◌∷◌ c s) = omega (arith, length-ones s, count.cons c s)

count_a : count "a" ≡ 1
count_a = refl

count_line_break : count "\n" ≡ 1
count_line_break = refl

cons_is_text : (c : Char) (s : String) → str_eq (String.◌∷◌ c s) "" ≡ false
cons_is_text c s = elim (Bool-cases (str_eq (String.◌∷◌ c s) "")) [
  | inl e ↦
      ground (arith, ap count ((str_eq_iff (String.◌∷◌ c s) "").0 e), count.cons c s, count.nil)
  | inr e ↦ e
]

count-letters : (ts : List ℕ) → count (letters ts) ≡ length ts
count-letters [] = count.nil
count-letters (t ∷ ts) = omega (arith, count-letters ts, count-append "a" (letters ts), count_a)

count_text_lem : (t provider : String) → count_text characters t provider ≡ count t
unfolding count_text base_count
count_text_lem String.[] provider = sym count.nil
count_text_lem (String.◌∷◌ c s) provider =
    rw (cons_is_text c s) (omega (arith, length-ones s, count.cons c s))

rstrip-cons :
    (c : Char) (s : String)
    → (rstrip (String.◌∷◌ c s) ≡ "") ⊎ (rstrip (String.◌∷◌ c s) ≡ String.◌∷◌ c (rstrip s))
rstrip-cons c s = elim (Bool-cases (str_eq (rstrip s) "" && is_space c)) [
  | inl e ↦ inl (rw e refl)
  | inr e ↦ inr (rw e refl)
]

count-rstrip : (t : String) → count (rstrip t) ≤ count t
count-rstrip String.[] = omega arith
count-rstrip (String.◌∷◌ c s) = elim (rstrip-cons c s) [
  | inl e ↦ rw e (omega (arith, count.nil))
  | inr e ↦ rw e (omega (arith, count-rstrip s, count.cons c s, count.cons c (rstrip s)))
]

count-lstrip : (t : String) → count (lstrip t) ≤ count t
count-lstrip String.[] = omega arith
count-lstrip (String.◌∷◌ c s) = elim (Bool-cases (is_space c)) [
  | inl e ↦ rw e (omega (arith, count-lstrip s, count.cons c s))
  | inr e ↦ rw e (omega arith)
]

count-first_chars :
    (n : ℕ) (t : String) → (count (first_chars n t) ≤ count t) × (count (first_chars n t) ≤ n)
count-first_chars zero t = (omega (arith, count.nil), omega (arith, count.nil))
count-first_chars (suc n) String.[] = (omega arith, omega (arith, count.nil))
count-first_chars (suc n) (String.◌∷◌ c s) =
    let rest = count-first_chars n s in
    (
      omega (arith, rest.0, count.cons c s, count.cons c (first_chars n s)),
      omega (arith, rest.1, count.cons c (first_chars n s)),
    )

length-take : (n : ℕ) (ts : List ℕ) → length (take n ts) ≤ n
length-take zero ts = omega arith
length-take (suc n) [] = omega arith
length-take (suc n) (t ∷ ts) = omega (arith, length-take n ts)

truncated_count :
    (t provider : String) (n : ℕ) → count (truncate_text_to_tokens characters t n provider) ≤ n
unfolding truncate_text_to_tokens decoded
truncated_count t provider n = elim (Bool-cases (leb n 0)) [
  | inl e ↦ rw e (omega (arith, count.nil))
  | inr e ↦ elim (Bool-cases (leb (count_text characters t provider) n)) [
    | inl f ↦ rw (e, f) (ground (arith, f, count_text_lem t provider))
    | inr f ↦
        rw (e, f)
          (ground
            (arith, e, length-take (max 1 n) (ones t), count-letters (take (max 1 n) (ones t))))
  ]
]

pub characters-IsTame : (provider : String) → IsTame characters provider
characters-IsTame provider = record {
  rstripped = λ t.
      omega (arith, count-rstrip t, count_text_lem t provider, count_text_lem (rstrip t) provider);
  stripped = λ t. omega (
    arith,
    count-rstrip (lstrip t),
    count-lstrip t,
    count_text_lem t provider,
    count_text_lem (strip t) provider,
  );
  prefixes = λ n t. omega (
    arith,
    (count-first_chars n t).0,
    count_text_lem t provider,
    count_text_lem (first_chars n t) provider,
  );
  joined = λ s t. omega (
    arith,
    count-append s (append "\n" t),
    count-append "\n" t,
    count_line_break,
    count_text_lem s provider,
    count_text_lem t provider,
    count_text_lem (append s (append "\n" t)) provider,
  );
  truncated = λ t n. omega (
    arith,
    truncated_count t provider n,
    count_text_lem (truncate_text_to_tokens characters t n provider) provider,
  );
}
