-- ===== src/Prelude/Strips.antt =====
-- `strip` takes nothing off a text that it has stripped.
use Prim.Native.String.{String}
use mathlib.Core.Path.{◌≡◌, refl, ◌∙◌, ap}
use mathlib.Core.Logic.{inl, inr}
use mathlib.Core.Bool.{Bool, true, not, ◌&&◌}
use text.Mathlib.Text.{◌==◌ as str_eq}
use native.Mathlib.Omega.{arith}
use llm_service.Prelude.Tests.{Bool-cases}
use llm_service.Prelude.Texts.{is_space, rstrip, lstrip, strip}

-- the text does not begin with a space
abbrev is_trim : String → Bool
is_trim String.[] = true
is_trim (String.◌∷◌ c s) = not (is_space c)

is_trim-lstrip : (s : String) → is_trim (lstrip s) ≡ true
is_trim-lstrip String.[] = refl
is_trim-lstrip (String.◌∷◌ c s) = elim (Bool-cases (is_space c)) [
  | inl e ↦ rw e (is_trim-lstrip s)
  | inr e ↦ rw (e, e) refl
]

is_trim-rstrip : (s : String) → is_trim s ≡ true → is_trim (rstrip s) ≡ true
is_trim-rstrip String.[] h = refl
is_trim-rstrip (String.◌∷◌ c s) h = elim (Bool-cases (str_eq (rstrip s) "" && is_space c)) [
  | inl e ↦ rw e refl
  | inr e ↦ rw e h
]

lstrip_lem : (s : String) → is_trim s ≡ true → lstrip s ≡ s
lstrip_lem String.[] h = refl
lstrip_lem (String.◌∷◌ c s) h = elim (Bool-cases (is_space c)) [
  | inl e ↦ ground (arith, h, e)
  | inr e ↦ rw e refl
]

rstrip-rstrip : (s : String) → rstrip (rstrip s) ≡ rstrip s
rstrip-rstrip String.[] = refl
rstrip-rstrip (String.◌∷◌ c s) = elim (Bool-cases (str_eq (rstrip s) "" && is_space c)) [
  | inl e ↦ rw e refl
  | inr e ↦ rw e (rw (rstrip-rstrip s, e) refl)
]

pub strip-strip : (s : String) → strip (strip s) ≡ strip s
strip-strip s =
    ap rstrip (lstrip_lem (strip s) (is_trim-rstrip (lstrip s) (is_trim-lstrip s)))
    ∙ rstrip-rstrip (lstrip s)
