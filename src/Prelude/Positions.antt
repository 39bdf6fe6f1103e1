-- ===== src/Prelude/Positions.antt =====
-- Lists read and changed by position, and Python's stable sort by a number.
use Prim.Native.Nat.{ℕ, zero, suc, ◌+◌, ◌-◌}
use Prim.Native.String.{String, compare}
use text.Mathlib.Text.{is_le}
use mathlib.Core.Path.{◌≡◌, refl, ap}
use mathlib.Core.Option.{Option, none, some}
use mathlib.Core.List.{List, [], ◌∷◌, ◌++◌}
use native.Mathlib.Omega.{arith}
use llm_service.Prelude.Tests.{if◌then◌else◌, leb}
use llm_service.Prelude.Lists.{All, length}

module _ {ℓ} {A : Type ℓ} where
  -- `xs[i]`, with `none` for an IndexError
  abbrev pub get_at : ℕ → List A → Option A
  get_at i [] = none
  get_at zero (x ∷ xs) = some x
  get_at (suc i) (x ∷ xs) = get_at i xs

  -- the list with `xs[i] = f(xs[i])`
  abbrev pub modify_at : ℕ → (A → A) → List A → List A
  modify_at i f [] = []
  modify_at zero f (x ∷ xs) = f x ∷ xs
  modify_at (suc i) f (x ∷ xs) = x ∷ modify_at i f xs

  -- `xs[:n]`
  abbrev pub take : ℕ → List A → List A
  take zero xs = []
  take (suc n) [] = []
  take (suc n) (x ∷ xs) = x ∷ take n xs

  -- `xs[n:]`
  abbrev pub drop : ℕ → List A → List A
  drop zero xs = xs
  drop (suc n) [] = []
  drop (suc n) (x ∷ xs) = drop n xs

  -- `reversed(xs)`
  abbrev pub reversed : List A → List A
  reversed [] = []
  reversed (x ∷ xs) = reversed xs ++ x ∷ []

  pub take-drop : (n : ℕ) (xs : List A) → take n xs ++ drop n xs ≡ xs
  take-drop zero xs = refl
  take-drop (suc n) [] = refl
  take-drop (suc n) (x ∷ xs) = ap (x ∷◌) (take-drop n xs)

  pub length-drop : (n : ℕ) (xs : List A) → length (drop n xs) ≡ length xs - n
  length-drop zero xs = omega arith
  length-drop (suc n) [] = omega arith
  length-drop (suc n) (x ∷ xs) = omega (arith, length-drop n xs)

  -- `sum(weight(x) for x in xs)`
  abbrev pub sum_of : (A → ℕ) → List A → ℕ
  sum_of weight [] = 0
  sum_of weight (x ∷ xs) = weight x + sum_of weight xs

  abbrev pub insert_by : (A → ℕ) → A → List A → List A
  insert_by key x [] = x ∷ []
  insert_by key x (y ∷ ys) =
      let rest = insert_by key x ys in if leb (key x) (key y) then x ∷ y ∷ ys else y ∷ rest

  -- `sorted(xs, key=key)`
  abbrev pub sort_by : (A → ℕ) → List A → List A
  sort_by key [] = []
  sort_by key (x ∷ xs) = insert_by key x (sort_by key xs)

  pub All-insert_by {κ} :
      (P : A → Type κ) (key : A → ℕ) (x : A) (ys : List A)
      → P x
      → All P ys
      → All P (insert_by key x ys)
  All-insert_by P key x [] hx hs = (hx, tt)
  All-insert_by P key x (y ∷ ys) hx hs = ground (arith, All-insert_by P key x ys hx hs.1)

  pub All-sort_by {κ} :
      (P : A → Type κ) (key : A → ℕ) (xs : List A) → All P xs → All P (sort_by key xs)
  All-sort_by P key [] hs = tt
  All-sort_by P key (x ∷ xs) hs =
      All-insert_by P key x (sort_by key xs) hs.0 (All-sort_by P key xs hs.1)

  All-insert_by_back {κ} :
      (P : A → Type κ) (key : A → ℕ) (x : A) (ys : List A)
      → All P (insert_by key x ys)
      → P x × All P ys
  All-insert_by_back P key x [] hs = (hs.0, tt)
  All-insert_by_back P key x (y ∷ ys) hs = ground (arith, All-insert_by_back P key x ys)

  -- what holds of a sorted list holds of the list
  pub All-sort_by_back {κ} :
      (P : A → Type κ) (key : A → ℕ) (xs : List A) → All P (sort_by key xs) → All P xs
  All-sort_by_back P key [] hs = tt
  All-sort_by_back P key (x ∷ xs) hs =
      let split = All-insert_by_back P key x (sort_by key xs) hs in
      (split.0, All-sort_by_back P key xs split.1)

abbrev insert_text : String → List String → List String
insert_text t [] = t ∷ []
insert_text t (u ∷ us) =
    let rest = insert_text t us in if is_le (compare t u) then t ∷ u ∷ us else u ∷ rest

-- `sorted(texts)`
abbrev pub sort_texts : List String → List String
sort_texts [] = []
sort_texts (t ∷ ts) = insert_text t (sort_texts ts)

All-insert_text {κ} :
    (P : String → Type κ) (t : String) (us : List String)
    → P t
    → All P us
    → All P (insert_text t us)
All-insert_text P t [] ht hs = (ht, tt)
All-insert_text P t (u ∷ us) ht hs = ground (arith, All-insert_text P t us ht hs.1)

pub All-sort_texts {κ} : (P : String → Type κ) (ts : List String) → All P ts → All P (sort_texts ts)
All-sort_texts P [] hs = tt
All-sort_texts P (t ∷ ts) hs = All-insert_text P t (sort_texts ts) hs.0 (All-sort_texts P ts hs.1)
