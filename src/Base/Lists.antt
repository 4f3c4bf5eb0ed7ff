-- ===== src/Base/Lists.antt =====
-- Lists over the native numbers, and predicates on lists that compute.
use Prim.Native.Nat.{ℕ, suc}
use Prim.Native.String.{String}
use mathlib.Core.Path.{◌≡◌, refl, subst}
use mathlib.Core.Bool.{Bool, true, false, ◌||◌}
use mathlib.Core.Logic.{◌⊎◌, ◌↔◌, inl, inr}
use mathlib.Core.List.{List, [], ◌∷◌, ◌++◌}
use native.Mathlib.Omega.{arith}
use text.Mathlib.Text.{◌==◌}
use text.Mathlib.TextEquality.{eq_iff}

module _ {ℓ} {A : Type ℓ} where
  abbrev pub length : List A → ℕ
  length [] = 0
  length (x ∷ xs) = suc (length xs)

  -- `len(xs) == 0`
  abbrev pub is_nil : List A → Bool
  is_nil [] = true
  is_nil (x ∷ xs) = false

-- `x` occurs in the list.
abbrev pub In : {A : Type 0} → A → List A → Type 0
In x [] = ⊥
In x (y ∷ ys) = (y ≡ x) ⊎ In x ys

abbrev pub All {ℓ κ} : {A : Type ℓ} (P : A → Type κ) → List A → Type κ
All P [] = Unit
All P (x ∷ xs) = P x × All P xs

pub map_All {ℓ κ μ} :
    {A : Type ℓ} {P : A → Type κ} {Q : A → Type μ}
    → ((x : A) → P x → Q x)
    → (xs : List A) → All P xs
    → All Q xs
map_All f [] h = tt
map_All f (x ∷ xs) (h, hs) = (f x h, map_All f xs hs)

pub All-In : {A : Type 0} (xs : List A) → All (λ x. In x xs) xs
All-In [] = tt
All-In (x ∷ xs) = (inl refl, map_All (λ y i. inr i) xs (All-In xs))

pub In-append_right : {A : Type 0} (xs ys : List A) (x : A) → In x ys → In x (xs ++ ys)
In-append_right [] ys x i = i
In-append_right (y ∷ xs) ys x i = inr (In-append_right xs ys x i)

-- A text occurs in a list of texts, as a test.
unfoldable pub contains : List String → String → Bool
contains [] x = false
contains (y ∷ ys) x = y == x || contains ys x

contains_sound : (xs : List String) (x : String) → contains xs x ≡ true → In x xs
unfolding contains
contains_sound [] x h = cc
contains_sound (y ∷ ys) x h = ground (arith, eq_iff y x, contains_sound ys x)

contains_complete : (xs : List String) (x : String) → In x xs → contains xs x ≡ true
unfolding contains
contains_complete [] x h = absurd h
contains_complete (y ∷ ys) x h = ground (arith, eq_iff y x, contains_complete ys x)

pub contains_iff : (xs : List String) (x : String) → (contains xs x ≡ true) ↔ In x xs
contains_iff xs x = (contains_sound xs x, contains_complete xs x)

pub In-append : (xs : List String) (y x : String) → In x (xs ++ y ∷ []) ↔ (In x xs ⊎ (y ≡ x))
In-append [] y x = ground arith
In-append (z ∷ xs) y x = ground (arith, In-append xs y x)

-- No text is in the list twice.
abbrev pub Distinct : List String → Type 0
Distinct [] = Unit
Distinct (x ∷ xs) = (¬ In x xs) × Distinct xs

pub Distinct-concat :
    (xs : List String) (y : String) → Distinct xs → ¬ In y xs → Distinct (xs ++ y ∷ [])
Distinct-concat [] y d n = (λ h. h, tt)
Distinct-concat (x ∷ xs) y d n =
    (λ h. ground (arith, In-append xs y x, d.0), Distinct-concat xs y d.1 (λ h. n (inr h)))

pub is_nil_of_empty : (xs : List String) → ((x : String) → ¬ In x xs) → is_nil xs ≡ true
is_nil_of_empty [] h = refl
is_nil_of_empty (x ∷ xs) h = absurd (h x (inl refl))

pub not-In-is_nil : (xs : List String) (x : String) → is_nil xs ≡ true → ¬ In x xs
not-In-is_nil [] x h m = m
not-In-is_nil (y ∷ ys) x h m = cc

pub not-In_of_contains : (xs : List String) (x : String) → contains xs x ≡ false → ¬ In x xs
not-In_of_contains xs x h m = ground (arith, contains_iff xs x)

module _ {ℓ} {A : Type 0} (P : A → Type ℓ) where
  -- What holds of every element holds of one in the middle, and of the list without it.
  pub All-remove :
      (xs : List A) (y : A) (zs : List A) → All P (xs ++ y ∷ zs) → P y × All P (xs ++ zs)
  All-remove [] y zs h = h
  All-remove (x ∷ xs) y zs h = let rest = All-remove xs y zs h.1 in (rest.0, (h.0, rest.1))

  pub All-at : (xs : List A) (x : A) → All P xs → In x xs → P x
  All-at [] x h i = absurd i
  All-at (y ∷ ys) x h (inl e) = subst P e h.0
  All-at (y ∷ ys) x h (inr i) = All-at ys x h.1 i
