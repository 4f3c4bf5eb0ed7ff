-- ===== src/Parsing/Duration/Laws.antt =====
-- About `time.ParseDuration`: the range of its result.
use taifa_exchange.Base.{
  ℕ, zero, suc, ◌≤◌, ◌^◌, ◌+◌, ◌%◌, ◌≡◌, arith, String, Option, none, some, Bool, true, false, ℤ,
  Fits, inl, inr, Option-cases, ltb, Char, if◌then◌else◌, refl, sym, ◌∙◌,
}
use Prim.Native.String.{[], ◌∷◌, count}
use taifa_exchange.Parsing.Duration.{parse_duration, sum_terms, take_term, signed_result}
use taifa_exchange.Parsing.Integer.{take_sign}

pub none-some {ℓ} : {A : Type ℓ} {a : A} → ¬ ((let o : Option A = none in o) ≡ some a)
none-some h = cc

-- One round of the loop.
pub sum_terms_step :
    (fuel : ℕ) (c : Char) (s : String) (d v : ℕ) (rest : String)
    → take_term (c ∷ s) ≡ some (v, rest)
    → sum_terms (suc fuel) (c ∷ s) d
      ≡ (if ltb (2 ^ 63) ((d + v) % 2 ^ 64) then none else sum_terms fuel rest ((d + v) % 2 ^ 64))
unfolding sum_terms
sum_terms_step fuel c s d v rest h = rw (sum_terms, h) refl

pub sum_terms_stop :
    (fuel : ℕ) (c : Char) (s : String) (d : ℕ)
    → take_term (c ∷ s) ≡ none
    → sum_terms (suc fuel) (c ∷ s) d ≡ none
unfolding sum_terms
sum_terms_stop fuel c s d h = rw (sum_terms, h) refl

pub test_of_le : (m n : ℕ) → n ≤ m → ltb m n ≡ false
test_of_le m n h = ground arith

le_of_test : (m n : ℕ) → ltb m n ≡ false → n ≤ m
le_of_test m n h = ground arith

pub sum_terms-nil : (fuel d : ℕ) → sum_terms fuel [] d ≡ some d
unfolding sum_terms
sum_terms-nil zero d = refl
sum_terms-nil (suc fuel) d = refl

-- What a conditional error lets through.
unless {ℓ} :
    {A : Type ℓ} (b : Bool) (o : Option A) (a : A)
    → (if b then none else o) ≡ some a
    → (b ≡ false) × (o ≡ some a)
unless true o a h = cc
unless false o a h = (refl, h)

sum_terms_bound :
    (fuel : ℕ) (s : String) (d r : ℕ) → d ≤ 2 ^ 63 → sum_terms fuel s d ≡ some r → r ≤ 2 ^ 63
unfolding sum_terms
sum_terms_bound zero [] d r fits h = ground arith
sum_terms_bound (suc fuel) [] d r fits h = ground arith
sum_terms_bound zero (c ∷ s) d r fits h = cc
sum_terms_bound (suc fuel) (c ∷ s) d r fits h = elim (Option-cases (take_term (c ∷ s))) [
  | inl none_taken ↦ absurd (none-some (sym (sum_terms_stop fuel c s d none_taken) ∙ h))
  | inr ((v, rest), taken) ↦
      let (test, later) =
        unless (ltb (2 ^ 63) ((d + v) % 2 ^ 64)) (sum_terms fuel rest ((d + v) % 2 ^ 64)) r
          (sym (sum_terms_step fuel c s d v rest taken) ∙ h) in
      sum_terms_bound fuel rest ((d + v) % 2 ^ 64) r (le_of_test _ _ test) later
]

signed_result_bound :
    (minus : Bool) (o : Option ℕ) (z : ℤ)
    → ((d : ℕ) → o ≡ some d → d ≤ 2 ^ 63)
    → signed_result minus o ≡ some z
    → Fits 63 z
signed_result_bound minus none z h k = cc
signed_result_bound true (some d) z h k = ground (arith, h d)
signed_result_bound false (some d) z h k = ground arith

-- A duration that is read fits into 64 bits.
pub parse_duration-Fits : (s : String) (z : ℤ) → parse_duration s ≡ some z → Fits 63 z
unfolding parse_duration
parse_duration-Fits s z h = ground (
  arith,
  signed_result_bound (take_sign s).0 (sum_terms (count (take_sign s).1) (take_sign s).1 0) z
      (λ d. sum_terms_bound (count (take_sign s).1) (take_sign s).1 0 d (omega arith)),
)
