-- ===== src/Text/Trim.antt =====
-- About `strings.TrimSpace` (Text).
use Prim.Native.String.{[], ◌∷◌}
use taifa_exchange.Base.{String, Char, ◌≡◌, refl, ap, ◌∙◌, false, arith, Bool-cases, inl, inr}
use taifa_exchange.Text.{is_space, trim_left, keep, trim_right, trim_space}

trim_left_idem : (s : String) → trim_left (trim_left s) ≡ trim_left s
unfolding trim_left
trim_left_idem [] = refl
trim_left_idem (c ∷ s) = ground (arith, trim_left_idem s)

trim_right-keep : (c : Char) (s : String) → trim_right s ≡ s → trim_right (keep c s) ≡ keep c s
unfolding trim_right keep
trim_right-keep c [] h = elim (Bool-cases (is_space c)) [ inl e ↦ rw e | inr e ↦ rw e (rw e) ]
trim_right-keep c (d ∷ s) h = rw h refl

trim_right_idem : (s : String) → trim_right (trim_right s) ≡ trim_right s
unfolding trim_right
trim_right_idem [] = refl
trim_right_idem (c ∷ s) = trim_right-keep c (trim_right s) (trim_right_idem s)

trim_left-keep : (c : Char) (s : String) → is_space c ≡ false → trim_left (keep c s) ≡ keep c s
unfolding trim_left keep
trim_left-keep c [] h = rw h (rw h)
trim_left-keep c (d ∷ s) h = rw h

-- A text that is trimmed on its left stays so when it is trimmed on its right.
trim_left-trim_space : (s : String) → trim_left (trim_space s) ≡ trim_space s
unfolding trim_space
trim_left-trim_space [] = refl
trim_left-trim_space (c ∷ s) = elim (Bool-cases (is_space c)) [
  | inl h ↦ rw h (trim_left-trim_space s)
  | inr h ↦ rw h (trim_left-keep c (trim_right s) h)
]

pub trim_space_idem : (s : String) → trim_space (trim_space s) ≡ trim_space s
unfolding trim_space
trim_space_idem s = ap trim_right (trim_left-trim_space s) ∙ trim_right_idem (trim_left s)
