-- ===== src/Text/Case.antt =====
-- `strings.ToUpper` (Text), and its normal form after trimming.
use Prim.Native.String.{[], ◌∷◌}
use taifa_exchange.Base.{
  ℕ, ◌+◌, ◌-◌, ◌<◌, ◌≤◌, zero, suc, String, Char, code, ◌≡◌, refl, ap, ap₂, ◌∙◌, sym, true, false,
  Bool, ◌&&◌, eqb, leb, arith, ltb, Bool-cases, inl, inr,
}
use taifa_exchange.Text.{
  Unicode, is_space, trim_left, keep, trim_right, trim_space, nth, ascii_upper, upper_by, to_upper,
  normal,
}
use taifa_exchange.Text.Trim.{trim_space_idem}

-- The codes of the text are m, m + 1, …
run_from : ℕ → String → Bool
run_from m [] = true
run_from m (c ∷ s) = eqb (code c) m && run_from (suc m) s

size : String → ℕ
size [] = 0
size (c ∷ s) = suc (size s)

code-nth :
    (m k : ℕ) (s : String) (c : Char) → run_from m s ≡ true → k < size s → code (nth k s c) ≡ k + m
unfolding run_from size nth
code-nth m k [] c r h = absurd (omega arith)
code-nth m zero (d ∷ s) c r h = ground arith
code-nth m (suc k) (d ∷ s) c r h = ground (arith, code-nth (suc m) k s c)

letter_table : (k : ℕ) (c : Char) → k < 26 → code (nth k "ABCDEFGHIJKLMNOPQRSTUVWXYZ" c) ≡ k + 65
unfolding run_from size
letter_table k c h = code-nth 65 k "ABCDEFGHIJKLMNOPQRSTUVWXYZ" c refl h

ascii_upper-lower : (c : Char) → 97 ≤ code c → code c ≤ 122 → code (ascii_upper c) + 32 ≡ code c
unfolding ascii_upper
ascii_upper-lower c l h = ground (arith, letter_table (code c - 97) c)

-- What is no small letter is kept.
ascii_upper-other : (c : Char) → (leb 97 (code c) && leb (code c) 122) ≡ false → ascii_upper c ≡ c
unfolding ascii_upper
ascii_upper-other c h = rw h

ascii_upper_idem : (c : Char) → ascii_upper (ascii_upper c) ≡ ascii_upper c
ascii_upper_idem c = elim (Bool-cases (leb 97 (code c) && leb (code c) 122)) [
  | inl h ↦ ascii_upper-other (ascii_upper c) (ground (arith, ascii_upper-lower c))
  | inr h ↦ ap ascii_upper (ascii_upper-other c h)
]

ascii_upper-lt : (c : Char) → code c < 128 → code (ascii_upper c) < 128
ascii_upper-lt c h = elim (Bool-cases (leb 97 (code c) && leb (code c) 122)) [
  | inl e ↦ ground (arith, ascii_upper-lower c)
  | inr e ↦ rw (ascii_upper-other c e) h
]

not_space : (c : Char) → 33 ≤ code c → code c < 128 → is_space c ≡ false
unfolding is_space
not_space c l h = ground arith

is_space-ascii_upper : (c : Char) → code c < 128 → is_space (ascii_upper c) ≡ is_space c
is_space-ascii_upper c h = elim (Bool-cases (leb 97 (code c) && leb (code c) 122)) [
  | inl e ↦
      not_space (ascii_upper c) (ground (arith, ascii_upper-lower c)) (ascii_upper-lt c h)
      ∙ sym (not_space c (ground arith) h)
  | inr e ↦ ap is_space (ascii_upper-other c e)
]

ltb_of_lt : (n : ℕ) → n < 128 → ltb n 128 ≡ true
ltb_of_lt n h = ground arith

lt_of_ltb : (n : ℕ) → ltb n 128 ≡ true → n < 128
lt_of_ltb n h = ground arith

module _ ⦃u : Unicode⦄ where
  upper_by_idem : (c : Char) → upper_by u.upper (upper_by u.upper c) ≡ upper_by u.upper c
  unfolding upper_by
  upper_by_idem c = elim (Bool-cases (ltb (code c) 128)) [
    | inl h ↦ rw h (rw (ltb_of_lt _ (ascii_upper-lt c (lt_of_ltb _ h))) (ascii_upper_idem c))
    | inr h ↦ rw h (u.upper_stable c (ground arith))
  ]

  is_space-upper_by : (c : Char) → is_space (upper_by u.upper c) ≡ is_space c
  unfolding upper_by
  is_space-upper_by c = ground (arith, is_space-ascii_upper c, u.upper_space c)

  to_upper_idem : (s : String) → to_upper (to_upper s) ≡ to_upper s
  unfolding to_upper
  to_upper_idem [] = refl
  to_upper_idem (c ∷ s) = ap₂ ◌∷◌ (upper_by_idem c) (to_upper_idem s)

  trim_left-to_upper : (s : String) → trim_left (to_upper s) ≡ to_upper (trim_left s)
  unfolding to_upper trim_left
  trim_left-to_upper [] = refl
  trim_left-to_upper (c ∷ s) = elim (Bool-cases (is_space c)) [
    | inl h ↦ rw (is_space-upper_by c, h) (trim_left-to_upper s)
    | inr h ↦ rw (is_space-upper_by c, h)
  ]

  keep-to_upper :
      (c : Char) (s : String) → keep (upper_by u.upper c) (to_upper s) ≡ to_upper (keep c s)
  unfolding to_upper keep
  keep-to_upper c [] = elim (Bool-cases (is_space c)) [
    | inl h ↦ rw (is_space-upper_by c, h)
    | inr h ↦ rw (is_space-upper_by c, h)
  ]
  keep-to_upper c (d ∷ s) = refl

  trim_right-to_upper : (s : String) → trim_right (to_upper s) ≡ to_upper (trim_right s)
  unfolding to_upper trim_right
  trim_right-to_upper [] = refl
  trim_right-to_upper (c ∷ s) =
      ap (keep (upper_by u.upper c)) (trim_right-to_upper s) ∙ keep-to_upper c (trim_right s)

  -- Trimming and raising to upper case can be done in either order.
  pub trim_space-to_upper : (s : String) → trim_space (to_upper s) ≡ to_upper (trim_space s)
  unfolding trim_space
  trim_space-to_upper s = ap trim_right (trim_left-to_upper s) ∙ trim_right-to_upper (trim_left s)

  pub trim_space-normal : (s : String) → trim_space (normal s) ≡ normal s
  unfolding normal
  trim_space-normal s = trim_space-to_upper (trim_space s) ∙ ap to_upper (trim_space_idem s)

  pub normal_idem : (s : String) → normal (normal s) ≡ normal s
  unfolding normal
  normal_idem s = ap to_upper (trim_space-normal s) ∙ to_upper_idem (trim_space s)

  pub normal-trim_space : (s : String) → normal (trim_space s) ≡ normal s
  unfolding normal
  normal-trim_space s = ap to_upper (trim_space_idem s)

  nil_of_to_upper-nil : (s : String) → to_upper s ≡ "" → s ≡ ""
  unfolding to_upper
  nil_of_to_upper-nil [] h = refl
  nil_of_to_upper-nil (c ∷ s) h = cc

  -- A text is blank in its normal form exactly when it is blank.
  pub trim_space-nil_of_normal-nil : (s : String) → normal s ≡ "" → trim_space s ≡ ""
  unfolding normal
  trim_space-nil_of_normal-nil s h = nil_of_to_upper-nil (trim_space s) h
