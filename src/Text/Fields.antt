-- ===== src/Text/Fields.antt =====
-- `strings.Fields`, `strings.TrimRight` of one character, and `strings.EqualFold` where the second
-- text is ASCII.
use Prim.Native.String.{◌++◌ as ◌⋯◌}
use text.Mathlib.TextLemmas.{nil-append, cons-append}
use taifa_exchange.Base.{
  ℕ, ◌+◌, ◌≡◌, refl, String, Char, code, Bool, true, false, ◌&&◌, List, [], ◌∷◌, leb, eqb,
  if◌then◌else◌, All, Bool-cases, inl, inr, test_of_ne, ◌==◌,
}
use taifa_exchange.Text.{is_space, trim_left, keep, trim_right, trim_space}

-- A finished word in front of the words behind it; an empty one is no word.
unfoldable pub flush : String → List String → List String
flush String.[] words = words
flush (String.◌∷◌ c w) words = String.◌∷◌ c w ∷ words

-- The word that the text begins with, and the words behind it.
unfoldable pub split_words : String → String × List String
split_words String.[] = (String.[], [])
split_words (String.◌∷◌ c s) =
    let (word, words) = split_words s in
    if is_space c then (String.[], flush word words) else (String.◌∷◌ c word, words)

-- `strings.Fields`
unfoldable pub fields : String → List String
unfolding split_words flush
fields s = let (word, words) = split_words s in flush word words

-- The text without the characters with code `n` at its end.
trim_code : ℕ → Char → String → String
trim_code n c String.[] = if eqb (code c) n then String.[] else String.◌∷◌ c String.[]
trim_code n c (String.◌∷◌ d s) = String.◌∷◌ c (String.◌∷◌ d s)

-- `strings.TrimRight(s, cutset)` for a cutset of the one character with code `n`.
unfoldable pub trim_right_code : ℕ → String → String
unfolding trim_code
trim_right_code n String.[] = String.[]
trim_right_code n (String.◌∷◌ c s) = trim_code n c (trim_right_code n s)

-- Case folding onto ASCII: U+017F folds with "s" and U+212A with "k" (`unicode.SimpleFold`); no
-- other rune above U+007F folds with an ASCII letter.
unfoldable pub fold_code : ℕ → ℕ
fold_code n =
    if leb b'A' n && leb n b'Z'
    then n + 32
    else if eqb n 0x17f
    then b's'
    else if eqb n 0x212a
    then b'k'
    else n

-- `strings.EqualFold(s, t)` for an ASCII text `t`.
unfoldable pub equal_fold : String → String → Bool
unfolding fold_code
equal_fold String.[] String.[] = true
equal_fold String.[] (String.◌∷◌ d t) = false
equal_fold (String.◌∷◌ c s) String.[] = false
equal_fold (String.◌∷◌ c s) (String.◌∷◌ d t) =
    eqb (fold_code (code c)) (fold_code (code d)) && equal_fold s t

-- A text with no white space in it.
abbrev pub NoSpace : String → Type 0
NoSpace String.[] = Unit
NoSpace (String.◌∷◌ c s) = (is_space c ≡ false) × NoSpace s

-- A word: not empty, and no white space in it.
abbrev pub IsWord : String → Type 0
IsWord String.[] = ⊥
IsWord (String.◌∷◌ c s) = (is_space c ≡ false) × NoSpace s

flush-IsWord : (w : String) (ws : List String) → NoSpace w → All IsWord ws → All IsWord (flush w ws)
unfolding flush
flush-IsWord String.[] ws h k = k
flush-IsWord (String.◌∷◌ c w) ws h k = (h, k)

split_words-IsWord : (s : String) → NoSpace (split_words s).0 × All IsWord (split_words s).1
unfolding split_words
split_words-IsWord String.[] = (tt, tt)
split_words-IsWord (String.◌∷◌ c s) = elim (Bool-cases (is_space c)) [
  | inl h ↦ rw h (tt, flush-IsWord _ _ (split_words-IsWord s).0 (split_words-IsWord s).1)
  | inr h ↦ rw h ((h, (split_words-IsWord s).0), (split_words-IsWord s).1)
]

-- The fields of a text are words.
pub fields-IsWord : (s : String) → All IsWord (fields s)
unfolding fields
fields-IsWord s = flush-IsWord _ _ (split_words-IsWord s).0 (split_words-IsWord s).1

split_words_word : (w : String) → NoSpace w → split_words w ≡ (w, [])
unfolding split_words
split_words_word String.[] h = refl
split_words_word (String.◌∷◌ c w) h = rw (split_words_word w h.1, h.0)

-- A word is its one field.
pub fields_word : (w : String) → IsWord w → fields w ≡ w ∷ []
unfolding fields
fields_word (String.◌∷◌ c w) h = rw (split_words_word (String.◌∷◌ c w) h)
fields_word String.[] h = absurd h

-- A word that white space separates from the rest of the text is the first of the fields.
split_words-append :
    (w : String) (c : Char) (s : String)
    → NoSpace w
    → is_space c ≡ true
    → split_words (w ⋯ (String.◌∷◌ c s)) ≡ (w, fields s)
unfolding split_words fields
split_words-append String.[] c s h k = rw nil-append (rw k)
split_words-append (String.◌∷◌ d w) c s h k =
    rw cons-append (rw (split_words-append w c s h.1 k, h.0))

pub fields-append :
    (w : String) (c : Char) (s : String)
    → IsWord w
    → is_space c ≡ true
    → fields (w ⋯ (String.◌∷◌ c s)) ≡ w ∷ fields s
unfolding fields
fields-append (String.◌∷◌ d w) c s h k = rw (split_words-append (String.◌∷◌ d w) c s h k)
fields-append String.[] c s h k = absurd h

trim_right_word : (w : String) → NoSpace w → trim_right w ≡ w
unfolding trim_right keep
trim_right_word String.[] h = refl
trim_right_word (String.◌∷◌ c String.[]) h = rw (h.0)
trim_right_word (String.◌∷◌ c (String.◌∷◌ d w)) h = rw (trim_right_word (String.◌∷◌ d w) h.1) refl

-- A word has nothing to trim.
pub trim_space_word : (w : String) → IsWord w → trim_space w ≡ w
unfolding trim_space trim_left
trim_space_word (String.◌∷◌ c w) h = rw (h.0) (trim_right_word (String.◌∷◌ c w) h)
trim_space_word String.[] h = absurd h

pub cons-append-not_empty : (c : Char) (s t : String) → (String.◌∷◌ c s ⋯ t == "") ≡ false
cons-append-not_empty c s t = rw cons-append (test_of_ne _ "" (λ e. cc))
