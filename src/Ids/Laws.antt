-- ===== src/Ids/Laws.antt =====
-- About internal/platform/ids/ids.go, New.
use Prim.Native.Char.{nul}
use taifa_exchange.Base.{
  All, Char, List, String, [], ◌%◌, ◌-◌, ◌/◌, ◌<◌, ◌∷◌, ◌≡◌, ◌∙◌, ap, ap₂, arith, code,
  if◌then◌else◌, leb, refl, sym, ℕ, suc, zero, false,
}
use taifa_exchange.Ids.{Draw, hex, new_id, new_audit_event_id}
use Prim.Native.String.{◌++◌ as ◌⋯◌}
use text.Mathlib.TextLemmas.{nil-append, cons-append}
use taifa_exchange.Base.{some, ◌==◌}
use taifa_exchange.Text.{nth, Unicode, to_upper, trim_space, ascii_upper, is_space, upper_by}
use taifa_exchange.Text.Fields.{cons-append-not_empty}

abbrev digits : String
digits = "0123456789abcdef"

-- The value of a digit.
abbrev value : Char → ℕ
value c = if leb (code c) 57 then code c - 48 else code c - 87

value_of_digit : (n : ℕ) → n < 16 → value (nth n digits nul) ≡ n
unfolding nth
value_of_digit zero h = refl
value_of_digit (suc zero) h = refl
value_of_digit (suc (suc zero)) h = refl
value_of_digit (suc (suc (suc zero))) h = refl
value_of_digit (suc (suc (suc (suc zero)))) h = refl
value_of_digit (suc (suc (suc (suc (suc zero))))) h = refl
value_of_digit (suc (suc (suc (suc (suc (suc zero)))))) h = refl
value_of_digit (suc (suc (suc (suc (suc (suc (suc zero))))))) h = refl
value_of_digit (suc (suc (suc (suc (suc (suc (suc (suc zero)))))))) h = refl
value_of_digit (suc (suc (suc (suc (suc (suc (suc (suc (suc zero))))))))) h = refl
value_of_digit (suc (suc (suc (suc (suc (suc (suc (suc (suc (suc zero)))))))))) h = refl
value_of_digit (suc (suc (suc (suc (suc (suc (suc (suc (suc (suc (suc zero))))))))))) h = refl
value_of_digit (suc (suc (suc (suc (suc (suc (suc (suc (suc (suc (suc (suc zero)))))))))))) h = refl
value_of_digit (suc (suc (suc (suc (suc (suc (suc (suc (suc (suc (suc (suc (suc zero)))))))))))))
      h =
    refl
value_of_digit
      (suc (suc (suc (suc (suc (suc (suc (suc (suc (suc (suc (suc (suc (suc zero)))))))))))))) h =
    refl
value_of_digit
      (suc (suc (suc (suc (suc (suc (suc (suc (suc (suc (suc (suc (suc (suc (suc zero)))))))))))))))
      h =
    refl
value_of_digit
      (suc
        (suc (suc (suc (suc (suc (suc (suc (suc (suc (suc (suc (suc (suc (suc (suc n))))))))))))))))
      h =
    absurd (ground arith)

-- A byte is determined by its two digits.
byte_of_digits :
    (b c : ℕ)
    → b < 256
    → c < 256
    → nth (b / 16) digits nul ≡ nth (c / 16) digits nul
    → nth (b % 16) digits nul ≡ nth (c % 16) digits nul
    → b ≡ c
byte_of_digits b c hb hc high low =
    let b_high : b / 16 < 16 = omega arith in
    let c_high : c / 16 < 16 = omega arith in
    let b_low : b % 16 < 16 = omega arith in
    let c_low : c % 16 < 16 = omega arith in
    let same_high : b / 16 ≡ c / 16 =
      sym (value_of_digit _ b_high) ∙ ap value high ∙ value_of_digit _ c_high in
    let same_low : b % 16 ≡ c % 16 =
      sym (value_of_digit _ b_low) ∙ ap value low ∙ value_of_digit _ c_low in
    omega arith

pub hex_injective :
    (bs cs : List ℕ) → All (λ b. b < 256) bs → All (λ c. c < 256) cs → hex bs ≡ hex cs → bs ≡ cs
unfolding hex
hex_injective [] [] hb hc h = refl
hex_injective [] (c ∷ cs) hb hc h = cc
hex_injective (b ∷ bs) [] hb hc h = cc
hex_injective (b ∷ bs) (c ∷ cs) hb hc h =
    let high : nth (b / 16) digits nul ≡ nth (c / 16) digits nul = cc in
    let low : nth (b % 16) digits nul ≡ nth (c % 16) digits nul = cc in
    let rest : hex bs ≡ hex cs = cc in
    let first : b ≡ c = byte_of_digits b c hb.0 hc.0 high low in
    ap₂ (λ x xs. x ∷ xs) first (hex_injective bs cs hb.1 hc.1 rest)

-- The first part of an identifier.
abbrev name_of : String → String
name_of prefix = if trim_space prefix == "" then "ID" else trim_space prefix

append_cancel : (a b c : String) → a ⋯ b ≡ a ⋯ c → b ≡ c
append_cancel String.[] b c h = sym (nil-append b) ∙ h ∙ nil-append c
append_cancel (String.◌∷◌ d a) b c h =
    let same : String.◌∷◌ d (a ⋯ b) ≡ String.◌∷◌ d (a ⋯ c) =
      sym (cons-append d a b) ∙ h ∙ cons-append d a c in
    let rest : a ⋯ b ≡ a ⋯ c = cc in append_cancel a b c rest

module _ ⦃u : Unicode⦄ where
  -- An identifier for a stamp and random bytes.
  abbrev written : String → String → List ℕ → String
  written prefix stamp bs = to_upper (name_of prefix) ⋯ ("-" ⋯ (stamp ⋯ ("-" ⋯ hex bs)))

  new_id-written :
      (prefix : String) (d : Draw) (bs : List ℕ)
      → d.random ≡ some bs
      → new_id prefix d ≡ written prefix d.stamp bs
  unfolding new_id
  new_id-written prefix d bs h = rw h refl

  -- Two identifiers with the same prefix and the same time stamp are equal only if their random
  -- bytes are, where the random source gave bytes to both.
  pub new_id_injective :
      (prefix : String) (d e : Draw) (bs cs : List ℕ)
      → d.random ≡ some bs
      → e.random ≡ some cs
      → All (λ b. b < 256) bs
      → All (λ c. c < 256) cs
      → d.stamp ≡ e.stamp
      → new_id prefix d ≡ new_id prefix e
      → bs ≡ cs
  new_id_injective prefix d e bs cs hd he hb hc stamps h =
      let same : written prefix d.stamp bs ≡ written prefix d.stamp cs =
        sym (new_id-written prefix d bs hd)
        ∙ h
        ∙ new_id-written prefix e cs he
        ∙ ap (λ stamp. written prefix stamp cs) (sym stamps) in
      hex_injective bs cs hb hc (
        append_cancel "-" _ _
          (append_cancel d.stamp _ _ (append_cancel "-" _ _ (append_cancel _ _ _ same))))

  pub event_id_not_empty : (d : Draw) → (new_audit_event_id d == "") ≡ false
  unfolding new_audit_event_id new_id to_upper trim_space is_space upper_by ascii_upper
  event_id_not_empty d = cons-append-not_empty _ "VT" _
