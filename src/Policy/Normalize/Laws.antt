-- ===== src/Policy/Normalize/Laws.antt =====
-- About internal/policy/model.go, NormalizeStringSet and NormalizeStringSlice.
use taifa_exchange.Base.{
  String, ◌≡◌, ◌≢◌, ◌↔◌, ◌⊎◌, inl, inr, ◌==◌, List, [], ◌∷◌, ◌++◌, In, arith, eq_iff, if◌then◌else◌,
  map, All, Distinct, In-append, contains_iff, sym, Bool-cases, append-nil, contains,
  Distinct-concat, append_assoc, refl, ap₂,
}
use taifa_exchange.Text.{Unicode, normal}
use taifa_exchange.Policy.Normalize.{
  set_loop, normalize_string_set, slice_loop, normalize_string_slice,
}
use taifa_exchange.Text.Case.{normal_idem}

module _ ⦃u : Unicode⦄ where
  -- `x` is not blank and is the normal form of a text in the list.
  abbrev pub IsListed : String → List String → Type 0
  IsListed x vs = (x ≢ "") × In x (map normal vs)

  set_loop_sound :
      (set vs : List String) (x : String) → In x (set_loop set vs) → In x set ⊎ IsListed x vs
  unfolding set_loop
  set_loop_sound set [] x h = inl h
  set_loop_sound set (v ∷ vs) x h = ground (
    arith,
    eq_iff (normal v) "",
    set_loop_sound (if normal v == "" then set else normal v ∷ set) vs x h,
  )

  set_loop_complete :
      (set vs : List String) (x : String) → In x set ⊎ IsListed x vs → In x (set_loop set vs)
  unfolding set_loop
  set_loop_complete set [] x h = ground arith
  set_loop_complete set (v ∷ vs) x h =
      set_loop_complete (if normal v == "" then set else normal v ∷ set) vs x
        (ground (arith, eq_iff (normal v) ""))

  -- The set holds exactly the normal forms of the values, but for the empty text.
  pub normalize_string_set_iff :
      (vs : List String) (x : String) → In x (normalize_string_set vs) ↔ IsListed x vs
  unfolding normalize_string_set
  normalize_string_set_iff vs x =
      (λ h. ground (arith, set_loop_sound [] vs x h), λ h. set_loop_complete [] vs x (inr h))

  slice_loop_sound :
      (seen out vs : List String) (x : String)
      → In x (slice_loop seen out vs)
      → In x out ⊎ IsListed x vs
  unfolding slice_loop
  slice_loop_sound seen out [] x h = inl h
  slice_loop_sound seen out (v ∷ vs) x h = ground (
    arith,
    eq_iff (normal v) "",
    slice_loop_sound seen out vs x,
    slice_loop_sound (normal v ∷ seen) (out ++ normal v ∷ []) vs x,
    In-append out (normal v) x,
  )

  slice_loop_complete :
      (seen out vs : List String) (x : String)
      → ((y : String) → In y seen → In y out)
      → In x out ⊎ IsListed x vs
      → In x (slice_loop seen out vs)
  unfolding slice_loop
  slice_loop_complete seen out [] x k h = ground arith
  slice_loop_complete seen out (v ∷ vs) x k h =
      let old : In (normal v) seen → In (normal v) out = k (normal v) in
      let added : (y : String) → In y (normal v ∷ seen) → In y (out ++ normal v ∷ []) =
        (λ y e. ground (arith, k y, In-append out (normal v) y)) in
      ground (
        arith,
        eq_iff (normal v) "",
        contains_iff seen (normal v),
        slice_loop_complete seen out vs x k,
        slice_loop_complete (normal v ∷ seen) (out ++ normal v ∷ []) vs x added,
        In-append out (normal v) x,
      )

  -- A text is in the normalised list exactly if it is the normal form of a text of the list and not
  -- empty.
  pub normalize_string_slice_iff :
      (vs : List String) (x : String) → In x (normalize_string_slice vs) ↔ IsListed x vs
  unfolding normalize_string_slice
  normalize_string_slice_iff vs x = (
    λ h. ground (arith, slice_loop_sound [] [] vs x h),
    λ h. slice_loop_complete [] [] vs x (λ y e. e) (inr h),
  )

module _ ⦃u : Unicode⦄ where
  slice_loop-Distinct :
      (seen out vs : List String)
      → ((y : String) → In y out → In y seen)
      → Distinct out
      → Distinct (slice_loop seen out vs)
  unfolding slice_loop
  slice_loop-Distinct seen out [] k d = d
  slice_loop-Distinct seen out (v ∷ vs) k d = elim (Bool-cases (normal v == "")) [
    | inl blank ↦ rw blank (slice_loop-Distinct seen out vs k d)
    | inr full ↦ rw full (elim (Bool-cases (contains seen (normal v))) [
      | inl old ↦ rw old (slice_loop-Distinct seen out vs k d)
      | inr new ↦ rw new (
          slice_loop-Distinct (normal v ∷ seen) (out ++ normal v ∷ []) vs
            (λ y e. ground (arith, In-append out (normal v) y, k y))
            (Distinct-concat out (normal v) d
              (λ e. ground (arith, contains_iff seen (normal v), k (normal v) e))))
    ])
  ]

  -- The slice holds no text twice.
  pub normalize_string_slice-Distinct : (vs : List String) → Distinct (normalize_string_slice vs)
  unfolding normalize_string_slice
  normalize_string_slice-Distinct vs = slice_loop-Distinct [] [] vs (λ y e. e) tt

  -- Every text of the list is in its normal form, and is not empty.
  abbrev pub AllNormal : List String → Type 0
  AllNormal = All (λ x. (normal x ≡ x) × (x ≢ ""))

  slice_loop_of_AllNormal :
      (seen out vs : List String)
      → AllNormal vs
      → Distinct vs
      → ((x : String) → In x vs → ¬ In x seen)
      → slice_loop seen out vs ≡ out ++ vs
  unfolding slice_loop
  slice_loop_of_AllNormal seen out [] a d k = sym (append-nil out)
  slice_loop_of_AllNormal seen out (v ∷ vs) a d k =
      let rest : slice_loop (v ∷ seen) (out ++ v ∷ []) vs ≡ (out ++ v ∷ []) ++ vs =
        slice_loop_of_AllNormal (v ∷ seen) (out ++ v ∷ []) vs a.1 d.1
          (λ x e. ground (arith, k x, d.0)) in
      ground (arith, a.0, eq_iff v "", contains_iff seen v, k v, append_assoc out (v ∷ []) vs)

  normal_of_listed : (vs : List String) (x : String) → In x (map normal vs) → normal x ≡ x
  normal_of_listed [] x h = absurd h
  normal_of_listed (v ∷ vs) x h = ground (arith, normal_idem v, normal_of_listed vs x)

  AllNormal-of_In :
      (xs : List String) → ((x : String) → In x xs → (normal x ≡ x) × (x ≢ "")) → AllNormal xs
  AllNormal-of_In [] k = tt
  AllNormal-of_In (x ∷ xs) k = (k x (inl refl), AllNormal-of_In xs (λ y h. k y (inr h)))

  -- Every text of the slice is in normal form and not empty.
  pub normalize_string_slice-AllNormal : (vs : List String) → AllNormal (normalize_string_slice vs)
  normalize_string_slice-AllNormal vs = AllNormal-of_In (normalize_string_slice vs) λ x h.
      let listed : IsListed x vs = (normalize_string_slice_iff vs x).0 h in
      (normal_of_listed vs x listed.1, listed.0)

  -- Normalising a normalised list changes neither its texts nor their order.
  pub normalize_string_slice_idem :
      (vs : List String)
      → normalize_string_slice (normalize_string_slice vs) ≡ normalize_string_slice vs
  normalize_string_slice_idem vs =
      (unfold normalize_string_slice in
        slice_loop_of_AllNormal [] [] (slice_loop [] [] vs) (normalize_string_slice-AllNormal vs)
          (normalize_string_slice-Distinct vs) (λ x h. λ e. e))

  pub map_of_AllNormal : (xs : List String) → AllNormal xs → map normal xs ≡ xs
  map_of_AllNormal [] h = refl
  map_of_AllNormal (x ∷ xs) h = ap₂ ◌∷◌ h.0.0 (map_of_AllNormal xs h.1)
