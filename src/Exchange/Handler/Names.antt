-- ===== src/Exchange/Handler/Names.antt =====
-- About internal/exchange/dto.go, AuthorizeRequest: the names of its fields, in any letter case.
use taifa_exchange.Apart.{apart}
use taifa_exchange.Base.{
  Bool, Bool-cases, String, arith, eqb, false, inl, inr, refl, true, ℕ, ◌&&◌, ◌≡◌, ◌⊎◌,
}
use taifa_exchange.Text.Fields.{equal_fold}

-- The name is that of a field, in some letter case.
abbrev pub IsField : String → Type 0
IsField name =
    (equal_fold name "organization_id" ≡ true)
    ⊎ ((equal_fold name "target_system" ≡ true)
        ⊎ ((equal_fold name "route" ≡ true)
            ⊎ ((equal_fold name "method" ≡ true) ⊎ (equal_fold name "operation" ≡ true))))

fold_step :
    (x y z : ℕ) (p q r : Bool)
    → (eqb x y && p) ≡ true
    → (eqb x z && q) ≡ true
    → (p ≡ true → q ≡ true → r ≡ true)
    → (eqb y z && r) ≡ true
fold_step x y z p q r h k f = ground arith

-- Two names that fold onto the same text fold onto each other.
equal_fold_common :
    (s a b : String) → equal_fold s a ≡ true → equal_fold s b ≡ true → equal_fold a b ≡ true
unfolding equal_fold
equal_fold_common String.[] String.[] String.[] h k = refl
equal_fold_common String.[] String.[] (String.◌∷◌ d b) h k = k
equal_fold_common String.[] (String.◌∷◌ c a) b h k = cc
equal_fold_common (String.◌∷◌ x s) String.[] b h k = cc
equal_fold_common (String.◌∷◌ x s) (String.◌∷◌ c a) String.[] h k = k
equal_fold_common (String.◌∷◌ x s) (String.◌∷◌ c a) (String.◌∷◌ d b) h k =
    fold_step _ _ _ _ _ _ h k (equal_fold_common s a b)

-- A name is that of one field only.
other_field :
    (name a b : String)
    → equal_fold a b ≡ false
    → equal_fold name a ≡ true
    → equal_fold name b ≡ false
other_field name a b apart h = elim (Bool-cases (equal_fold name b)) [
  | inr e ↦ e
  | inl e ↦ (let same = equal_fold_common name a b h e in cc)
]

-- The five tests of a name.
pub record Tests (name : String) (a b c d e : Bool) : Type 0 where
  pub organization_id : equal_fold name "organization_id" ≡ a
  pub target_system : equal_fold name "target_system" ≡ b
  pub route : equal_fold name "route" ≡ c
  pub method : equal_fold name "method" ≡ d
  pub operation : equal_fold name "operation" ≡ e

pub Tests-cases :
    (name : String)
    → Tests name true false false false false
      ⊎ (Tests name false true false false false
          ⊎ (Tests name false false true false false
              ⊎ (Tests name false false false true false
                  ⊎ (Tests name false false false false true
                      ⊎ Tests name false false false false false))))
unfolding equal_fold
Tests-cases name = ground (
  arith,
  other_field name "organization_id" "target_system" refl,
  other_field name "organization_id" "route" refl,
  other_field name "organization_id" "method" refl,
  other_field name "organization_id" "operation" refl,
  other_field name "target_system" "route" refl,
  other_field name "target_system" "method" refl,
  other_field name "target_system" "operation" refl,
  other_field name "route" "method" refl,
  other_field name "route" "operation" refl,
  other_field name "method" "operation" refl,
)

pub no-IsField : (name : String) → Tests name false false false false false → ¬ IsField name
no-IsField name t (inl h) = (let a = t.organization_id in cc)
no-IsField name t (inr (inl h)) = (let a = t.target_system in cc)
no-IsField name t (inr (inr (inl h))) = (let a = t.route in cc)
no-IsField name t (inr (inr (inr (inl h)))) = (let a = t.method in cc)
no-IsField name t (inr (inr (inr (inr h)))) = (let a = t.operation in cc)
