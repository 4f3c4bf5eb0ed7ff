-- ===== src/Apart.antt =====
-- Lists whose elements a test tells apart.
use taifa_exchange.Base.{
  Bool, In, List, [], ◌&&◌, ◌++◌, ◌∷◌, ◌≡◌, ap, arith, false, inl, inr, map, not, subst, sym, true,
  ◌∙◌,
}

module _ {A : Type 0} (same : A → A → Bool) where
  -- The test holds of `x` and no element, in either order.
  unfoldable pub none_same : A → List A → Bool
  none_same x [] = true
  none_same x (y ∷ ys) = not (same x y) && not (same y x) && none_same x ys

  -- It holds of no two elements at different places.
  unfoldable pub apart : List A → Bool
  apart [] = true
  apart (x ∷ xs) = none_same x xs && apart xs

  none_same-In :
      (x y : A) (ys : List A)
      → none_same x ys ≡ true
      → In y ys
      → (same x y ≡ false) × (same y x ≡ false)
  unfolding none_same
  none_same-In x y [] h i = absurd i
  none_same-In x y (z ∷ zs) h (inl e) =
      subst (λ (w : A). (same x w ≡ false) × (same w x ≡ false)) e (ground arith, ground arith)
  none_same-In x y (z ∷ zs) h (inr i) = none_same-In x y zs (ground arith) i

  pub apart_unique :
      (xs : List A) (x y : A) → apart xs ≡ true → In x xs → In y xs → same x y ≡ true → x ≡ y
  unfolding apart
  apart_unique [] x y h i j s = absurd i
  apart_unique (z ∷ zs) x y h (inl d) (inl e) s = sym d ∙ e
  apart_unique (z ∷ zs) x y h (inl d) (inr j) s =
      let off = (none_same-In z y zs (ground arith) j).0 in
      let on = subst (λ (w : A). same w y ≡ true) (sym d) s in cc
  apart_unique (z ∷ zs) x y h (inr i) (inl e) s =
      let off = (none_same-In z x zs (ground arith) i).1 in
      let on = subst (λ (w : A). same x w ≡ true) (sym e) s in cc
  apart_unique (z ∷ zs) x y h (inr i) (inr j) s = apart_unique zs x y (ground arith) i j s

pub In-map : {A B : Type 0} (f : A → B) (xs : List A) (x : A) → In x xs → In (f x) (map f xs)
In-map f [] x i = absurd i
In-map f (y ∷ ys) x (inl e) = inl (ap f e)
In-map f (y ∷ ys) x (inr i) = inr (In-map f ys x i)

pub In-append_left : {A : Type 0} (xs ys : List A) (x : A) → In x xs → In x (xs ++ ys)
In-append_left [] ys x i = absurd i
In-append_left (z ∷ xs) ys x (inl e) = inl e
In-append_left (z ∷ xs) ys x (inr i) = inr (In-append_left xs ys x i)
