-- ===== src/Outcome.antt =====
-- Go's `error` values and the pairs `(value, error)` that fallible functions return.
use taifa_exchange.Base.{String, Bool, true, false, ℕ, inl, inr, refl, ◌≡◌, ◌⊎◌}

-- An error of the program, of the driver, or one that wraps another (`fmt.Errorf` with `%w`).
pub data Error : Type 0 where
  plain : String → Error
  wrapped : String → Error → Error
  -- `fmt.Errorf("%s: status=%d …")`: the message, the status code and what follows it.
  status_error : String → ℕ → String → Error
  -- `policy.ErrPolicyNotFound`
  policy_not_found : Error
  -- `pgx.ErrNoRows`
  no_rows : Error
  -- An error of the network, the driver or the database server.
  external : String → Error

-- `errors.Is(err, policy.ErrPolicyNotFound)`
abbrev pub is_policy_not_found : Error → Bool
is_policy_not_found (plain s) = false
is_policy_not_found (status_error s n d) = false
is_policy_not_found (wrapped s e) = is_policy_not_found e
is_policy_not_found policy_not_found = true
is_policy_not_found no_rows = false
is_policy_not_found (external s) = false

-- `errors.Is(err, pgx.ErrNoRows)`
abbrev pub is_no_rows : Error → Bool
is_no_rows (plain s) = false
is_no_rows (status_error s n d) = false
is_no_rows (wrapped s e) = is_no_rows e
is_no_rows policy_not_found = false
is_no_rows no_rows = true
is_no_rows (external s) = false

pub data Result {ℓ} (A : Type ℓ) : Type ℓ where
  ok : A → Result A
  err : Error → Result A

infixl 5 ◌>>=◌ ◌>>◌
abbrev pub ◌>>=◌ {ℓ κ} : {A : Type ℓ} {B : Type κ} → Result A → (A → Result B) → Result B
ok a >>= f = f a
err e >>= f = err e

abbrev pub ◌>>◌ {ℓ κ} : {A : Type ℓ} {B : Type κ} → Result A → Result B → Result B
m >> k = m >>= λ _. k

-- The error of a step, wrapped: `return fmt.Errorf("…: %w", err)`.
abbrev pub wrap {ℓ} : {A : Type ℓ} → String → Result A → Result A
wrap s (ok a) = ok a
wrap s (err e) = err (wrapped s e)

-- To split on a computed result and keep the equation.
pub Result-cases {ℓ} :
    {A : Type ℓ} (r : Result A) → ((e : Error) × (r ≡ err e)) ⊎ ((a : A) × (r ≡ ok a))
Result-cases (err e) = inl (e, refl)
Result-cases (ok a) = inr (a, refl)

pub bind-ok {ℓ κ} :
    {A : Type ℓ} {B : Type κ} (m : Result A) (f : A → Result B) (b : B)
    → m >>= f ≡ ok b
    → (a : A) × (m ≡ ok a) × (f a ≡ ok b)
bind-ok (ok a) f b h = (a, refl, h)
bind-ok (err e) f b h = cc

pub wrap-ok {ℓ} : {A : Type ℓ} (s : String) (m : Result A) (a : A) → wrap s m ≡ ok a → m ≡ ok a
wrap-ok s (ok a) b h = h
wrap-ok s (err e) b h = cc
