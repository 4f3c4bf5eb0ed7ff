-- ===== src/Database/Reads.antt =====
-- Chains of calls that only read, as FindByRoute of internal/policy/repository.go is one.
use taifa_exchange.Database.Session.{◌>>=◌, Db, Session, call, pure, wrapping, continue}
use taifa_exchange.Outcome.{
  ◌>>=◌ as ◌>>=ᴿ◌, Error, Result, err, is_policy_not_found, ok, policy_not_found, wrap, wrapped,
}
use taifa_exchange.Base.{String, [], arith, refl, true, ◌≡◌, ap, sym, ◌∙◌, inl, inr, ◌⊎◌, subst}
use taifa_exchange.Database.Atomic.{wrapping-ok, continue-ok}
use taifa_exchange.Database.Tables.{Tables}

-- From the session `s` the chain `m` computes `f` of the tables and changes no table.
pub record Reads {ℓ} {A : Type ℓ} (m : Db A) (f : Tables → Result A) (s : Session) : Type ℓ where
  pub kept : (m s).1.tables ≡ s.tables
  pub value : (a : A) → (m s).0 ≡ ok a → f s.tables ≡ ok a
  -- The driver's errors are never taken for a missing policy.
  pub missing :
      (e : Error)
      → (m s).0 ≡ err e
      → is_policy_not_found e ≡ true
      → f s.tables ≡ err policy_not_found
  -- Where no call fails, the value comes back.
  pub sound : s.faults ≡ [] → ((m s).0 ≡ f s.tables) × ((m s).1.faults ≡ [])

wrap-err {ℓ} :
    {A : Type ℓ} (message : String) (r : Result A) (e : Error)
    → wrap message r ≡ err e
    → (e' : Error) × (r ≡ err e') × (e ≡ wrapped message e')
wrap-err message (ok a) e h = cc
wrap-err message (err e') e h = (e', refl, cc)

module _ {ℓ} {A : Type ℓ} where
  pub Reads-call :
      (f : Tables → A) (s : Session) → Reads (call (λ t. (ok (f t), t))) (λ t. ok (f t)) s
  unfolding call
  Reads-call f s = record {
    kept = ground arith;
    value = λ a h. ground arith;
    missing = λ e h k. ground arith;
    sound = λ h. (ground arith, ground arith);
  }

  pub Reads-wrapping :
      (message : String) (m : Db A) (f : Tables → A) (s : Session)
      → Reads m (λ t. ok (f t)) s
      → Reads (wrapping message m) (λ t. ok (f t)) s
  Reads-wrapping message m f s r = record {
    kept = r.kept;
    value = λ a h. r.value a (wrapping-ok message m s a h);
    missing = λ e h k.
        let (e', inner, same) = wrap-err message (m s).0 e h in r.missing e' inner (rw same at k);
    sound = λ h. (rw (r.sound h).0, (r.sound h).1);
  }

  pub Reads-pure : (a : A) (s : Session) → Reads (pure a) (λ t. ok a) s
  Reads-pure a s = record {
    kept = refl;
    value = λ b h. h;
    missing = λ e h k. cc;
    sound = λ h. (refl, h);
  }

module _ {ℓ κ} {A : Type ℓ} {B : Type κ} where
  continue-err :
      (r : Result A) (k : A → Db B) (s : Session) (e : Error)
      → (continue r k s).0 ≡ err e
      → (r ≡ err e) ⊎ ((a : A) × (r ≡ ok a) × (continue r k s ≡ k a s))
  continue-err (ok a) k s e h = inr (a, refl, refl)
  continue-err (err e') k s e h = inl (cc)

  continue_tables :
      (r : Result A) (k : A → Db B) (s : Session)
      → ((a : A) → (k a s).1.tables ≡ s.tables)
      → (continue r k s).1.tables ≡ s.tables
  continue_tables (ok a) k s h = h a
  continue_tables (err e) k s h = refl

  continue_sound :
      (r f : Result A) (k : A → Db B) (g : A → Result B) (s : Session)
      → r ≡ f
      → s.faults ≡ []
      → ((a : A) → s.faults ≡ [] → ((k a s).0 ≡ g a) × ((k a s).1.faults ≡ []))
      → ((continue r k s).0 ≡ (f >>=ᴿ g)) × ((continue r k s).1.faults ≡ [])
  continue_sound (ok a) f k g s same empty h = rw (← same) (h a empty)
  continue_sound (err e) f k g s same empty h = rw (← same) (refl, empty)

module _ {ℓ κ} {A : Type ℓ} {B : Type κ} (k : A → Db B) (f : Tables → Result A)
    (g : A → Tables → Result B) where
  pub Reads-bind :
      (m : Db A) (s : Session)
      → Reads m f s
      → ((a : A) → Reads (k a) (g a) (m s).1)
      → Reads (m >>= k) (λ t. f t >>=ᴿ λ a. g a t) s
  Reads-bind m s rm rk = record {
    kept = continue_tables (m s).0 k (m s).1 (λ a. (rk a).kept) ∙ rm.kept;
    value = λ b h.
        let (a, first, run) = continue-ok (m s).0 k (m s).1 b h in
        let later = (rk a).value b (ap (λ (x : Result B × Session). x.0) (sym run) ∙ h) in
        rw (rm.value a first) (rw (← rm.kept) later);
    missing = λ e h p. elim (continue-err (m s).0 k (m s).1 e h) [
      | inl first ↦ rw (rm.missing e first p) refl
      | inr (a, first, run) ↦
          rw (rm.value a first) (
            rw (← rm.kept)
              ((rk a).missing e (ap (λ (x : Result B × Session). x.0) (sym run) ∙ h) p))
    ];
    sound = λ h.
        continue_sound (m s).0 (f s.tables) k (λ a. g a s.tables) (m s).1 (rm.sound h).0
          (rm.sound h).1
          (λ a e.
            subst (λ (t : Tables). ((k a (m s).1).0 ≡ g a t) × ((k a (m s).1).1.faults ≡ []))
              rm.kept ((rk a).sound e));
  }
