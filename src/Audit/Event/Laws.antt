-- ===== src/Audit/Event/Laws.antt =====
-- About internal/audit/event.go, WithDefaults.
use taifa_exchange.Base.{
  Bool-cases, Option-cases, String, ℕ, ◌≡◌, ◌==◌, eqb, false, inl, inr, refl, if◌then◌else◌,
}
use taifa_exchange.Audit.Event.{Event, source_taifa_exchange, with_defaults}
use taifa_exchange.Ids.{Draw, new_audit_event_id}
use taifa_exchange.Ids.Laws.{event_id_not_empty}
use taifa_exchange.Text.{Unicode}

-- A default that is used once is not used again.
filled_twice :
    (x y z : String)
    → (y == "") ≡ false
    → (if (if x == "" then y else x) == "" then z else (if x == "" then y else x))
      ≡ (if x == "" then y else x)
filled_twice x y z h = elim (Bool-cases (x == "")) [
  | inl e ↦ rw e rw h refl
  | inr e ↦ rw e rw e refl
]

filled_number :
    (x y z : ℕ)
    → eqb y 0 ≡ false
    → (if eqb (if eqb x 0 then y else x) 0 then z else (if eqb x 0 then y else x))
      ≡ (if eqb x 0 then y else x)
filled_number x y z h = elim (Bool-cases (eqb x 0)) [
  | inl e ↦ rw e rw h refl
  | inr e ↦ rw e rw e refl
]

module _ ⦃u : Unicode⦄ where
  -- WithDefaults changes nothing of an event that it has filled in, at whatever later time and with
  -- whatever later random bytes, where the first clock reading is not Go's zero time.
  pub with_defaults_idem :
      (d later : Draw) (e : Event)
      → eqb d.now 0 ≡ false
      → with_defaults later (with_defaults d e) ≡ with_defaults d e
  unfolding with_defaults
  with_defaults_idem d later e now = elim (Option-cases e.payload) [
    | inl h ↦
        rw h rw
          (filled_twice e.id (new_audit_event_id d) (new_audit_event_id later)
            (event_id_not_empty d))
          rw (filled_twice e.source_system source_taifa_exchange source_taifa_exchange refl) rw
          (filled_number e.created_at d.now later.now now) refl
    | inr (p, h) ↦
        rw h rw
          (filled_twice e.id (new_audit_event_id d) (new_audit_event_id later)
            (event_id_not_empty d))
          rw (filled_twice e.source_system source_taifa_exchange source_taifa_exchange refl) rw
          (filled_number e.created_at d.now later.now now) refl
  ]
