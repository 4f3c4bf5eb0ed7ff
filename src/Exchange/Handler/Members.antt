-- ===== src/Exchange/Handler/Members.antt =====
-- About internal/platform/httpserver/json.go, DecodeJSON: one member of an object that is decoded into
-- AuthorizeRequest of internal/exchange/dto.go.
use taifa_exchange.Base.{Option, String, inl, inr, none, refl, some, ◌≡◌, ◌⊎◌, if◌then◌else◌}
use taifa_exchange.Exchange.Model.{AuthorizeRequest}
use taifa_exchange.Json.{Fields, Json, arr, bool, decode_text, end, field, null, number, obj, str}
use taifa_exchange.Outcome.{plain, Error, err, ok}
use taifa_exchange.Text.Fields.{equal_fold}
use taifa_exchange.Exchange.Handler.{decode_member}
use taifa_exchange.Exchange.Handler.Names.{IsField, Tests-cases, no-IsField}

-- The text of a value, if it is one.
abbrev pub text_of : Json → Option String
text_of (str s) = some s
text_of _ = none

-- A text, or null.
abbrev pub IsTextOrNull : Json → Type 0
IsTextOrNull (str s) = Unit
IsTextOrNull null = Unit
IsTextOrNull _ = ⊥

abbrev pub or_old : String → Option String → String
or_old old none = old
or_old old (some s) = s

-- The text that the last member with the name holds, whatever its letter case; a null is passed over.
abbrev pub last_text : String → Fields → Option String
last_text key end = none
last_text key (field name value rest) = elim (last_text key rest) [
  | some s ↦ some s
  | none ↦ if equal_fold name key then text_of value else none
]

-- The request, changed by the last text for each of its fields.
abbrev pub updated : AuthorizeRequest → Fields → AuthorizeRequest
updated q members = record {
  organization_id = or_old q.organization_id (last_text "organization_id" members);
  target_system = or_old q.target_system (last_text "target_system" members);
  route = or_old q.route (last_text "route" members);
  method = or_old q.method (last_text "method" members);
  operation = or_old q.operation (last_text "operation" members);
}

decode_text_cases :
    (value : Json)
    → (IsTextOrNull value
        × ((old : String) → decode_text old value ≡ ok (or_old old (text_of value))))
      ⊎ ((¬ IsTextOrNull value) × (e : Error) × ((old : String) → decode_text old value ≡ err e))
decode_text_cases null = inl (tt, λ old. refl)
decode_text_cases (str s) = inl (tt, λ old. refl)
decode_text_cases (bool b) = inr (λ h. h, _, λ old. refl)
decode_text_cases (number n) = inr (λ h. h, _, λ old. refl)
decode_text_cases (arr items) = inr (λ h. h, _, λ old. refl)
decode_text_cases (obj members) = inr (λ h. h, _, λ old. refl)

-- A member is taken, and its text put into the field that it names, exactly if it names a field and
-- holds a text or null.
abbrev pub Taken : AuthorizeRequest → String → Json → Type 0
Taken q name value =
    (IsField name
      × IsTextOrNull value
      × (decode_member q name value ≡ ok (updated q (field name value end))))
    ⊎ ((¬ (IsField name × IsTextOrNull value)) × (e : Error) × (decode_member q name value ≡ err e))

module _ (q : AuthorizeRequest) (name : String) (value : Json) where
  pub decode_member-Taken : Taken q name value
  unfolding decode_member
  decode_member-Taken = elim (Tests-cases name) [
    | inl t ↦ elim (decode_text_cases value) [
      | inl (fit, came) ↦ inl (
        inl t.organization_id,
        fit,
        rw t.organization_id rw t.target_system rw t.route rw t.method rw t.operation rw
            (came q.organization_id) refl,
      )
      | inr (unfit, e, came) ↦
          inr (λ h. unfit h.1, e, rw t.organization_id rw (came q.organization_id) refl)
    ]
    | inr (inl t) ↦ elim (decode_text_cases value) [
      | inl (fit, came) ↦ inl (
        inr (inl t.target_system),
        fit,
        rw t.organization_id rw t.target_system rw t.route rw t.method rw t.operation rw
            (came q.target_system) refl,
      )
      | inr (unfit, e, came) ↦ inr (
        λ h. unfit h.1,
        e,
        rw t.organization_id rw t.target_system rw (came q.target_system) refl,
      )
    ]
    | inr (inr (inl t)) ↦ elim (decode_text_cases value) [
      | inl (fit, came) ↦ inl (
        inr (inr (inl t.route)),
        fit,
        rw t.organization_id rw t.target_system rw t.route rw t.method rw t.operation rw
            (came q.route) refl,
      )
      | inr (unfit, e, came) ↦ inr (
        λ h. unfit h.1,
        e,
        rw t.organization_id rw t.target_system rw t.route rw (came q.route) refl,
      )
    ]
    | inr (inr (inr (inl t))) ↦ elim (decode_text_cases value) [
      | inl (fit, came) ↦ inl (
        inr (inr (inr (inl t.method))),
        fit,
        rw t.organization_id rw t.target_system rw t.route rw t.method rw t.operation rw
            (came q.method) refl,
      )
      | inr (unfit, e, came) ↦ inr (
        λ h. unfit h.1,
        e,
        rw t.organization_id rw t.target_system rw t.route rw t.method rw (came q.method) refl,
      )
    ]
    | inr (inr (inr (inr (inl t)))) ↦ elim (decode_text_cases value) [
      | inl (fit, came) ↦ inl (
        inr (inr (inr (inr t.operation))),
        fit,
        rw t.organization_id rw t.target_system rw t.route rw t.method rw t.operation rw
            (came q.operation) refl,
      )
      | inr (unfit, e, came) ↦ inr (
        λ h. unfit h.1,
        e,
        rw t.organization_id rw t.target_system rw t.route rw t.method rw t.operation rw
            (came q.operation) refl,
      )
    ]
    | inr (inr (inr (inr (inr t)))) ↦ inr (
      λ h. no-IsField name t h.0,
      plain "json: unknown field",
      rw t.organization_id rw t.target_system rw t.route rw t.method rw t.operation refl,
    )
  ]
