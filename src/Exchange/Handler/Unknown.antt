-- ===== src/Exchange/Handler/Unknown.antt =====
-- About internal/platform/httpserver/json.go, DecodeJSON, with DisallowUnknownFields, and what
-- internal/exchange/handler.go answers.
use taifa_exchange.Base.{String, ◌≡◌, ◌⊎◌, false, inl, inr, subst, Option, none, refl, some, ap}
use taifa_exchange.Exchange.Handler.{
  decode_member, decode_members, Handler, decode_json, empty_request, handle,
}
use taifa_exchange.Exchange.Model.{AuthorizeRequest}
use taifa_exchange.Json.{Fields, Json, end, field, obj}
use taifa_exchange.Outcome.{Result, Result-cases, err, ok, Error, wrap}
use taifa_exchange.Text.Fields.{equal_fold}
use taifa_exchange.Database.Session.{Session}
use taifa_exchange.Exchange.Handler.Laws.{status_of}
use taifa_exchange.Exchange.Service.{Surroundings}
use taifa_exchange.Httpserver.Writer.{
  Context, Request, Writer, error_code_invalid_json, write_error,
}
use taifa_exchange.Text.{Unicode}
use taifa_exchange.Httpserver.Writer.Laws.{write_json-sent}

-- The name is that of no field of AuthorizeRequest, in any letter case.
abbrev pub IsUnknown : String → Type 0
IsUnknown name =
    (equal_fold name "organization_id" ≡ false)
    × (equal_fold name "target_system" ≡ false)
    × (equal_fold name "route" ≡ false)
    × (equal_fold name "method" ≡ false)
    × (equal_fold name "operation" ≡ false)

-- Some member of the object has such a name.
abbrev pub HasUnknown : Fields → Type 0
HasUnknown end = ⊥
HasUnknown (field name value rest) = IsUnknown name ⊎ HasUnknown rest

-- A result that is an error.
abbrev IsErr : Result AuthorizeRequest → Type 0
IsErr (ok q) = ⊥
IsErr (err e) = Unit

decode_member-IsErr :
    (q : AuthorizeRequest) (name : String) (value : Json)
    → IsUnknown name
    → IsErr (decode_member q name value)
unfolding decode_member
decode_member-IsErr q name value (a, b, c, d, e) = rw (a, b, c, d, e) tt

decode_members-IsErr :
    (q : AuthorizeRequest) (members : Fields)
    → HasUnknown members
    → IsErr (decode_members q members)
unfolding decode_members
decode_members-IsErr q end h = h
decode_members-IsErr q (field name value rest) h =
    elim (Result-cases (decode_member q name value)) [
      | inl (x, k) ↦ rw k tt
      | inr (q', k) ↦ elim h [
        | inl unknown ↦ absurd (subst IsErr k (decode_member-IsErr q name value unknown))
        | inr later ↦ rw k (decode_members-IsErr q' rest later)
      ]
    ]

IsErr-err : (x : Result AuthorizeRequest) → IsErr x → (e : Error) × (x ≡ err e)
IsErr-err (ok q) h = absurd h
IsErr-err (err e) h = (e, refl)

wrap-IsErr : (message : String) (x : Result AuthorizeRequest) → IsErr x → IsErr (wrap message x)
wrap-IsErr message (ok q) h = h
wrap-IsErr message (err e) h = tt

decode_json-IsErr :
    (r : Request) (members : Fields)
    → r.body ≡ some (ok (obj members))
    → HasUnknown members
    → IsErr (decode_json r)
unfolding decode_json
decode_json-IsErr r members h unknown =
    rw h (wrap-IsErr "decode json" _ (decode_members-IsErr empty_request members unknown))

module _ ⦃u : Unicode⦄ (env : Surroundings) (handler : Option Handler) (r : Request)
    (context : Context) (w : Writer) (s : Session) where
  handle_refused :
      (e : Error)
      → decode_json r ≡ err e
      → handle env handler r context w s
        ≡ (write_error context 400 error_code_invalid_json "Request body must be valid JSON." w, s)
  unfolding handle
  handle_refused e h = rw (handle, h) refl

  -- For a response writer with nothing sent, a request whose body is an object with a member that
  -- is no field of the request, in any letter case, is answered with the status 400, and nothing is
  -- read from the database or written to it.
  pub handle_unknown_field :
      (members : Fields)
      → r.body ≡ some (ok (obj members))
      → HasUnknown members
      → w.sent ≡ none
      → (status_of (handle env handler r context w s).0.sent ≡ 400)
        × ((handle env handler r context w s).1 ≡ s)
  unfolding write_error
  handle_unknown_field members h unknown new =
      let (e, failed) = IsErr-err (decode_json r) (decode_json-IsErr r members h unknown) in
      rw (handle_refused e failed) (ap status_of (write_json-sent 400 _ w new), refl)
