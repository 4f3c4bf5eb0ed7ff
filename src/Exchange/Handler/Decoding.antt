-- ===== src/Exchange/Handler/Decoding.antt =====
-- About internal/platform/httpserver/json.go, DecodeJSON, for internal/exchange/dto.go,
-- AuthorizeRequest: which bodies are decoded, and to what.
use taifa_exchange.Base.{
  Option, Option-cases, String, inl, inr, none, refl, some, ap, ◌∙◌, ◌≡◌, ◌↔◌,
}
use taifa_exchange.Exchange.Handler.{decode_json, decode_member, decode_members, empty_request}
use taifa_exchange.Exchange.Handler.Members.{
  IsTextOrNull, decode_member-Taken, last_text, or_old, updated,
}
use taifa_exchange.Exchange.Model.{AuthorizeRequest}
use taifa_exchange.Httpserver.Writer.{Request}
use taifa_exchange.Json.{Fields, Json, arr, bool, end, field, null, number, obj, str}
use taifa_exchange.Outcome.{Result, bind-ok, err, ok, wrap-ok}
use taifa_exchange.Exchange.Handler.Names.{IsField}

abbrev pub with_body : Request → Json → Request
with_body r json = record r { body = some (ok json) }

-- Every member names a field and holds a text or null.
abbrev pub AllFit : Fields → Type 0
AllFit end = Unit
AllFit (field name value rest) = (IsField name × IsTextOrNull value) × AllFit rest

-- The text of one field, behind the first member and behind the others.
or_old_last :
    (old key name : String) (value : Json) (rest : Fields)
    → or_old (or_old old (last_text key (field name value end))) (last_text key rest)
      ≡ or_old old (last_text key (field name value rest))
or_old_last old key name value rest = elim (Option-cases (last_text key rest)) [
  | inl h ↦ rw h refl
  | inr (s, h) ↦ rw h refl
]

updated_later :
    (q : AuthorizeRequest) (name : String) (value : Json) (rest : Fields)
    → updated (updated q (field name value end)) rest ≡ updated q (field name value rest)
updated_later q name value rest =
    rw (← or_old_last q.organization_id "organization_id" name value rest) rw
      (← or_old_last q.target_system "target_system" name value rest) rw
      (← or_old_last q.route "route" name value rest) rw
      (← or_old_last q.method "method" name value rest) rw
      (← or_old_last q.operation "operation" name value rest) refl

decode_members-AllFit :
    (q : AuthorizeRequest) (members : Fields)
    → AllFit members
    → decode_members q members ≡ ok (updated q members)
unfolding decode_members
decode_members-AllFit q end h = refl
decode_members-AllFit q (field name value rest) h = elim (decode_member-Taken q name value) [
  | inr (unfit, e, came) ↦ absurd (unfit h.0)
  | inl (named, fit, came) ↦ rw came (
      decode_members-AllFit (updated q (field name value end)) rest h.1
      ∙ ap ok (updated_later q name value rest))
]

AllFit-decode_members :
    (q : AuthorizeRequest) (members : Fields) (x : AuthorizeRequest)
    → decode_members q members ≡ ok x
    → AllFit members
unfolding decode_members
AllFit-decode_members q end x h = tt
AllFit-decode_members q (field name value rest) x h = elim (decode_member-Taken q name value) [
  | inr (unfit, e, came) ↦ let (y, taken, later) = bind-ok (decode_member q name value) _ x h in cc
  | inl (named, fit, came) ↦
      let (y, taken, later) = bind-ok (decode_member q name value) _ x h in
      ((named, fit), AllFit-decode_members y rest x later)
]

-- What a body holds that decodes to the request `q`.
pub data Decodes (r : Request) (q : AuthorizeRequest) : Type 0 where
  null_body : r.body ≡ some (ok null) → q ≡ empty_request → Decodes r q
  object_body :
      (members : Fields)
      → r.body ≡ some (ok (obj members))
      → AllFit members
      → q ≡ updated empty_request members
      → Decodes r q

decode_json-Decodes : (r : Request) (q : AuthorizeRequest) → Decodes r q → decode_json r ≡ ok q
unfolding decode_json
decode_json-Decodes r q (null_body h e) = rw h rw e refl
decode_json-Decodes r q (object_body members h fit e) =
    rw h rw e rw (decode_members-AllFit empty_request members fit) refl

Decodes-value :
    (r : Request) (q : AuthorizeRequest) (json : Json)
    → r.body ≡ some (ok json)
    → decode_json (with_body r json) ≡ ok q
    → Decodes r q
unfolding decode_json
Decodes-value r q null h k = null_body h cc
Decodes-value r q (obj members) h k =
    let came = wrap-ok "decode json" (decode_members empty_request members) q k in
    let fit = AllFit-decode_members empty_request members q came in
    let same = decode_members-AllFit empty_request members fit in object_body members h fit cc
Decodes-value r q (str s) h k = cc
Decodes-value r q (bool b) h k = cc
Decodes-value r q (number n) h k = cc
Decodes-value r q (arr items) h k = cc

Decodes-body :
    (r : Request) (q : AuthorizeRequest) (o : Option (Result Json))
    → r.body ≡ o
    → decode_json (record r { body = o }) ≡ ok q
    → Decodes r q
unfolding decode_json
Decodes-body r q none h k = cc
Decodes-body r q (some (err e)) h k = cc
Decodes-body r q (some (ok json)) h k = Decodes-value r q json h k

-- DecodeJSON gives a request exactly if the body is null and every field of the request is empty;
-- or it is an object of which every member has the name of a field, in any letter case, and a text
-- or null as its value, and each field of the request has the text of the last member with its name
-- that is no null, and is empty where there is none.
pub decode_json-Decodes_iff :
    (r : Request) (q : AuthorizeRequest) → (decode_json r ≡ ok q) ↔ Decodes r q
decode_json-Decodes_iff r q = (Decodes-body r q r.body refl, decode_json-Decodes r q)
