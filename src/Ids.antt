-- ===== src/Ids.antt =====
-- internal/platform/ids/ids.go. What one call reads from its surroundings is a `Draw`.
-- The text of a time in the layout 20060102150405 and the random bytes are part of it.
pub mod Laws
use Prim.Native.String.{◌++◌ as ◌⋯◌}
use Prim.Native.Char.{nul}
use taifa_exchange.Text.{nth, Unicode, to_upper, trim_space}
use taifa_exchange.Base.{
  List, Option, String, [], if◌then◌else◌, none, some, ℕ, ◌%◌, ◌/◌, ◌==◌, ◌∷◌,
}

-- A reading of the clock and of crypto/rand. The instant 0 is Go's zero time; `random` is `none`
-- when `rand.Read` fails, and else holds eight bytes.
pub record Draw : Type 0 where
  pub now : ℕ
  pub stamp : String
  pub random : Option (List ℕ)

-- `hex.EncodeToString`
unfoldable pub hex : List ℕ → String
unfolding nth
hex [] = ""
hex (b ∷ bs) =
    String.◌∷◌ (nth (b / 16) "0123456789abcdef" nul)
      (String.◌∷◌ (nth (b % 16) "0123456789abcdef" nul) (hex bs))

-- The last part of an identifier.
abbrev suffix : Draw → String
suffix d = elim d.random [ none ↦ "fallback" | some bytes ↦ hex bytes ]

module _ ⦃u : Unicode⦄ where
  -- `ids.New`
  unfoldable pub new_id : String → Draw → String
  unfolding hex
  new_id prefix d =
      let trimmed = trim_space prefix in
      let prefix' = if trimmed == "" then "ID" else trimmed in
      to_upper prefix' ⋯ ("-" ⋯ (d.stamp ⋯ ("-" ⋯ suffix d)))

  -- `ids.NewDecisionID`, `ids.NewAuditEventID`
  unfoldable pub new_decision_id : Draw → String
  unfolding new_id
  new_decision_id = new_id "DEC"

  unfoldable pub new_audit_event_id : Draw → String
  unfolding new_id
  new_audit_event_id = new_id "EVT"

-- `ids.NewCorrelationID`
unfoldable pub new_correlation_id : Draw → String
unfolding hex
new_correlation_id d = "corr-" ⋯ (d.stamp ⋯ ("-" ⋯ suffix d))
