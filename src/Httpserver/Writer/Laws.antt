-- ===== src/Httpserver/Writer/Laws.antt =====
-- About internal/platform/httpserver/json.go, WriteJSON: what is sent and what the recorder holds.
use taifa_exchange.Base.{Bool-cases, inl, inr, none, some, refl, ℕ, ◌≡◌, if◌then◌else◌, ◌∷◌}
use taifa_exchange.Httpserver.Writer.{
  Payload, Writer, goes_through, http_error, set_header, write, write_header, write_json,
}

module _ (status : ℕ) (payload : Payload) (w : Writer) where
  -- Whether the body goes through or not, the first status and its headers are what is sent.
  pub write_json-sent :
      w.sent ≡ none
      → (write_json status payload w).sent
        ≡ some
            (record { status = status; headers = ("Content-Type", "application/json") ∷ w.headers })
  unfolding write_json write http_error write_header set_header
  write_json-sent new = elim (Bool-cases (goes_through w.writes)) [
    | inl yes_through ↦ rw yes_through rw new refl
    | inr lost ↦ rw lost rw new refl
  ]

  -- The recorder holds that status, or 500 where the write of the body failed.
  pub write_json-recorded :
      (write_json status payload w).recorded ≡ (if goes_through w.writes then status else 500)
  unfolding write_json write http_error write_header set_header
  write_json-recorded = elim (Bool-cases (goes_through w.writes)) [
    | inl yes_through ↦ rw yes_through refl
    | inr lost ↦ rw lost refl
  ]
