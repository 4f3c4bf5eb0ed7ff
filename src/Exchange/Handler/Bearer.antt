-- ===== src/Exchange/Handler/Bearer.antt =====
-- About internal/exchange/handler.go, bearerTokenFromRequest.
use taifa_exchange.Base.{
  Bool-cases, List, String, All, [], false, inl, inr, refl, true, ◌≡◌, ◌≢◌, ◌⊎◌, ◌∷◌, ◌==◌, ◌↔◌,
  ◌∙◌, sym, subst, test_of_ne,
}
use taifa_exchange.Exchange.Handler.{bearer_of, bearer_token_from_request}
use taifa_exchange.Httpserver.Writer.{Request}
use taifa_exchange.Text.{trim_space}
use taifa_exchange.Text.Fields.{
  IsWord, equal_fold, fields, fields-IsWord, trim_space_word, flush, split_words,
}

-- What the header has to be: two words, the first of which is the scheme.
pub record Bears (header token : String) : Type 0 where
  pub scheme : String
  pub two : fields (trim_space header) ≡ scheme ∷ token ∷ []
  pub is_bearer : equal_fold scheme "Bearer" ≡ true

bearer_of-IsWord :
    (ws : List String)
    → All IsWord ws
    → (bearer_of ws ≡ "")
      ⊎ ((scheme : String) × (ws ≡ scheme ∷ bearer_of ws ∷ [])
          × (equal_fold scheme "Bearer" ≡ true)
          × IsWord (bearer_of ws))
bearer_of-IsWord [] h = inl refl
bearer_of-IsWord (a ∷ []) h = inl refl
bearer_of-IsWord (a ∷ b ∷ c ∷ ws) h = inl refl
bearer_of-IsWord (a ∷ b ∷ []) h = elim (Bool-cases (equal_fold a "Bearer")) [
  | inl e ↦ rw e rw (trim_space_word b h.1.0) (inr (a, refl, e, h.1.0))
  | inr e ↦ rw e (inl refl)
]

-- The token is empty, or it is the second of the two words of the header.
pub bearer_token_cases :
    (r : Request)
    → (bearer_token_from_request r ≡ "")
      ⊎ (Bears r.authorization (bearer_token_from_request r) × IsWord (bearer_token_from_request r))
unfolding bearer_token_from_request
bearer_token_cases r = elim (Bool-cases (trim_space r.authorization == "")) [
  | inl e ↦ rw e (inl refl)
  | inr e ↦ rw e (elim (bearer_of-IsWord _ (fields-IsWord (trim_space r.authorization))) [
    | inl k ↦ inl k
    | inr (scheme, two, ok_scheme, word) ↦
        inr (record { scheme = scheme; two = two; is_bearer = ok_scheme }, word)
  ])
]

bearer_of_Bears :
    (ws : List String) (scheme token : String)
    → ws ≡ scheme ∷ token ∷ []
    → equal_fold scheme "Bearer" ≡ true
    → IsWord token
    → bearer_of ws ≡ token
bearer_of_Bears ws scheme token e b w = rw e rw b (trim_space_word token w)

not_empty_of_fields :
    (header scheme token : String) → fields header ≡ scheme ∷ token ∷ [] → (header == "") ≡ false
unfolding fields split_words flush
not_empty_of_fields String.[] scheme token h = cc
not_empty_of_fields (String.◌∷◌ c s) scheme token h = test_of_ne _ "" (λ e. cc)

-- A header of two words with the scheme gives its token.
bearer_token-ok :
    (r : Request) (token : String)
    → Bears r.authorization token
    → bearer_token_from_request r ≡ token
unfolding bearer_token_from_request
bearer_token-ok r token bears = rw (not_empty_of_fields _ bears.scheme token bears.two) (
    bearer_of_Bears _ bears.scheme token bears.two bears.is_bearer
      (subst (All IsWord) bears.two (fields-IsWord _)).1.0)

-- A token that is not empty is read from a request exactly if the Authorization header has two
-- words, the first is Bearer in any letter case, and the second is the token.
pub bearer_token_iff :
    (r : Request) (token : String)
    → token ≢ ""
    → (bearer_token_from_request r ≡ token) ↔ Bears r.authorization token
bearer_token_iff r token n = (
  λ e. elim (bearer_token_cases r) [
    | inl none_there ↦ absurd (n (sym e ∙ none_there))
    | inr (bears, word) ↦ subst (Bears r.authorization) e bears
  ],
  bearer_token-ok r token,
)
