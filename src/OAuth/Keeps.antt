-- ===== src/OAuth/Keeps.antt =====
-- Which handlers change what: a property of the memory that the memory's own methods keep is kept
-- by every request.
use flowgo_server.Prelude.{
  ℕ, String, ◌≡◌, Option, none, some, if◌then◌else◌, Option-cases, Bool-cases, inl, inr, ◌==◌,
}
use flowgo_server.Prelude.Action.{
  returns, refuse, require, Preserves, >>=-Preserves, then-Preserves, refuse_if-Preserves,
  require-Preserves,
}
use flowgo_server.Store.Docs.{User}
use flowgo_server.OAuth.Memory.{
  MemoryStore, Client, RefreshToken, put_client, take_code, take_refresh, save_code, save_refresh,
}
use flowgo_server.OAuth.Server.{Services, Config, Request, unsupported_grant_type}
use flowgo_server.OAuth.Register.{RegistrationRequest, RegisterDraw, handle_register}
use flowgo_server.OAuth.Authorize.{
  AuthorizeQuery, AuthorizeError, handle_authorize_post, refuse_with, validate_authorize_params,
  new_code,
}
use flowgo_server.OAuth.Token.{
  TokenForm, TokenDraw, token_from_code, token_from_refresh, handle_token, issue_token_response,
}

module _ (env : Services) (cfg : Config) (P : MemoryStore → Type 0) where
  refuse_with-Preserves :
      (check : MemoryStore → Option AuthorizeError) → Preserves P (refuse_with env cfg check)
  unfolding refuse_with
  refuse_with-Preserves check m p = elim (Option-cases (check m)) [
    | inl e ↦ rw (e, refuse_with) p
    | inr (x, e) ↦ rw (e, refuse_with) p
  ]

  refuse_with-returns :
      (check : MemoryStore → Option AuthorizeError) (m : MemoryStore) {u : Unit {0}}
      → (refuse_with env cfg check m).1 ≡ returns u
      → check m ≡ none
  unfolding refuse_with
  refuse_with-returns check m h = elim (Option-cases (check m)) [
    | inl e ↦ e
    | inr (x, e) ↦ cc (rw (e, refuse_with) at h)
  ]

  require-some :
      {A E : Type 0} (o : Option A) (e : E) (m : MemoryStore) {a : A}
      → (require o e m).1 ≡ returns a
      → o ≡ some a
  unfolding require
  require-some none e m h = cc
  require-some (some a) e m h = cc

  pub register-Preserves :
      (body : Option RegistrationRequest) (draw : RegisterDraw) (now : ℕ)
      → ((c : Client) (m : MemoryStore) → P m → P (put_client c m))
      → Preserves P (handle_register env body draw now)
  unfolding handle_register
  register-Preserves body draw now k = then-Preserves P _ _ (require-Preserves P _ _) (λ req.
      then-Preserves P _ _ (refuse_if-Preserves P _ _) (λ _.
        then-Preserves P _ _ (refuse_if-Preserves P _ _) (λ _.
          then-Preserves P _ _ (refuse_if-Preserves P _ _) (λ _.
            then-Preserves P _ _ (require-Preserves P _ _) (λ id.
              then-Preserves P _ _ (require-Preserves P _ _)
                (λ secret. then-Preserves P _ _ (λ m p. k _ m p) (λ _. λ m p. p)))))))

  -- The code that is saved is one that was drawn, for a request that passed validation.
  pub authorize-Preserves :
      (r : Request) (aq : AuthorizeQuery) (username password : String) (draw : Option String)
      (now : ℕ)
      → ((user : User) (code : String) (m₀ m : MemoryStore)
          → validate_authorize_params env cfg r aq m₀ ≡ none
          → draw ≡ some code
          → P m
          → P (save_code (new_code env cfg r aq user code now) now m))
      → Preserves P (handle_authorize_post env cfg r aq username password draw now)
  unfolding handle_authorize_post
  authorize-Preserves r aq username password draw now k =
      >>=-Preserves P _ _ (refuse_with-Preserves _) (λ s₀ _ p₀ passed.
        then-Preserves P _ _ (require-Preserves P _ _)
          (λ user. then-Preserves P _ _ (refuse_if-Preserves P _ _) (λ _.
            >>=-Preserves P _ _ (require-Preserves P _ _) (λ s code p drawn.
              then-Preserves P _ _
                (λ m q.
                  k user code s₀ m (refuse_with-returns _ s₀ passed) (require-some _ _ _ drawn) q)
                (λ _. then-Preserves P _ _ (require-Preserves P _ _) (λ u. λ m q. q)) _ p)))
          _ p₀)

  issue-Preserves :
      (r : Request) (user : User) (client_id scope resource : String) (draw : TokenDraw)
      → ((t : RefreshToken) (m : MemoryStore)
          → draw.refresh ≡ some t.token
          → P m
          → P (save_refresh t m))
      → Preserves P (issue_token_response env cfg r user client_id scope resource draw)
  unfolding issue_token_response
  issue-Preserves r user client_id scope resource draw k =
      then-Preserves P _ _ (require-Preserves P _ _) (λ access.
        >>=-Preserves P _ _ (require-Preserves P _ _) (λ s token p drawn.
          then-Preserves P _ _ (λ m q. k _ m (require-some _ _ _ drawn) q) (λ _. λ m q. q) _ p))

  pub token_from_code-Preserves :
      (r : Request) (f : TokenForm) (draw : TokenDraw)
      → ((m : MemoryStore) → P m → P (take_code f.code draw.now draw.later m).0)
      → ((t : RefreshToken) (m : MemoryStore)
          → draw.refresh ≡ some t.token
          → P m
          → P (save_refresh t m))
      → Preserves P (token_from_code env cfg r f draw)
  unfolding token_from_code
  token_from_code-Preserves r f draw take save =
      then-Preserves P _ _ (refuse_if-Preserves P _ _) (λ _.
        then-Preserves P _ _ (λ m p. require-Preserves P _ _ m p)
          (λ client. then-Preserves P _ _ (refuse_if-Preserves P _ _) (λ _.
            then-Preserves P _ _ (λ m p. require-Preserves P _ _ _ (take m p))
              (λ ac. then-Preserves P _ _ (refuse_if-Preserves P _ _) (λ _.
                then-Preserves P _ _ (refuse_if-Preserves P _ _) (λ _.
                  then-Preserves P _ _ (require-Preserves P _ _) (λ user.
                    issue-Preserves r user f.client_id ac.scope ac.resource draw save)))))))

  pub token_from_refresh-Preserves :
      (r : Request) (f : TokenForm) (draw : TokenDraw)
      → ((m : MemoryStore) → P m → P (take_refresh f.refresh_token draw.now draw.later m).0)
      → ((t : RefreshToken) (m : MemoryStore)
          → draw.refresh ≡ some t.token
          → P m
          → P (save_refresh t m))
      → Preserves P (token_from_refresh env cfg r f draw)
  unfolding token_from_refresh
  token_from_refresh-Preserves r f draw take save =
      then-Preserves P _ _ (refuse_if-Preserves P _ _) (λ _.
        then-Preserves P _ _ (λ m p. require-Preserves P _ _ _ (take m p))
          (λ rt. then-Preserves P _ _ (refuse_if-Preserves P _ _) (λ _.
            then-Preserves P _ _ (λ m p. require-Preserves P _ _ m p)
              (λ client. then-Preserves P _ _ (refuse_if-Preserves P _ _) (λ _.
                then-Preserves P _ _ (require-Preserves P _ _)
                  (λ user. issue-Preserves r user _ _ rt.resource draw save))))))

  pub handle_token-Preserves :
      (r : Request) (form : Option TokenForm) (draw : TokenDraw)
      → ((code : String) (m : MemoryStore) → P m → P (take_code code draw.now draw.later m).0)
      → ((token : String) (m : MemoryStore) → P m → P (take_refresh token draw.now draw.later m).0)
      → ((t : RefreshToken) (m : MemoryStore)
          → draw.refresh ≡ some t.token
          → P m
          → P (save_refresh t m))
      → Preserves P (handle_token env cfg r form draw)
  unfolding handle_token
  handle_token-Preserves r form draw take_c take_r save =
      then-Preserves P _ _ (require-Preserves P _ _) (λ f. granted f)
    where
      granted :
          (f : TokenForm)
          → Preserves P (
              if f.grant_type == "authorization_code"
              then token_from_code env cfg r f draw
              else if f.grant_type == "refresh_token"
              then token_from_refresh env cfg r f draw
              else refuse unsupported_grant_type)
      granted f = elim (Bool-cases (f.grant_type == "authorization_code")) [
        | inl e ↦ rw e (token_from_code-Preserves r f draw (take_c f.code) save)
        | inr e ↦ elim (Bool-cases (f.grant_type == "refresh_token")) [
          | inl e' ↦
              rw (e, e') (token_from_refresh-Preserves r f draw (take_r f.refresh_token) save)
          | inr e' ↦ rw (e, e') (λ m p. p)
        ]
      ]
