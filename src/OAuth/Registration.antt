-- ===== src/OAuth/Registration.antt =====
-- What a registration leaves behind.
use flowgo_server.Prelude.{
  ℕ, String, ◌≡◌, refl, sym, ap, subst, ◌∙◌, inl, inr, true, Option, some, List, [], ◌∷◌, In,
  In→contains, arith, eq_iff, lookup-put,
}
use flowgo_server.Prelude.Action.{returns, >>=-returns, refuse_if-returns, require-returns}
use flowgo_server.OAuth.Memory.{MemoryStore, Client, put_client, get_client, client_allows_redirect}
use flowgo_server.OAuth.Server.{Services, valid_redirect_uri}
use flowgo_server.OAuth.Grants.{returned}
use flowgo_server.OAuth.Register.{
  RegistrationRequest, RegisterDraw, all_valid, handle_register, new_client,
}

pub get-put_client : (c : Client) (m : MemoryStore) → get_client c.id (put_client c m) ≡ some c
unfolding get_client put_client
get-put_client c m = ground (arith, lookup-put c.id c.id c m.clients, eq_iff c.id c.id)

module _ (env : Services) where
  all_valid-In :
      (us : List String) (u : String)
      → all_valid env us ≡ true
      → In u us
      → valid_redirect_uri env u ≡ true
  unfolding all_valid
  all_valid-In [] u h i = absurd i
  all_valid-In (x ∷ us) u h (inl e) = subst (λ y. valid_redirect_uri env y ≡ true) e (ground arith)
  all_valid-In (x ∷ us) u h (inr i) = all_valid-In us u (ground arith) i

  allowed_after :
      (c : Client) (m m' : MemoryStore) (uri : String)
      → put_client c m ≡ m'
      → In uri c.redirect_uris
      → client_allows_redirect c.id uri m' ≡ true
  unfolding client_allows_redirect
  allowed_after c m m' uri stored i =
      rw (← stored) (rw (get-put_client c m) (In→contains c.redirect_uris uri i))

  -- What a registration that succeeds has done.
  pub record Registered (req : RegistrationRequest) (c : Client) (m m' : MemoryStore) : Type 0 where
    pub stored : get_client c.id m' ≡ some c
    pub uris : c.redirect_uris ≡ req.redirect_uris
    pub valid : (uri : String) → In uri req.redirect_uris → valid_redirect_uri env uri ≡ true
    pub allowed :
        (uri : String) → In uri req.redirect_uris → client_allows_redirect c.id uri m' ≡ true
    pub codes : m'.codes ≡ m.codes
    pub refresh : m'.refresh ≡ m.refresh

  result :
      (req : RegistrationRequest) (id secret : String) (now : ℕ) (m m' : MemoryStore) (c : Client)
      → put_client (new_client req id secret now) m ≡ m'
      → new_client req id secret now ≡ c
      → all_valid env req.redirect_uris ≡ true
      → Registered req c m m'
  unfolding put_client
  result req id secret now m m' c stored value valid = rw (← value) (record {
    stored = rw (← stored) (get-put_client (new_client req id secret now) m);
    uris = refl;
    valid = λ uri i. all_valid-In req.redirect_uris uri valid i;
    allowed = λ uri i. allowed_after (new_client req id secret now) m m' uri stored i;
    codes = sym (ap (λ (t : MemoryStore). t.codes) stored);
    refresh = sym (ap (λ (t : MemoryStore). t.refresh) stored);
  })

  -- A registration that succeeds stores the client that it answers with: each URI that was asked for
  -- is a valid redirect URI and is allowed for the client, and codes and refresh tokens are as before.
  pub handle_register-Registered :
      (body : Option RegistrationRequest) (draw : RegisterDraw) (now : ℕ) (m m' : MemoryStore)
      (c : Client)
      → handle_register env body draw now m ≡ (m', returns c)
      → (req : RegistrationRequest) × (body ≡ some req) × Registered req c m m'
  unfolding handle_register put_client
  handle_register-Registered body draw now m m' c h =
      let (req, parsed, h₁) = require-returns _ _ _ m h in
      let (_, h₂) = refuse_if-returns _ _ _ m h₁ in
      let (valid, h₃) = refuse_if-returns _ _ _ m h₂ in
      let (_, h₄) = refuse_if-returns _ _ _ m h₃ in
      let (id, _, h₅) = require-returns _ _ _ m h₄ in
      let (secret, _, h₆) = require-returns _ _ _ m h₅ in
      let (s, u, put, h₇) = >>=-returns _ _ m h₆ in
      let (at_s, _) = returned put in
      let (at_m', value) = returned h₇ in
      (req, parsed, result req id secret now m m' c (at_s ∙ at_m') value (ground arith))
