-- ===== src/OAuth/Calls.antt =====
-- The requests that change the memory of internal/oauth, as data, to state what holds of every
-- history of them. Each carries what its handler draws and the times that it reads.
use flowgo_server.Prelude.{ℕ, String, ◌≢◌, Option, some, List, [], ◌∷◌}
use flowgo_server.OAuth.Memory.{MemoryStore}
use flowgo_server.OAuth.Server.{Services, Config, Request}
use flowgo_server.OAuth.Register.{RegistrationRequest, RegisterDraw, handle_register}
use flowgo_server.OAuth.Authorize.{AuthorizeQuery, handle_authorize_post}
use flowgo_server.OAuth.Token.{TokenForm, TokenDraw, handle_token}

pub data Call : Type 0 where
  registers : Option RegistrationRequest → RegisterDraw → ℕ → Call
  authorizes : Request → AuthorizeQuery → String → String → Option String → ℕ → Call
  redeems : Request → Option TokenForm → TokenDraw → Call

-- The call does not draw the text as a new authorization code.
abbrev pub DrawsOther : String → Call → Type 0
DrawsOther c (authorizes r aq username password draw now) = draw ≢ some c
DrawsOther c _ = Unit

-- The call does not draw the text as a new refresh token.
abbrev pub RefreshesOther : String → Call → Type 0
RefreshesOther t (redeems r form draw) = draw.refresh ≢ some t
RefreshesOther t _ = Unit

module _ (env : Services) (cfg : Config) where
  unfoldable pub run_call : Call → MemoryStore → MemoryStore
  run_call (registers body draw now) m = (handle_register env body draw now m).0
  run_call (authorizes r aq username password draw now) m =
      (handle_authorize_post env cfg r aq username password draw now m).0
  run_call (redeems r form draw) m = (handle_token env cfg r form draw m).0

  unfoldable pub run_calls : List Call → MemoryStore → MemoryStore
  run_calls [] m = m
  run_calls (c ∷ cs) m = run_calls cs (run_call c m)
