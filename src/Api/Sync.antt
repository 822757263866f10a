-- ===== src/Api/Sync.antt =====
-- internal/api/middleware.go: the interface by which the handlers drive the entry points.
use flowgo_server.Prelude.{String, Bool}

-- EndpointSync, over the graphs `D` and the records `R` of flows. An error is `false`. The calls
-- return: a request in which one panics, which net/http then ends, is left out.
pub record EndpointSync (D R : Type 0) : Type 1 where
  pub State : Type 0
  pub check_http_routes : String → D → State → Bool
  pub sync_flow : R → State → State × Bool
  pub sync_draft_if_open : R → State → State
  pub remove_flow : String → State → State
