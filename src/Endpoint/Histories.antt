-- ===== src/Endpoint/Histories.antt =====
-- The manager over any history of synchronisations and removals.
use flowgo_server.Prelude.{
  String, subst, true, some, none, Bool-cases, inl, inr, if◌then◌else◌, ◌≡◌, ◌==◌, Bool, false,
  Option, List, [], ◌∷◌, lookup,
}
use flowgo_server.Prelude.Action.{Action, Outcome}
use flowgo_server.Types.{FlowDsl}
use flowgo_server.Endpoint.Config.{Component}
use flowgo_server.Endpoint.Manager.{
  calm, EndpointError, Manager, new_manager, route_at, remove_flow, sync_flow,
}
use flowgo_server.Endpoint.Routes.{disowned}
use flowgo_server.Endpoint.Removal.{remove_flow-route_at}
use flowgo_server.Endpoint.Tracking.{IsSound, remove_flow-IsSound}
use flowgo_server.Endpoint.Adding.{IsSound-Kept}
use flowgo_server.Endpoint.Keeps.{Calm, sync_flow-Kept}

module _ (c : Component) where
  module _ (listens : String → Bool) (name_of : String → String) where
    pub sync_flow-IsSound :
        (f : String) (published : Option (FlowDsl c.Configuration))
        → Calm c listens name_of IsSound (sync_flow c listens name_of f published)
    sync_flow-IsSound f published =
        sync_flow-Kept c listens name_of IsSound f published (remove_flow-IsSound c.registers f)
          (λ dsl e. IsSound-Kept c listens name_of f dsl)

  -- A call of the manager: SyncFlow with the addresses that can be listened at then, or RemoveFlow.
  pub data EndpointCall : Type 0 where
    syncs :
        (String → Bool)
        → (String → String)
        → String
        → Option (FlowDsl c.Configuration)
        → EndpointCall
    removes : String → EndpointCall

  abbrev Tables : Type 0
  Tables = Manager (FlowDsl c.Configuration)

  unfoldable pub run_sync : EndpointCall → Action Tables EndpointError (Unit {0})
  run_sync (syncs listens name_of f published) = sync_flow c listens name_of f published
  run_sync (removes f) = remove_flow c.registers f

  -- The tables after a call, or nothing where it panicked.
  abbrev unless_panicked : Tables × Outcome EndpointError (Unit {0}) → Option Tables
  unless_panicked (m, o) = if calm o then some m else none

  -- The tables after calls of which none panicked.
  unfoldable pub run_syncs : List EndpointCall → Tables → Option Tables
  run_syncs [] m = some m
  run_syncs (call ∷ calls) m = elim (unless_panicked (run_sync call m)) [
    | none ↦ none
    | some after ↦ run_syncs calls after
  ]

  run_sync-IsSound :
      (call : EndpointCall) (m : Tables)
      → IsSound m
      → calm (run_sync call m).1 ≡ true
      → IsSound (run_sync call m).0
  unfolding run_sync
  run_sync-IsSound (syncs listens name_of f published) m s =
      sync_flow-IsSound listens name_of f published m s
  run_sync-IsSound (removes f) m s = remove_flow-IsSound c.registers f m s

  new_manager-IsSound : IsSound {D = FlowDsl c.Configuration} new_manager
  unfolding route_at lookup
  new_manager-IsSound = record { counted = tt; tracked = λ a p t h. cc }

  -- In a manager each server counts its routes, and each route is in the list of the flow that owns
  -- it. Both still hold after any synchronisations and removals, failing or not, of which none has
  -- panicked.
  pub run_syncs-IsSound :
      (calls : List EndpointCall) (m m' : Tables)
      → IsSound m
      → run_syncs calls m ≡ some m'
      → IsSound m'
  unfolding run_syncs
  run_syncs-IsSound [] m m' s h = let same : m ≡ m' = cc in subst IsSound same s
  run_syncs-IsSound (call ∷ calls) m m' s h = elim (Bool-cases (calm (run_sync call m).1)) [
    | inl q ↦
        run_syncs-IsSound calls (run_sync call m).0 m' (run_sync-IsSound call m s q)
          (rw (run_syncs, q) at h)
    | inr q ↦ cc (rw (run_syncs, q) at h)
  ]

  -- After any calls on a new manager of which none panicked, removing a flow with an id without a
  -- panic removes each route that the flow owns and leaves each other route as it was, so it shuts
  -- down no server that another flow uses.
  pub remove_flow-run_syncs :
      (calls : List EndpointCall) (f addr pattern : String) (m : Tables)
      → (f == "") ≡ false
      → run_syncs calls new_manager ≡ some m
      → calm (remove_flow c.registers f m).1 ≡ true
      → route_at addr pattern (remove_flow c.registers f m).0 ≡ disowned f (route_at addr pattern m)
  remove_flow-run_syncs calls f addr pattern m named ran calmly =
      let s = run_syncs-IsSound calls new_manager m new_manager-IsSound ran in
      remove_flow-route_at c.registers f addr pattern m s.counted s.tracked named calmly
