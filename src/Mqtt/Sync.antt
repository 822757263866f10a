-- ===== src/Mqtt/Sync.antt =====
-- internal/mqttendpoint/manager.go and draft_session.go: SyncFlow and SyncDraft.
use flowgo_server.Prelude.{
  String, ◌==◌, not, ◌&&◌, Option, none, some, List, [], ◌∷◌, if◌then◌else◌, nonempty, contains,
  is_some,
}
use flowgo_server.Prelude.Action.{returns, ◌>>=◌, pure, refuse}
use flowgo_server.Types.{FlowNode}
use flowgo_server.Mqtt.Config.{Iot, Network}
use flowgo_server.Mqtt.Helpers.{published, draft, ensure_dsl_id}
use flowgo_server.Mqtt.Connections.{Connections, bad_in, bad_out, remove_track, or_remove}
use flowgo_server.Mqtt.Adding.{Dsl, Step, add_in, add_out}
use flowgo_server.Mqtt.Sessions.{Editors, is_draft_open}

-- The fields of store.FlowRecord that the manager reads.
pub record Flow (D : Type 0) : Type 0 where
  pub id : String
  pub dsl : Option D
  pub published_dsl : Option D

module _ {D : Type 0} where
  -- RemoveFlow and RemoveDraft
  unfoldable pub remove_flow : String → Connections D → Connections D
  remove_flow flow_id m = remove_track published flow_id m

  unfoldable pub remove_draft : String → Connections D → Connections D
  remove_draft flow_id m = remove_track draft flow_id m

module _ (c : Iot) (net : Network c.Settings) where
  -- A node of SyncFlow's first loop.
  unfoldable pub published_in : String → Dsl c → FlowNode c.Configuration → Step c (Unit {0})
  published_in flow_id dsl node =
      if node.type == c.type_mqtt_in
      then elim (c.parse_mqtt_in_config node.configuration) [
        | none ↦ refuse (bad_in node.id)
        | some cfg ↦ add_in c net published flow_id node.id cfg dsl
      ]
      else pure tt

  unfoldable pub published_ins :
      String → Dsl c → List (FlowNode c.Configuration) → Step c (Unit {0})
  published_ins flow_id dsl [] = pure tt
  published_ins flow_id dsl (node ∷ nodes) = do
    u ← (λ m. or_remove published flow_id (published_in flow_id dsl node m))
    published_ins flow_id dsl nodes

  -- A node of SyncFlow's second loop.
  unfoldable pub published_out : String → FlowNode c.Configuration → Step c (Unit {0})
  published_out flow_id node =
      if node.type == c.type_mqtt_out
      then elim (c.parse_mqtt_out_config node.configuration) [
        | none ↦ refuse (bad_out node.id)
        | some cfg ↦
            if c.needs_managed_client cfg
            then add_out c net published flow_id node.id cfg
            else pure tt
      ]
      else pure tt

  unfoldable pub published_outs : String → List (FlowNode c.Configuration) → Step c (Unit {0})
  published_outs flow_id [] = pure tt
  published_outs flow_id (node ∷ nodes) = do
    u ← (λ m. or_remove published flow_id (published_out flow_id node m))
    published_outs flow_id nodes

  abbrev mount_published : String → Dsl c → Step c (Unit {0})
  mount_published flow_id dsl = do
    u ← published_ins flow_id dsl dsl.nodes
    published_outs flow_id dsl.nodes

  -- SyncFlow on a record that is not nil
  unfoldable pub sync_flow : Flow (Dsl c) → Step c (Unit {0})
  sync_flow rec m = elim rec.published_dsl [
    | none ↦ (remove_flow rec.id (remove_draft rec.id m), returns tt)
    | some dsl ↦
        mount_published rec.id (ensure_dsl_id dsl rec.id)
          (remove_flow rec.id (remove_draft rec.id m))
  ]

  -- A node of SyncDraft's first loop, with the ids of `activeIn`.
  unfoldable pub draft_in :
      String → Dsl c → FlowNode c.Configuration → List String → Step c (List String)
  draft_in flow_id dsl node active =
      if node.type == c.type_mqtt_in
      then elim (c.parse_mqtt_in_config node.configuration) [
        | none ↦ refuse (bad_in node.id)
        | some cfg ↦
            if cfg.connect_and_respond
            then (add_in c net draft flow_id node.id cfg dsl >>= λ u. pure (node.id ∷ active))
            else pure active
      ]
      else pure active

  unfoldable pub draft_ins :
      String → Dsl c → List (FlowNode c.Configuration) → List String → Step c (List String)
  draft_ins flow_id dsl [] active = pure active
  draft_ins flow_id dsl (node ∷ nodes) active = do
    active' ← (λ m. or_remove draft flow_id (draft_in flow_id dsl node active m))
    draft_ins flow_id dsl nodes active'

  -- A node of SyncDraft's second loop.
  unfoldable pub draft_out : String → List String → FlowNode c.Configuration → Step c (Unit {0})
  draft_out flow_id active node =
      if node.type == c.type_mqtt_out
      then elim (c.parse_mqtt_out_config node.configuration) [
        | none ↦ refuse (bad_out node.id)
        | some cfg ↦
            if not (c.needs_managed_client cfg)
            then pure tt
            else if nonempty cfg.reuse_from && not (contains active cfg.reuse_from)
            then pure tt
            else add_out c net draft flow_id node.id cfg
      ]
      else pure tt

  unfoldable pub draft_outs :
      String → List String → List (FlowNode c.Configuration) → Step c (Unit {0})
  draft_outs flow_id active [] = pure tt
  draft_outs flow_id active (node ∷ nodes) = do
    u ← (λ m. or_remove draft flow_id (draft_out flow_id active node m))
    draft_outs flow_id active nodes

  abbrev mount_draft : String → Dsl c → Step c (Unit {0})
  mount_draft flow_id dsl = do
    active ← draft_ins flow_id dsl dsl.nodes []
    draft_outs flow_id active dsl.nodes

  -- The draft that SyncDraft mounts: that of a flow that is open and not published.
  unfoldable pub draft_of : Editors → Flow (Dsl c) → Option (Dsl c)
  draft_of e rec =
      if is_draft_open rec.id e then if is_some rec.published_dsl then none else rec.dsl else none

  -- SyncDraft on a record that is not nil
  unfoldable pub sync_draft : Editors → Flow (Dsl c) → Step c (Unit {0})
  sync_draft e rec m = elim (draft_of e rec) [
    | none ↦ (remove_draft rec.id m, returns tt)
    | some dsl ↦ mount_draft rec.id (ensure_dsl_id dsl rec.id) (remove_draft rec.id m)
  ]

  -- SyncDraftIfOpen
  unfoldable pub sync_draft_if_open : Editors → Flow (Dsl c) → Step c (Unit {0})
  sync_draft_if_open e rec m =
      if is_draft_open rec.id e then sync_draft e rec m else (remove_draft rec.id m, returns tt)
