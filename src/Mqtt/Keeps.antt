-- ===== src/Mqtt/Keeps.antt =====
-- What SyncFlow and SyncDraft keep: a property of the tables that mounting and unmounting the track
-- of the flow keep.
use flowgo_server.Prelude.{
  String, ◌≡◌, ◌==◌, Bool, true, false, not, ◌&&◌, some, List, [], ◌∷◌, Bool-cases, Option-cases,
  inl, inr, if◌then◌else◌, nonempty, contains,
}
use flowgo_server.Prelude.Action.{Outcome, returns, fails, Preserves, then-Preserves}
use flowgo_server.Types.{FlowNode}
use flowgo_server.Mqtt.Config.{Iot, Network, MqttInConfig, MqttOutConfig}
use flowgo_server.Mqtt.Helpers.{Track, published, draft}
use flowgo_server.Mqtt.Connections.{Connections, MqttError, remove_track, or_remove}
use flowgo_server.Mqtt.Adding.{Dsl, Step, add_in, add_out}
use flowgo_server.Mqtt.Sessions.{Editors, is_draft_open}
use flowgo_server.Mqtt.Sync.{
  Flow, remove_flow, remove_draft, published_in, published_ins, published_out, published_outs,
  sync_flow, draft_in, draft_ins, draft_out, draft_outs, draft_of, sync_draft, sync_draft_if_open,
}

module _ (c : Iot) (net : Network c.Settings) (P : Connections (Dsl c) → Type 0) where
  -- The property is kept by mounting nodes on a track of a flow, and by removing the track.
  pub record Kept (track : Track) (flow_id : String) : Type 0 where
    pub ins :
        (node_id : String) (cfg : MqttInConfig c.Settings) (dsl : Dsl c)
        → Preserves P (add_in c net track flow_id node_id cfg dsl)
    pub outs :
        (node_id : String) (cfg : MqttOutConfig c.Settings)
        → Preserves P (add_out c net track flow_id node_id cfg)
    pub removes : (m : Connections (Dsl c)) → P m → P (remove_track track flow_id m)

  choice-Preserves :
      {A : Type 0} (b : Bool) (step other : Step c A)
      → Preserves P step
      → Preserves P other
      → Preserves P (if b then step else other)
  choice-Preserves true step other h k = h
  choice-Preserves false step other h k = k

  pub or_remove-Kept :
      {A : Type 0} (track : Track) (f : String) (step : Step c A)
      → Kept track f
      → Preserves P step
      → Preserves P (λ m. or_remove track f (step m))
  or_remove-Kept {A = A} track f step r k m p = removed (step m).1 (k m p)
    where
      removed : (o : Outcome MqttError A) → P (step m).0 → P (or_remove track f ((step m).0, o)).0
      removed (returns a) q = q
      removed (fails e) q = r.removes (step m).0 q

  published_in-Kept :
      (f : String) (dsl : Dsl c) (node : FlowNode c.Configuration)
      → Kept published f
      → Preserves P (published_in c net f dsl node)
  unfolding published_in
  published_in-Kept f dsl node r m p = elim (Bool-cases (node.type == c.type_mqtt_in)) [
    | inr e ↦ rw e p
    | inl e ↦ elim (Option-cases (c.parse_mqtt_in_config node.configuration)) [
      | inl e' ↦ rw (e, e') p
      | inr (cfg, e') ↦ rw (e, e') (r.ins node.id cfg dsl m p)
    ]
  ]

  published_ins-Kept :
      (f : String) (dsl : Dsl c) (nodes : List (FlowNode c.Configuration))
      → Kept published f
      → Preserves P (published_ins c net f dsl nodes)
  unfolding published_ins
  published_ins-Kept f dsl [] r = λ m p. p
  published_ins-Kept f dsl (node ∷ nodes) r =
      then-Preserves P _ _ (or_remove-Kept published f _ r (published_in-Kept f dsl node r))
        (λ u. published_ins-Kept f dsl nodes r)

  published_out-Kept :
      (f : String) (node : FlowNode c.Configuration)
      → Kept published f
      → Preserves P (published_out c net f node)
  unfolding published_out
  published_out-Kept f node r m p = elim (Bool-cases (node.type == c.type_mqtt_out)) [
    | inr e ↦ rw e p
    | inl e ↦ elim (Option-cases (c.parse_mqtt_out_config node.configuration)) [
      | inl e' ↦ rw (e, e') p
      | inr (cfg, e') ↦ elim (Bool-cases (c.needs_managed_client cfg)) [
        | inl q ↦ rw (e, e', q) (r.outs node.id cfg m p)
        | inr q ↦ rw (e, e', q) p
      ]
    ]
  ]

  published_outs-Kept :
      (f : String) (nodes : List (FlowNode c.Configuration))
      → Kept published f
      → Preserves P (published_outs c net f nodes)
  unfolding published_outs
  published_outs-Kept f [] r = λ m p. p
  published_outs-Kept f (node ∷ nodes) r =
      then-Preserves P _ _ (or_remove-Kept published f _ r (published_out-Kept f node r))
        (λ u. published_outs-Kept f nodes r)

  pub sync_flow-Kept :
      (rec : Flow (Dsl c))
      → Kept published rec.id
      → ((m : Connections (Dsl c)) → P m → P (remove_track draft rec.id m))
      → Preserves P (sync_flow c net rec)
  unfolding sync_flow remove_flow remove_draft
  sync_flow-Kept rec r d m p =
      let clear = r.removes _ (d m p) in
      elim (Option-cases rec.published_dsl) [
        | inl e ↦ rw e clear
        | inr (dsl, e) ↦ rw e (
            then-Preserves P _ _ (published_ins-Kept rec.id _ _ r)
              (λ u. published_outs-Kept rec.id _ r) _ clear)
      ]

  draft_in-Kept :
      (f : String) (dsl : Dsl c) (node : FlowNode c.Configuration) (active : List String)
      → Kept draft f
      → Preserves P (draft_in c net f dsl node active)
  unfolding draft_in
  draft_in-Kept f dsl node active r m p = elim (Bool-cases (node.type == c.type_mqtt_in)) [
    | inr e ↦ rw e p
    | inl e ↦ elim (Option-cases (c.parse_mqtt_in_config node.configuration)) [
      | inl e' ↦ rw (e, e') p
      | inr (cfg, e') ↦
          rw (e, e')
            (choice-Preserves cfg.connect_and_respond _ _
              (then-Preserves P _ _ (r.ins node.id cfg dsl) (λ u n k. k)) (λ n k. k) m p)
    ]
  ]

  draft_ins-Kept :
      (f : String) (dsl : Dsl c) (nodes : List (FlowNode c.Configuration)) (active : List String)
      → Kept draft f
      → Preserves P (draft_ins c net f dsl nodes active)
  unfolding draft_ins
  draft_ins-Kept f dsl [] active r = λ m p. p
  draft_ins-Kept f dsl (node ∷ nodes) active r =
      then-Preserves P _ _ (or_remove-Kept draft f _ r (draft_in-Kept f dsl node active r))
        (λ active'. draft_ins-Kept f dsl nodes active' r)

  draft_out-Kept :
      (f : String) (active : List String) (node : FlowNode c.Configuration)
      → Kept draft f
      → Preserves P (draft_out c net f active node)
  unfolding draft_out
  draft_out-Kept f active node r m p = elim (Bool-cases (node.type == c.type_mqtt_out)) [
    | inr e ↦ rw e p
    | inl e ↦ elim (Option-cases (c.parse_mqtt_out_config node.configuration)) [
      | inl e' ↦ rw (e, e') p
      | inr (cfg, e') ↦ elim (Bool-cases (c.needs_managed_client cfg)) [
        | inr q ↦ rw (e, e', q) p
        | inl q ↦
            elim (Bool-cases (nonempty cfg.reuse_from && not (contains active cfg.reuse_from))) [
              | inl s ↦ rw (e, e', q, s) p
              | inr s ↦ rw (e, e', q, s) (r.outs node.id cfg m p)
            ]
      ]
    ]
  ]

  draft_outs-Kept :
      (f : String) (active : List String) (nodes : List (FlowNode c.Configuration))
      → Kept draft f
      → Preserves P (draft_outs c net f active nodes)
  unfolding draft_outs
  draft_outs-Kept f active [] r = λ m p. p
  draft_outs-Kept f active (node ∷ nodes) r =
      then-Preserves P _ _ (or_remove-Kept draft f _ r (draft_out-Kept f active node r))
        (λ u. draft_outs-Kept f active nodes r)

  draft_of-open :
      (e : Editors) (rec : Flow (Dsl c)) (dsl : Dsl c)
      → draft_of c net e rec ≡ some dsl
      → is_draft_open rec.id e ≡ true
  unfolding draft_of
  draft_of-open e rec dsl h = elim (Bool-cases (is_draft_open rec.id e)) [
    | inl q ↦ q
    | inr q ↦ cc (rw q at h)
  ]

  -- A draft is mounted only where the flow is open.
  pub sync_draft-Kept :
      (e : Editors) (rec : Flow (Dsl c))
      → ((m : Connections (Dsl c)) → P m → P (remove_track draft rec.id m))
      → (is_draft_open rec.id e ≡ true → Kept draft rec.id)
      → Preserves P (sync_draft c net e rec)
  unfolding sync_draft remove_draft
  sync_draft-Kept e rec removes r m p = elim (Option-cases (draft_of c net e rec)) [
    | inl q ↦ rw (q, sync_draft) (removes m p)
    | inr (dsl, q) ↦
        let k = r (draft_of-open e rec dsl q) in
        rw (q, sync_draft)
          (then-Preserves P _ _ (draft_ins-Kept rec.id _ _ [] k)
            (λ active. draft_outs-Kept rec.id active _ k) _ (removes m p))
  ]

  pub sync_draft_if_open-Kept :
      (e : Editors) (rec : Flow (Dsl c))
      → ((m : Connections (Dsl c)) → P m → P (remove_track draft rec.id m))
      → (is_draft_open rec.id e ≡ true → Kept draft rec.id)
      → Preserves P (sync_draft_if_open c net e rec)
  unfolding sync_draft_if_open remove_draft
  sync_draft_if_open-Kept e rec removes r m p = elim (Bool-cases (is_draft_open rec.id e)) [
    | inl q ↦ rw q (sync_draft-Kept e rec removes r m p)
    | inr q ↦ rw q (removes m p)
  ]
