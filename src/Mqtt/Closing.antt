-- ===== src/Mqtt/Closing.antt =====
-- Closing the drafts that no editor has open.
use flowgo_server.Prelude.{
  String, ◌≡◌, refl, ◌==◌, eq_iff, Bool, false, true, some, List, [], ◌∷◌, if◌then◌else◌, GoMap,
  lookup, Option-cases, text_cases, inl, inr, arith, In,
}
use flowgo_server.Mqtt.Helpers.{draft, flow_key, cut_draft}
use flowgo_server.Mqtt.Connections.{Connections, remove_track}
use flowgo_server.Mqtt.Sessions.{Editors, is_draft_open}
use flowgo_server.Mqtt.Manager.{draft_ids, close_unopened, close_unopened_drafts, remove_drafts}
use flowgo_server.Mqtt.Keys.{cut_draft-flow_key}
use flowgo_server.Mqtt.Drafts.{IsUnmounted, lookup-remove_track, remove_track-IsUnmounted}

-- A flow that no editor has open has no draft mounted.
abbrev pub DraftsAreOpen : {D : Type 0} → Editors → Connections D → Type 0
DraftsAreOpen e m = (id : String) → is_draft_open id e ≡ false → IsUnmounted (flow_key draft id) m

draft_ids-In :
    (id : String) (m : GoMap (List String)) {keys : List String}
    → lookup (flow_key draft id) m ≡ some keys
    → In id (draft_ids m)
unfolding draft_ids lookup
draft_ids-In id [] h = cc
draft_ids-In id ((fk, keys) ∷ m) h = elim (text_cases fk (flow_key draft id)) [
  | inl e ↦ rw (e, cut_draft-flow_key id, draft_ids) (inl refl)
  | inr e ↦ elim (Option-cases (cut_draft fk)) [
    | inl q ↦ rw (q, draft_ids) (draft_ids-In id m (rw e at h))
    | inr (x, q) ↦ rw (q, draft_ids) (inr (draft_ids-In id m (rw e at h)))
  ]
]

module _ {D : Type 0} where
  close_unopened-IsUnmounted :
      (e : Editors) (ids : List String) (j : String) (m : Connections D)
      → IsUnmounted j m
      → IsUnmounted j (close_unopened e ids m)
  unfolding close_unopened
  close_unopened-IsUnmounted e [] j m h = h
  close_unopened-IsUnmounted e (id ∷ ids) j m h =
      close_unopened-IsUnmounted e ids j _ (step (is_draft_open id e))
    where
      step : (b : Bool) → IsUnmounted j (if b then m else remove_track draft id m)
      step true = h
      step false = remove_track-IsUnmounted j draft id m h

  pub remove_drafts-IsUnmounted :
      (ids : List String) (j : String) (m : Connections D)
      → IsUnmounted j m
      → IsUnmounted j (remove_drafts ids m)
  unfolding remove_drafts
  remove_drafts-IsUnmounted [] j m h = h
  remove_drafts-IsUnmounted (id ∷ ids) j m h =
      remove_drafts-IsUnmounted ids j _ (remove_track-IsUnmounted j draft id m h)

  removed_draft :
      (id : String) (m : Connections D)
      → (id == "") ≡ false
      → IsUnmounted (flow_key draft id) (remove_track draft id m)
  removed_draft id m ne = ground (
    arith,
    lookup-remove_track draft id (flow_key draft id) m,
    eq_iff (flow_key draft id) (flow_key draft id),
  )

  close_unopened-closed :
      (e : Editors) (ids : List String) (id : String) (m : Connections D)
      → is_draft_open id e ≡ false
      → (id == "") ≡ false
      → In id ids
      → IsUnmounted (flow_key draft id) (close_unopened e ids m)
  unfolding close_unopened
  close_unopened-closed e [] id m h ne i = absurd i
  close_unopened-closed e (x ∷ ids) id m h ne (inl same) =
      rw (same, close_unopened, h) (close_unopened-IsUnmounted e ids _ _ (removed_draft id m ne))
  close_unopened-closed e (x ∷ ids) id m h ne (inr i) = close_unopened-closed e ids id _ h ne i

  -- Whatever was mounted before, after closing only open flows have drafts mounted.
  pub close_unopened_drafts-open :
      (e : Editors) (m : Connections D)
      → IsUnmounted (flow_key draft "") m
      → DraftsAreOpen e (close_unopened_drafts e m)
  unfolding close_unopened_drafts
  close_unopened_drafts-open e m p id h = elim (text_cases id "") [
    | inl same ↦ rw same (close_unopened-IsUnmounted e _ _ m p)
    | inr ne ↦ elim (Option-cases (lookup (flow_key draft id) m.by_flow)) [
      | inl q ↦ close_unopened-IsUnmounted e _ _ m q
      | inr (keys, q) ↦ close_unopened-closed e _ id m h ne (draft_ids-In id m.by_flow q)
    ]
  ]
