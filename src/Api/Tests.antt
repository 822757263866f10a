-- ===== src/Api/Tests.antt =====
-- The handlers run on a flow off line, with entry points that take every graph.
use flowgo_server.Prelude.{refl, true, false, some, none, [], ◌∷◌, String, Option, List, trim_space}
use flowgo_server.Prelude.Action.{◌>>=◌, refuse_if, require}
use flowgo_server.Store.Docs.{FlowDoc, User, can_access_flow, version_or_zero}
use flowgo_server.Store.Exec.{pure, lift, attempt, find_flows, update_flow, first_doc}
use flowgo_server.Store.Exec.{◌>>=◌ as ◌>>>◌, refuse_if as store_refuse_if}
use flowgo_server.Store.Records.{
  Dsl, flow_from_doc, apply_publish_status, parse_dsl, unpublished_changes_of, fingerprints_differ,
  parse_history, keep_last_history,
}
use flowgo_server.Store.Flow.{first_flow, get_flow, migrate_legacy_published, is_legacy}
use flowgo_server.Store.Publish.{publish_flow, publish_history}
use flowgo_server.Store.Sample.{sample}
use flowgo_server.Api.World.{
  Entries, World, in_conflict, call, invalidate, notify, check_routes, sync, write_flow_store_err,
}
use flowgo_server.Api.Publishing.{unlocked, publish, after_publish, handle_publish_flow}
use flowgo_server.Api.Requests.{publishes, change_live}
use flowgo_server.Store.User.{update_password, update_user}
use flowgo_server.Api.Users.{IsChanged, handle_change_password, handle_change_password-IsChanged}
use flowgo_server.Api.Serving.{IsServed, change_live-IsServed}
use flowgo_server.Api.Refusals.{IsUntouched, change_live-IsUntouched}

-- Entry points that take every graph, by the flow that each was given for.
abbrev entries : Entries ⦃b = sample⦄
entries = record {
  State = List (String × Option (Dsl ⦃b = sample⦄));
  check_http_routes = λ id dsl s. true;
  sync_flow = λ rec s. ((rec.id, rec.published_dsl) ∷ s, true);
  sync_draft_if_open = λ rec s. s;
  remove_flow = λ id s. ("", none) ∷ s;
}

abbrev off_doc : FlowDoc
off_doc = record {
  flow_id = "f";
  name = "draft";
  owner_id = "u";
  group_id = "g";
  previous_group_id = "";
  locked = false;
  lock_password_hash = "";
  dsl_json = "{draft}";
  published_json = "";
  published_at = "t0";
  published_note = "first";
  published_version = some 0;
  history_json = "[]";
  created_at = "t0";
  updated_at = "t0";
}

abbrev world_of : FlowDoc → World ⦃b = sample⦄ entries
world_of doc = record {
  db = record { flows = ("d", doc) ∷ []; groups = []; users = [] };
  entries = [];
  told = [];
  dropped = [];
}

abbrev owner : User
owner = record {
  id = "u";
  username = "u";
  password_hash = "";
  role = "user";
  flow_ids = "f" ∷ [];
  created_at = "";
}

abbrev stranger : User
stranger = record owner { flow_ids = [] }

-- A locked flow is not published.
change_live-IsUntouched_example :
    IsUntouched ⦃b = sample⦄ entries
      (world_of (record off_doc { locked = true }))
      (change_live ⦃b = sample⦄ entries owner "f"
        (publishes "n")
        "t1"
        (world_of (record off_doc { locked = true }))).0
unfolding change_live handle_publish_flow publish unlocked call write_flow_store_err can_access_flow
    ◌>>=◌ refuse_if first_flow find_flows first_doc ◌>>>◌ pure get_flow migrate_legacy_published
    is_legacy flow_from_doc apply_publish_status parse_dsl version_or_zero unpublished_changes_of
    fingerprints_differ parse_history trim_space
change_live-IsUntouched_example =
    change_live-IsUntouched ⦃b = sample⦄ entries (world_of (record off_doc { locked = true })) owner
      "f" (publishes "n") "t1" _ in_conflict refl (λ e. cc)

abbrev published_doc : FlowDoc
published_doc = record off_doc {
  published_json = "{draft}";
  published_at = "t1";
  published_version = some 1;
  published_note = "n";
  history_json = "[]";
  updated_at = "t1";
}

change_live-IsServed_example :
    IsServed ⦃b = sample⦄ entries "f"
      (world_of off_doc)
      (publishes "n")
      (flow_from_doc ⦃b = sample⦄ published_doc)
      (change_live ⦃b = sample⦄ entries owner "f" (publishes "n") "t1" (world_of off_doc)).0
unfolding change_live handle_publish_flow publish unlocked call write_flow_store_err can_access_flow
    ◌>>=◌ refuse_if require first_flow find_flows first_doc ◌>>>◌ store_refuse_if pure lift attempt
    update_flow get_flow migrate_legacy_published is_legacy flow_from_doc apply_publish_status
    parse_dsl version_or_zero unpublished_changes_of fingerprints_differ parse_history trim_space
    keep_last_history publish_flow publish_history check_routes after_publish sync invalidate notify
change_live-IsServed_example =
    change_live-IsServed ⦃b = sample⦄ entries "f" (world_of off_doc) owner (publishes "n") "t1" _ _
      refl

-- The world with the owner among the users.
abbrev peopled : World ⦃b = sample⦄ entries
peopled = record (world_of off_doc) {
  db = record {
    flows = [];
    groups = [];
    users =
        (
          "u",
          record {
            username = "u";
            password_hash = "old";
            role = "user";
            flow_ids = [];
            created_at = "";
          },
        )
        ∷ [];
  };
}

handle_change_password-IsChanged_example :
    IsChanged ⦃b = sample⦄ entries
      (record owner { password_hash = "old" })
      "old"
      "newer"
      peopled
      (handle_change_password ⦃b = sample⦄ entries
        (record owner { password_hash = "old" })
        (some ("old", "newer"))
        peopled).0
unfolding handle_change_password ◌>>=◌ refuse_if require call update_password ◌>>>◌ lift update_user
handle_change_password-IsChanged_example =
    handle_change_password-IsChanged ⦃b = sample⦄ entries (record owner { password_hash = "old" })
      "old" "newer" peopled _ tt refl
