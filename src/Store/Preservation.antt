-- ===== src/Store/Preservation.antt =====
-- Every operation of the store keeps its flow documents well formed.
pub mod Publishing
pub mod Groups
pub mod Histories
use flowgo_server.Prelude.{
  ℕ, String, ◌≡◌, refl, sym, subst, ◌<◌, ◌==◌, Bool, true, false, Option, some, List, [], ◌∷◌,
  arith, inl, inr, Bool-cases,
}
use flowgo_server.Clover.{Entry}
use flowgo_server.Store.Docs.{FlowDoc, User, HistoryEntry, version_or_zero}
use flowgo_server.Store.Backend.{Backend}
use flowgo_server.Store.Exec.{M, ◌>>=◌, find_flows, update_flow, first_doc}
use flowgo_server.Store.Exec.Keeps.{
  Keeps, Keeps-pure, Keeps-if, Keeps-bind, Keeps-lift, Keeps-refuse, Keeps-find, Keeps-first_doc,
  Keeps-update, Keeps-insert, Keeps-delete, Keeps-find_groups, Keeps-first_group, bind_assoc,
}
use flowgo_server.Store.Records.{Dsl, Rec, flow_from_doc, parse_history, read_history}
use flowgo_server.Store.WellFormed.{IsWellFormed, IsHistory, parse-empty}
use flowgo_server.Store.Flow.{
  has_flow_id, first_flow, is_legacy, migrate_legacy_published, get_flow, list_flows_from,
  list_flows, insert_or_update, save_flow, set_flow_locked, require_group, set_flow_group,
  update_each, clear_flows_group, delete_flow,
}

module _ ⦃b : Backend⦄ where
  abbrev pub KeepsWf : {A : Type 0} → M A → Type 0
  KeepsWf m = Keeps IsWellFormed m

  -- An edit that writes a history and the live fields, by what it writes.
  with-IsHistory :
      (d : FlowDoc) (h : List HistoryEntry)
      → parse_history d.history_json ≡ h
      → IsHistory h
      → IsHistory (read_history d)
  with-IsHistory d h e w = rw e w

  pub first_flow-Keeps :
      {A : Type 0} (id : String) (f : Entry FlowDoc → M A)
      → ((i : String) (doc : FlowDoc) → IsWellFormed doc → KeepsWf (f (i, doc)))
      → KeepsWf (first_flow id >>= f)
  unfolding first_flow
  first_flow-Keeps id f kf =
      subst KeepsWf (sym (bind_assoc (find_flows (has_flow_id id)) (λ docs. first_doc docs) f))
        (Keeps-find (has_flow_id id) _ (λ es w. Keeps-first_doc es f w kf))

  -- What the migration, a publication, … write makes any document well formed that they write on.
  pub published-IsWellFormed :
      (d : FlowDoc) (h : List HistoryEntry) (v : ℕ)
      → parse_history d.history_json ≡ h
      → IsHistory h
      → d.published_version ≡ some v
      → (d.published_json == "") ≡ false
      → 0 < v
      → IsWellFormed d
  unfolding version_or_zero
  published-IsWellFormed d h v reads w version e pos = record {
    history = rw reads w;
    live = (λ _. rw version pos, λ z. absurd (cc));
  }

  pub offline-IsWellFormed :
      (d : FlowDoc) (h : List HistoryEntry)
      → parse_history d.history_json ≡ h
      → IsHistory h
      → d.published_version ≡ some 0
      → (d.published_json == "") ≡ true
      → IsWellFormed d
  unfolding version_or_zero
  offline-IsWellFormed d h reads w version e = record {
    history = rw reads w;
    live = (λ z. absurd (cc), λ _. rw version);
  }

  pub empty_IsHistory : IsHistory []
  empty_IsHistory = (omega arith, tt)

  is_legacy-nonempty :
      (doc : FlowDoc) (rec : Rec) → is_legacy doc rec ≡ true → (doc.dsl_json == "") ≡ false
  unfolding is_legacy
  is_legacy-nonempty doc rec e = ground arith

  pub migrate-Keeps :
      (i : String) (doc : FlowDoc) (rec : Rec) (now : String)
      → KeepsWf (migrate_legacy_published (i, doc) rec now)
  unfolding migrate_legacy_published
  migrate-Keeps i doc rec now = elim (Bool-cases (is_legacy doc rec)) [
    | inl e ↦ rw e (
        Keeps-bind _ _
          (Keeps-update i _ (λ d w.
            published-IsWellFormed _ [] 1 parse-empty empty_IsHistory refl
              (is_legacy-nonempty doc rec e) (omega arith)))
          (λ _. Keeps-pure _))
    | inr e ↦ rw e (Keeps-pure rec)
  ]

  pub get_flow-Keeps : (id now : String) → KeepsWf (get_flow id now)
  unfolding get_flow
  get_flow-Keeps id now =
      first_flow-Keeps id _ (λ i doc w. migrate-Keeps i doc (flow_from_doc doc) now)

  list_from-Keeps :
      (user : Option User) (now : String) (es : List (Entry FlowDoc))
      → KeepsWf (list_flows_from user now es)
  unfolding list_flows_from
  list_from-Keeps user now [] = Keeps-pure []
  list_from-Keeps user now ((i, doc) ∷ es) =
      Keeps-bind _ _ (migrate-Keeps i doc (flow_from_doc doc) now)
        (λ rec. Keeps-bind _ _ (list_from-Keeps user now es) (λ rest. Keeps-pure _))

  pub list_flows-Keeps : (user : Option User) (now : String) → KeepsWf (list_flows user now)
  unfolding list_flows
  list_flows-Keeps user now = Keeps-find _ _ (λ es w. list_from-Keeps user now es)

  -- An update followed by a read back, as most operations end.
  pub update_get-Keeps :
      (i id now : String) (f : FlowDoc → FlowDoc)
      → ((d : FlowDoc) → IsWellFormed d → IsWellFormed (f d))
      → KeepsWf (update_flow i f >>= λ _. get_flow id now)
  update_get-Keeps i id now f keep =
      Keeps-bind _ _ (Keeps-update i f keep) (λ _. get_flow-Keeps id now)

  insert_or_update-Keeps :
      (owner : String) (dsl : Dsl) (json now : String) (es : List (Entry FlowDoc))
      → KeepsWf (insert_or_update owner dsl json now es)
  unfolding insert_or_update
  insert_or_update-Keeps owner dsl json now [] =
      Keeps-insert _ (offline-IsWellFormed _ [] parse-empty empty_IsHistory refl refl)
  insert_or_update-Keeps owner dsl json now ((i, doc) ∷ es) =
      Keeps-refuse _ _ _
        (λ _. Keeps-update i _ (λ d w. record { history = w.history; live = w.live }))

  pub save_flow-Keeps :
      (owner : String) (dsl : Dsl) (now : String) → KeepsWf (save_flow owner dsl now)
  unfolding save_flow
  save_flow-Keeps owner dsl now = Keeps-refuse _ _ _ λ _. Keeps-lift _ _ λ json _.
      Keeps-find _ _ λ es w.
        Keeps-bind _ _ (insert_or_update-Keeps owner dsl json now es)
          (λ _. get_flow-Keeps dsl.id now)

  pub set_flow_locked-Keeps :
      (id : String) (locked : Bool) (password now : String)
      → KeepsWf (set_flow_locked id locked password now)
  unfolding set_flow_locked
  set_flow_locked-Keeps id true password now =
      first_flow-Keeps id _ λ i doc w.
        update_get-Keeps i id now _ (λ d v. record { history = v.history; live = v.live })
  set_flow_locked-Keeps id false password now = first_flow-Keeps id _ λ i doc w.
      Keeps-refuse _ _ _
        λ _. update_get-Keeps i id now _ (λ d v. record { history = v.history; live = v.live })

  pub require_group-Keeps : (id : String) → KeepsWf (require_group id)
  unfolding require_group
  require_group-Keeps id = Keeps-if (id == "") _ _ (Keeps-pure tt) (
      Keeps-bind _ _ (Keeps-find_groups _)
        (λ es. Keeps-bind _ _ (Keeps-first_group es) (λ _. Keeps-pure tt)))

  pub set_flow_group-Keeps : (id group now : String) → KeepsWf (set_flow_group id group now)
  unfolding set_flow_group
  set_flow_group-Keeps id group now = Keeps-refuse _ _ _ λ _.
      Keeps-bind _ _ (get_flow-Keeps id now) λ cur. Keeps-refuse _ _ _ λ _.
        Keeps-bind _ _ (require_group-Keeps group) λ _. first_flow-Keeps id _ λ i doc w.
          update_get-Keeps i id now _ (λ d v. record { history = v.history; live = v.live })

  pub update_each-Keeps :
      (f : FlowDoc → FlowDoc)
      → ((d : FlowDoc) → IsWellFormed d → IsWellFormed (f d))
      → (es : List (Entry FlowDoc)) → KeepsWf (update_each f es)
  unfolding update_each
  update_each-Keeps f keep [] = Keeps-pure tt
  update_each-Keeps f keep ((i, doc) ∷ es) =
      Keeps-bind _ _ (Keeps-update i f keep) (λ _. update_each-Keeps f keep es)

  pub clear_flows_group-Keeps : (group now : String) → KeepsWf (clear_flows_group group now)
  unfolding clear_flows_group
  clear_flows_group-Keeps group now = Keeps-refuse _ _ _ λ _.
      Keeps-find _ _
        λ es w. update_each-Keeps _ (λ d v. record { history = v.history; live = v.live }) es

  pub delete_flow-Keeps : (id : String) → KeepsWf (delete_flow id)
  unfolding delete_flow
  delete_flow-Keeps id = first_flow-Keeps id _ λ i doc w. Keeps-refuse _ _ _ λ _. Keeps-delete i
