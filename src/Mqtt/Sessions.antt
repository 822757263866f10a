-- ===== src/Mqtt/Sessions.antt =====
-- internal/mqttendpoint/draft_session.go: which flows the editors have open, behind `sessionMu`. A
-- set of flow ids is a list without repetitions. Go's counts are ints; one is lowered below zero
-- nowhere, since `decrement` deletes a count that would be zero or less.
use flowgo_server.Prelude.{
  ℕ, ◌+◌, ◌-◌, String, ◌==◌, Bool, false, not, Option, none, some, List, [], ◌∷◌, if◌then◌else◌,
  nat_eq, ltb, select, contains, GoMap, lookup, delete, put,
}

-- The fields `sessions` and `openCount` of Manager.
pub record Editors : Type 0 where
  pub sessions : GoMap (List String)
  pub open_count : GoMap ℕ

abbrev pub no_editors : Editors
no_editors = record { sessions = []; open_count = [] }

-- A missing count is zero.
abbrev pub or_zero : Option ℕ → ℕ
or_zero none = 0
or_zero (some n) = n

-- m.openCount[id]
unfoldable pub count_of : String → GoMap ℕ → ℕ
count_of id counts = or_zero (lookup id counts)

abbrev pub set_or_empty : Option (List String) → List String
set_or_empty none = []
set_or_empty (some ids) = ids

-- The flows that a session has open.
unfoldable pub opened_by : String → GoMap (List String) → List String
opened_by session_id sessions = set_or_empty (lookup session_id sessions)

unfoldable pub unique_from : List String → List String → List String
unique_from seen [] = []
unique_from seen (id ∷ ids) =
    if id == ""
    then unique_from seen ids
    else if contains seen id
    then unique_from seen ids
    else id ∷ unique_from (id ∷ seen) ids

-- uniqueNonEmpty
unfoldable pub unique_nonempty : List String → List String
unfolding unique_from
unique_nonempty ids = unique_from [] ids

-- diffFlowSets, by its two results
unfoldable pub added_flows : List String → List String → List String
added_flows old wanted = select (λ id. not (contains old id)) wanted

unfoldable pub removed_flows : List String → List String → List String
removed_flows old wanted = select (λ id. not (contains wanted id)) old

-- `m.openCount[id]--`, deleted at zero or below
unfoldable pub decrement : String → GoMap ℕ → GoMap ℕ
decrement id counts =
    if nat_eq (count_of id counts - 1) 0
    then delete id counts
    else put id (count_of id counts - 1) counts

unfoldable pub decrements : List String → GoMap ℕ → GoMap ℕ
decrements [] counts = counts
decrements (id ∷ ids) counts = decrements ids (decrement id counts)

-- `m.openCount[id]++`
unfoldable pub increment : String → GoMap ℕ → GoMap ℕ
increment id counts = put id (count_of id counts + 1) counts

unfoldable pub increments : List String → GoMap ℕ → GoMap ℕ
increments [] counts = counts
increments (id ∷ ids) counts = increments ids (increment id counts)

-- The locked part of UpdateSessionOpenFlows.
unfoldable pub set_open : String → List String → Editors → Editors
set_open session_id wanted e =
    let old = opened_by session_id e.sessions in
    record {
      sessions = put session_id wanted e.sessions;
      open_count =
          increments (added_flows old wanted) (decrements (removed_flows old wanted) e.open_count);
    }

-- toClose and toOpen of UpdateSessionOpenFlows, from the counts after it.
unfoldable pub to_close : List String → List String → GoMap ℕ → List String
to_close old wanted counts = select (λ id. nat_eq (count_of id counts) 0) (removed_flows old wanted)

unfoldable pub to_open : List String → List String → GoMap ℕ → List String
to_open old wanted counts = select (λ id. nat_eq (count_of id counts) 1) (added_flows old wanted)

-- The locked part of ReleaseSession.
unfoldable pub drop_session : String → Editors → Editors
drop_session session_id e = record {
  sessions = delete session_id e.sessions;
  open_count = decrements (opened_by session_id e.sessions) e.open_count;
}

-- toClose of ReleaseSession: the flows whose count is gone when its turn comes.
unfoldable pub gone : List String → GoMap ℕ → List String
gone [] counts = []
gone (id ∷ ids) counts =
    if nat_eq (count_of id counts - 1) 0
    then id ∷ gone ids (decrement id counts)
    else gone ids (decrement id counts)

-- IsDraftOpen
unfoldable pub is_draft_open : String → Editors → Bool
is_draft_open flow_id e = if flow_id == "" then false else ltb 0 (count_of flow_id e.open_count)
