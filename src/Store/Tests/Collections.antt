-- ===== src/Store/Tests/Collections.antt =====
-- The calls on users and groups run.
use flowgo_server.Prelude.{◌≡◌, refl, ◌==◌, false, [], ◌∷◌, arith}
use flowgo_server.Store.Backend.{StoreDb}
use flowgo_server.Store.Exec.{◌>>=◌, pure}
use flowgo_server.Store.Exec.{find_groups}
use flowgo_server.Prelude.{String, List}
use flowgo_server.Store.Sample.{sample}
use mathlib.Core.List.{Perm}
use flowgo_server.Clover.{Entry}
use flowgo_server.Store.Docs.{GroupDoc}
use flowgo_server.Store.Group.{group_from_doc, group_less, sink, sort_from, list_groups}
use flowgo_server.Store.GroupOrder.{TextOrder, IsOrdered, list_groups-IsOrdered}
use flowgo_server.Prelude.{ℕ, Bool, not, ◌&&◌, map}
use flowgo_server.Store.Usernames.{named, HasUniqueNames}
use flowgo_server.Store.UserCalls.{
  UserOp, creates, ensures_admin, run_user_ops, run_user_ops-HasUniqueNames,
}

abbrev empty : StoreDb sample
empty = record { flows = []; groups = []; users = [] }

-- A second user of the name is refused.
abbrev user_ops : List (UserOp ⦃b = sample⦄)
user_ops = ensures_admin "t0" ∷ creates "ann" "p" "" [] "t1" ∷ creates "ann" "q" "" [] "t2" ∷ []

no_users-HasUniqueNames : HasUniqueNames ⦃b = sample⦄ empty
unfolding named
no_users-HasUniqueNames username = omega arith

run_user_ops-HasUniqueNames_example :
    HasUniqueNames ⦃b = sample⦄ (run_user_ops ⦃b = sample⦄ user_ops empty)
run_user_ops-HasUniqueNames_example =
    run_user_ops-HasUniqueNames ⦃b = sample⦄ user_ops empty no_users-HasUniqueNames

-- An order on texts that puts "a" before the others.
abbrev a_first : String → String → Bool
a_first s t = s == "a" && not (t == "a")

a_first-order : TextOrder a_first
a_first-order = record {
  asym = λ s t h. ground (arith, h);
  between = λ s t u h k. ground (arith, h, k);
}

abbrev group_doc : String → ℕ → GroupDoc
group_doc name sort = record {
  group_id = name;
  name = name;
  sort = sort;
  system = false;
  created_at = "t0";
  updated_at = "t0";
}

abbrev grouped : StoreDb sample
grouped = record {
  flows = [];
  groups = ("1", group_doc "b" 7) ∷ ("2", group_doc "b" 0) ∷ ("3", group_doc "a" 0) ∷ [];
  users = [];
}

list_groups-IsOrdered_example :
    let out =
      group_from_doc (group_doc "a" 0)
      ∷ group_from_doc (group_doc "b" 0)
      ∷ group_from_doc (group_doc "b" 7)
      ∷ [] in
    (grouped ≡ grouped)
    × Perm out
        (map (λ (e : Entry GroupDoc). group_from_doc e.1) (sample.groups.contents grouped.groups))
    × IsOrdered (λ s. s) a_first a_first-order out
unfolding list_groups find_groups ◌>>=◌ pure sort_from sink group_less group_from_doc
list_groups-IsOrdered_example =
    list_groups-IsOrdered (λ s. s) a_first a_first-order ⦃b = sample⦄ grouped grouped _ refl
