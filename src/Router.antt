-- ===== src/Router.antt =====
-- core/router/router.go: the default router. The mutex makes each method one step, so a method is
-- a function on the router's state.
pub mod Rules
pub mod Refine
pub mod Routing
pub mod Removal
use yomo.Common.{
  ℕ, String, Bool, true, false, Option, none, some, List, [], ◌∷◌, ◌==◌, nat_key, string_key,
  if◌then◌else◌,
}
use yomo.GoMap.{GoMap, get, put, delete, IsMap}
use yomo.Frame.{Tag}
use yomo.Metadata.{M, lookup, target_key, wanted_target_key}

-- The keys of `map[uint64]struct{}`.
abbrev pub ConnSet : Type 0
ConnSet = GoMap ℕ (Unit {0})

-- `table` is the field `data`.
pub record Router : Type 0 where
  pub targets : GoMap ℕ String
  pub table : GoMap Tag ConnSet

-- Default()
unfoldable pub default : Router
default = record { targets = []; table = [] }

-- conns := r.data[tag], made if it is nil
abbrev pub or_empty : Option ConnSet → ConnSet
or_empty none = []
or_empty (some conns) = conns

-- One round of the loop of `Add`.
unfoldable pub observe : ℕ → GoMap Tag ConnSet → Tag → GoMap Tag ConnSet
observe conn_id table tag = put table tag (put (or_empty (get table tag)) conn_id tt)

unfoldable pub observe_all : ℕ → GoMap Tag ConnSet → List Tag → GoMap Tag ConnSet
observe_all conn_id table [] = table
observe_all conn_id table (tag ∷ tags) = observe_all conn_id (observe conn_id table tag) tags

unfoldable pub add_target : GoMap ℕ String → ℕ → Option String → GoMap ℕ String
add_target targets conn_id none = targets
add_target targets conn_id (some target) = put targets conn_id target

-- r.Add(connID, observeDataTags, md), whose error is always nil
unfoldable pub add : Router → ℕ → List Tag → M → Router
add r conn_id tags md = record {
  targets = add_target r.targets conn_id (lookup md wanted_target_key);
  table = observe_all conn_id r.table tags;
}

-- The test in the loop of `Route`: `target, existed` come from the frame's metadata.
unfoldable pub accepts : GoMap ℕ String → Option String → ℕ → Bool
accepts targets none k = true
accepts targets (some target) k = elim (get targets k) [
  | none ↦ false
  | some wanted ↦ wanted == target
]

-- The loop of `Route`.
unfoldable pub collect : (ℕ → Bool) → ConnSet → List ℕ
collect keep [] = []
collect keep ((k, _) ∷ conns) =
    let others = collect keep conns in if keep k then k ∷ others else others

-- `if conns, ok := r.data[dataTag]; ok`
abbrev pub collect_from : (ℕ → Bool) → Option ConnSet → List ℕ
collect_from keep none = []
collect_from keep (some conns) = collect keep conns

-- r.Route(dataTag, md)
unfoldable pub route : Router → Tag → M → List ℕ
route r tag md = collect_from (accepts r.targets (lookup md target_key)) (get r.table tag)

-- The loop of `Remove`.
unfoldable pub delete_each : ℕ → GoMap Tag ConnSet → GoMap Tag ConnSet
delete_each conn_id [] = []
delete_each conn_id ((tag, conns) ∷ table) = (tag, delete conns conn_id) ∷ delete_each conn_id table

-- r.Remove(connID)
unfoldable pub remove : Router → ℕ → Router
remove r conn_id = record {
  targets = delete r.targets conn_id;
  table = delete_each conn_id r.table;
}

-- r.Release()
unfoldable pub release : Router → Router
release r = record { targets = []; table = [] }

-- The calls that change a router.
pub data Op : Type 0 where
  add_op : ℕ → List Tag → M → Op
  remove_op : ℕ → Op
  release_op : Op

abbrev pub apply : Router → Op → Router
apply r (add_op conn_id tags md) = add r conn_id tags md
apply r (remove_op conn_id) = remove r conn_id
apply r release_op = release r

-- The router after some calls.
unfoldable pub run : Router → List Op → Router
run r [] = r
run r (op ∷ ops) = run (apply r op) ops

-- The sets of connections hold each connection once.
pub record IsRouter (r : Router) : Type 0 where
  pub at_tag : (tag : Tag) → IsMap (or_empty (get r.table tag))
