-- ===== src/Router/Refine.antt =====
-- The methods of the default router against the abstract rules.
use yomo.Common.{
  ℕ, String, ◌≡◌, refl, ap, ◌∙◌, not, ◌&&◌, ◌||◌, Option, none, some, List, [], ◌∷◌, arith, ◌==◌,
  nat_key, string_key, nat_eq_iff, if◌then◌else◌, contains,
}
use yomo.Frame.{Tag}
use yomo.GoMap.{GoMap, get, put, delete, has}
use yomo.GoMap.Laws.{get-nil, get-delete, get-put}
use yomo.Metadata.{M, lookup, wanted_target_key}
use yomo.Metadata.Laws.{or_else}
use yomo.Router.{
  Router, Op, add_op, remove_op, release_op, or_empty, ConnSet, default, observe, observe_all,
  add_target, add, delete_each, remove, release, apply, run,
}
use yomo.Router.Rules.{no_rules, add_rule, remove_rule, apply_rule, run_rules, rules_of, Rules-path}

has-observe :
    (conn_id : ℕ) (table : GoMap Tag ConnSet) (t tag : Tag) (j : ℕ)
    → has (or_empty (get (observe conn_id table t) tag)) j
      ≡ ((conn_id == j && t == tag) || has (or_empty (get table tag)) j)
unfolding observe
has-observe conn_id table t tag j = ground (
  arith,
  get-put table t tag (put (or_empty (get table t)) conn_id tt),
  get-put (or_empty (get table t)) conn_id j tt,
  nat_eq_iff t tag,
)

pub has-observe_all :
    (conn_id : ℕ) (table : GoMap Tag ConnSet) (tags : List Tag) (tag : Tag) (j : ℕ)
    → has (or_empty (get (observe_all conn_id table tags) tag)) j
      ≡ ((conn_id == j && contains tags tag) || has (or_empty (get table tag)) j)
unfolding observe_all contains
has-observe_all conn_id table [] tag j = ground arith
has-observe_all conn_id table (t ∷ tags) tag j = ground (
  arith,
  has-observe_all conn_id (observe conn_id table t) tags tag j,
  has-observe conn_id table t tag j,
)

get-add_target :
    (targets : GoMap ℕ String) (conn_id j : ℕ) (o : Option String)
    → get (add_target targets conn_id o) j
      ≡ (if conn_id == j then or_else o (get targets j) else get targets j)
unfolding add_target
get-add_target targets conn_id j none = ground arith
get-add_target targets conn_id j (some target) = ground (arith, get-put targets conn_id j target)

pub rules_of-add :
    (r : Router) (conn_id : ℕ) (tags : List Tag) (md : M)
    → rules_of (add r conn_id tags md) ≡ add_rule (rules_of r) conn_id tags md
unfolding add
rules_of-add r conn_id tags md =
    Rules-path _ _ (has-observe_all conn_id r.table tags)
      (λ j. get-add_target r.targets conn_id j (lookup md wanted_target_key))

abbrev pub without : ℕ → Option ConnSet → Option ConnSet
without conn_id none = none
without conn_id (some conns) = some (delete conns conn_id)

pub get-delete_each :
    (conn_id : ℕ) (table : GoMap Tag ConnSet) (tag : Tag)
    → get (delete_each conn_id table) tag ≡ without conn_id (get table tag)
unfolding delete_each get
get-delete_each conn_id [] tag = refl
get-delete_each conn_id ((t, conns) ∷ table) tag = ground (arith, get-delete_each conn_id table tag)

has-without :
    (conn_id j : ℕ) (o : Option ConnSet)
    → has (or_empty (without conn_id o)) j ≡ (not (conn_id == j) && has (or_empty o) j)
has-without conn_id j none = ground (arith, get-nil {V = Unit {0}} j)
has-without conn_id j (some conns) = ground (arith, get-delete conns conn_id j)

pub rules_of-remove :
    (r : Router) (conn_id : ℕ) → rules_of (remove r conn_id) ≡ remove_rule (rules_of r) conn_id
unfolding remove
rules_of-remove r conn_id =
    Rules-path _ _
      (λ tag j. rw (get-delete_each conn_id r.table tag) (has-without conn_id j (get r.table tag)))
      (λ j. get-delete r.targets conn_id j)

rules_of-empty : (r : Router) → r.targets ≡ [] → r.table ≡ [] → rules_of r ≡ no_rules
rules_of-empty r p q =
    Rules-path _ _
      (λ tag j. ground (arith, p, q, get-nil {V = ConnSet} tag, get-nil {V = Unit {0}} j))
      (λ j. ground (arith, p, get-nil {V = String} j))

pub rules_of-release : (r : Router) → rules_of (release r) ≡ no_rules
unfolding release
rules_of-release r = rules_of-empty _ refl refl

pub rules_of-default : rules_of default ≡ no_rules
unfolding default
rules_of-default = rules_of-empty _ refl refl

pub rules_of-apply : (r : Router) (op : Op) → rules_of (apply r op) ≡ apply_rule (rules_of r) op
rules_of-apply r (add_op conn_id tags md) = rules_of-add r conn_id tags md
rules_of-apply r (remove_op conn_id) = rules_of-remove r conn_id
rules_of-apply r release_op = rules_of-release r

-- The default router, seen as the abstract rules it holds, implements every sequence of calls: the
-- rules after the calls are those that the abstract calls make.
pub rules_of-run : (r : Router) (ops : List Op) → rules_of (run r ops) ≡ run_rules (rules_of r) ops
unfolding run run_rules
rules_of-run r [] = refl
rules_of-run r (op ∷ ops) =
    rules_of-run (apply r op) ops ∙ ap (λ rules. run_rules rules ops) (rules_of-apply r op)
