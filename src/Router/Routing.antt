-- ===== src/Router/Routing.antt =====
-- `Route` against the abstract rules.
use yomo.Common.{
  ℕ, String, ◌≡◌, refl, ap, ◌∙◌, Bool, true, false, ◌&&◌, Option, none, some, List, [], ◌∷◌, arith,
  ◌==◌, nat_key, string_key, nat_eq_iff, if◌then◌else◌, occurrences,
}
use yomo.Frame.{Tag}
use yomo.GoMap.{GoMap, get, put, has, IsMap}
use yomo.GoMap.Laws.{get-nil, get-put, delete-IsMap, put-IsMap}
use yomo.Metadata.{M, lookup, target_key}
use yomo.Router.{
  Router, Op, add_op, remove_op, release_op, or_empty, ConnSet, default, observe, observe_all, add,
  accepts, collect, collect_from, route, remove, release, apply, run, IsRouter,
}
use yomo.Router.Rules.{no_rules, run_rules, wants_it, receives, rules_of}
use yomo.Router.Refine.{get-delete_each, without, rules_of-run, rules_of-default}

-- Every tag's set of connections holds each connection once.
abbrev HoldsMaps : GoMap Tag ConnSet → Type 0
HoldsMaps table = (tag : Tag) → IsMap (or_empty (get table tag))

if-IsMap :
    (b : Bool) (x y : Option ConnSet)
    → IsMap (or_empty x)
    → IsMap (or_empty y)
    → IsMap (or_empty (if b then x else y))
if-IsMap true x y hx hy = hx
if-IsMap false x y hx hy = hy

observe-HoldsMaps :
    (conn_id : ℕ) (table : GoMap Tag ConnSet) (t : Tag)
    → HoldsMaps table
    → HoldsMaps (observe conn_id table t)
unfolding observe
observe-HoldsMaps conn_id table t h tag = rw get-put (
    if-IsMap (t == tag) (some (put (or_empty (get table t)) conn_id tt)) (get table tag)
      (put-IsMap _ conn_id tt (h t)) (h tag))

observe_all-HoldsMaps :
    (conn_id : ℕ) (table : GoMap Tag ConnSet) (tags : List Tag)
    → HoldsMaps table
    → HoldsMaps (observe_all conn_id table tags)
unfolding observe_all
observe_all-HoldsMaps conn_id table [] h = h
observe_all-HoldsMaps conn_id table (t ∷ tags) h =
    observe_all-HoldsMaps conn_id (observe conn_id table t) tags
      (observe-HoldsMaps conn_id table t h)

without-IsMap :
    (conn_id : ℕ) (o : Option ConnSet) → IsMap (or_empty o) → IsMap (or_empty (without conn_id o))
without-IsMap conn_id none h = h
without-IsMap conn_id (some conns) h = delete-IsMap conns conn_id h

nil-HoldsMaps : HoldsMaps []
nil-HoldsMaps tag = rw get-nil tt

pub apply-IsRouter : (r : Router) (op : Op) → IsRouter r → IsRouter (apply r op)
unfolding add remove release
apply-IsRouter r (add_op conn_id tags md) h = record {
  at_tag = observe_all-HoldsMaps conn_id r.table tags h.at_tag;
}
apply-IsRouter r (remove_op conn_id) h = record {
  at_tag = λ tag. rw get-delete_each (without-IsMap conn_id (get r.table tag) (h.at_tag tag));
}
apply-IsRouter r release_op h = record { at_tag = nil-HoldsMaps }

pub run-IsRouter : (r : Router) (ops : List Op) → IsRouter r → IsRouter (run r ops)
unfolding run
run-IsRouter r [] h = h
run-IsRouter r (op ∷ ops) h = run-IsRouter (apply r op) ops (apply-IsRouter r op h)

pub default-IsRouter : IsRouter default
unfolding default
default-IsRouter = record { at_tag = nil-HoldsMaps }

occurrences-collect :
    (keep : ℕ → Bool) (conns : ConnSet) (j : ℕ)
    → IsMap conns
    → occurrences j (collect keep conns) ≡ (if has conns j && keep j then 1 else 0)
unfolding occurrences collect get
occurrences-collect keep [] j h = ground arith
occurrences-collect keep ((k, u) ∷ conns) j h =
    ground (arith, occurrences-collect keep conns j h.1, h.0, nat_eq_iff k j)

accepts-eq-wants_it :
    (targets : GoMap ℕ String) (o : Option String) (j : ℕ)
    → accepts targets o j ≡ wants_it o (get targets j)
unfolding accepts
accepts-eq-wants_it targets none j = refl
accepts-eq-wants_it targets (some target) j = ground arith

occurrences-collect_from :
    (keep : ℕ → Bool) (o : Option ConnSet) (j : ℕ)
    → IsMap (or_empty o)
    → occurrences j (collect_from keep o) ≡ (if has (or_empty o) j && keep j then 1 else 0)
unfolding occurrences get
occurrences-collect_from keep none j h = ground arith
occurrences-collect_from keep (some conns) j h = occurrences-collect keep conns j h

-- A connection stands in the result of `Route` once if it observes the tag and, where the frame
-- names a target, wants that target; otherwise it does not stand there.
pub occurrences-route :
    (r : Router) (tag : Tag) (md : M) (j : ℕ)
    → IsRouter r
    → occurrences j (route r tag md) ≡ (if receives (rules_of r) tag md j then 1 else 0)
unfolding route
occurrences-route r tag md j h = rw (← accepts-eq-wants_it r.targets (lookup md target_key) j) (
    occurrences-collect_from (accepts r.targets (lookup md target_key)) (get r.table tag) j
      (h.at_tag tag))

-- After any calls on a new router, a frame goes to exactly the connections that the rules given
-- by those calls let receive it, to each of them once.
pub occurrences-route-run :
    (ops : List Op) (tag : Tag) (md : M) (j : ℕ)
    → occurrences j (route (run default ops) tag md)
      ≡ (if receives (run_rules no_rules ops) tag md j then 1 else 0)
occurrences-route-run ops tag md j =
    occurrences-route (run default ops) tag md j (run-IsRouter default ops default-IsRouter)
    ∙ ap (λ rules. if receives rules tag md j then 1 else 0)
        (rules_of-run default ops ∙ ap (λ rules. run_rules rules ops) rules_of-default)
