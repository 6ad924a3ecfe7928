-- ===== src/Server/Routers.antt =====
-- The interface `Router` of core/router/router.go as the server uses it, its promise, and the
-- default router as an implementation.
use yomo.Common.{ℕ, ◌≡◌, Option, none, some, List, nat_key, string_key, if◌then◌else◌, occurrences}
use yomo.Errors.{Error}
use yomo.Frame.{Tag}
use yomo.Metadata.{M}
use yomo.Router.{Router, add, route, remove, release, IsRouter, add_op, remove_op}
use yomo.Router.Rules.{Rules, add_rule, remove_rule, receives, rules_of}
use yomo.Router.Refine.{rules_of-add, rules_of-remove}
use yomo.Router.Routing.{occurrences-route, apply-IsRouter}

pub record RouterImpl : Type 1 where
  pub State : Type 0
  pub add : State → ℕ → List Tag → M → State × Option Error
  pub route : State → Tag → M → List ℕ
  pub remove : State → ℕ → State
  pub release : State → State

-- What the comments of the interface say of an implementation: it keeps rules, which the methods
-- change, and routes by them. An `Add` that fails adds no rule.
pub record RouterLaws (R : RouterImpl) : Type 1 where
  pub rules : R.State → Rules
  pub IsState : R.State → Type 0
  pub add-IsState :
      (s : R.State) (id : ℕ) (tags : List Tag) (md : M) → IsState s → IsState (R.add s id tags md).0
  pub remove-IsState : (s : R.State) (id : ℕ) → IsState s → IsState (R.remove s id)
  pub rules-add :
      (s : R.State) (id : ℕ) (tags : List Tag) (md : M)
      → (R.add s id tags md).1 ≡ none
      → rules (R.add s id tags md).0 ≡ add_rule (rules s) id tags md
  pub rules-add_fails :
      (s : R.State) (id : ℕ) (tags : List Tag) (md : M) (e : Error)
      → (R.add s id tags md).1 ≡ some e
      → rules (R.add s id tags md).0 ≡ rules s
  pub rules-remove : (s : R.State) (id : ℕ) → rules (R.remove s id) ≡ remove_rule (rules s) id
  pub occurrences-route :
      (s : R.State) (tag : Tag) (md : M) (j : ℕ)
      → IsState s
      → occurrences j (R.route s tag md) ≡ (if receives (rules s) tag md j then 1 else 0)

-- router.Default()
abbrev pub default_impl : RouterImpl
default_impl = record {
  State = Router;
  add = λ r id tags md. (add r id tags md, none);
  route = route;
  remove = remove;
  release = release;
}

pub default-add_fails :
    (s : Router) (id : ℕ) (tags : List Tag) (md : M) (e : Error)
    → ◌≡◌ {A = Option Error} none (some e)
    → rules_of (add s id tags md) ≡ rules_of s
default-add_fails s id tags md e h = cc

abbrev pub default_laws : RouterLaws default_impl
default_laws = record {
  rules = rules_of;
  IsState = IsRouter;
  add-IsState = λ s id tags md h. apply-IsRouter s (add_op id tags md) h;
  remove-IsState = λ s id h. apply-IsRouter s (remove_op id) h;
  rules-add = λ s id tags md h. rules_of-add s id tags md;
  rules-add_fails = default-add_fails;
  rules-remove = rules_of-remove;
  occurrences-route = occurrences-route;
}
