-- ===== src/Examples/Routers.antt =====
-- The router at concrete inputs.
use yomo.Common.{◌≡◌, refl, List, [], ◌∷◌, ◌++◌, nat_key, string_key, if◌then◌else◌, occurrences}
use yomo.GoMap.{get, put, delete}
use yomo.Metadata.{M, nil, made, target_key, wanted_target_key, lookup}
use yomo.Router.{
  Op, add_op, remove_op, route, run, default, add, accepts, collect, observe, observe_all,
  add_target,
}
use yomo.Router.Rules.{no_rules, run_rules, receives, rules_of}
use yomo.Router.Refine.{rules_of-run}
use yomo.Router.Routing.{occurrences-route-run}
use yomo.Router.Removal.{route-remove}

-- Two connections observe tag 7, and the second one wants the target "b".
abbrev calls : List Op
calls = add_op 1 (7 ∷ 8 ∷ []) nil ∷ add_op 2 (7 ∷ []) (made ((wanted_target_key, "b") ∷ [])) ∷ []

abbrev for_b : M
for_b = made ((target_key, "b") ∷ [])

routes_all : route (run default calls) 7 nil ≡ 2 ∷ 1 ∷ []
unfolding route run default add collect accepts observe observe_all add_target lookup get put delete
routes_all = refl

routes_target : route (run default calls) 7 for_b ≡ 2 ∷ []
unfolding route run default add collect accepts observe observe_all add_target lookup get put delete
routes_target = refl

occurrences-route-run_example :
    occurrences 2 (route (run default calls) 7 for_b)
    ≡ (if receives (run_rules no_rules calls) 7 for_b 2 then 1 else 0)
occurrences-route-run_example = occurrences-route-run calls 7 for_b 2

rules_of-run_example : rules_of (run default calls) ≡ run_rules (rules_of default) calls
rules_of-run_example = rules_of-run default calls

route-remove_example :
    occurrences 2 (route (run default (calls ++ remove_op 2 ∷ add_op 3 (7 ∷ []) nil ∷ [])) 7 nil)
    ≡ 0
route-remove_example = route-remove calls (add_op 3 (7 ∷ []) nil ∷ []) 2 7 nil (refl, tt)
