-- ===== src/Router/Removal.antt =====
-- Routing after a removal.
use yomo.Common.{
  ℕ, ◌≡◌, refl, ◌∙◌, Bool, false, List, [], ◌∷◌, ◌++◌, arith, ◌==◌, nat_key, string_key, nat_eq_iff,
  occurrences, All,
}
use yomo.Frame.{Tag}
use yomo.Metadata.{M}
use yomo.Router.{Op, add_op, remove_op, release_op, default, route, run}
use yomo.Router.Rules.{Rules, no_rules, run_rules, apply_rule}
use yomo.Router.Routing.{occurrences-route-run}

-- None of the calls adds the connection.
abbrev pub adds : ℕ → Op → Bool
adds j (add_op conn_id tags md) = conn_id == j
adds j (remove_op conn_id) = false
adds j release_op = false

abbrev pub NotAdded : ℕ → List Op → Type 0
NotAdded j = All (λ op. adds j op ≡ false)

observes-run_rules :
    (rules : Rules) (ops : List Op) (tag : Tag) (j : ℕ)
    → rules.observes tag j ≡ false
    → NotAdded j ops
    → (run_rules rules ops).observes tag j ≡ false
unfolding run_rules
observes-run_rules rules [] tag j h n = h
observes-run_rules rules (add_op conn_id tags md ∷ ops) tag j h n =
    observes-run_rules (apply_rule rules (add_op conn_id tags md)) ops tag j (ground arith) n.1
observes-run_rules rules (remove_op conn_id ∷ ops) tag j h n =
    observes-run_rules (apply_rule rules (remove_op conn_id)) ops tag j (ground arith) n.1
observes-run_rules rules (release_op ∷ ops) tag j h n =
    observes-run_rules (apply_rule rules release_op) ops tag j refl n.1

run_rules-append :
    (rules : Rules) (ops more : List Op)
    → run_rules rules (ops ++ more) ≡ run_rules (run_rules rules ops) more
unfolding run_rules
run_rules-append rules [] more = refl
run_rules-append rules (op ∷ ops) more = run_rules-append (apply_rule rules op) ops more

-- Whatever was called before the connection was removed, and whatever is called after that other
-- than to add it, no frame is routed to it.
pub route-remove :
    (before after : List Op) (j : ℕ) (tag : Tag) (md : M)
    → NotAdded j after
    → occurrences j (route (run default (before ++ remove_op j ∷ after)) tag md) ≡ 0
route-remove before after j tag md n =
    occurrences-route-run (before ++ remove_op j ∷ after) tag md j
    ∙ rw run_rules-append (
        unfold run_rules in
        ground (
          arith,
          observes-run_rules (apply_rule (run_rules no_rules before) (remove_op j)) after tag j
              (ground (arith, nat_eq_iff j j)) n,
        ))
