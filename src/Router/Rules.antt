-- ===== src/Router/Rules.antt =====
-- What a router promises, with no tables: which connection observes which tag, and the target that
-- it wants.
use yomo.Common.{
  ℕ, String, ◌≡◌, Bool, true, false, not, ◌&&◌, ◌||◌, Option, none, some, List, [], ◌∷◌, ◌==◌,
  nat_key, string_key, if◌then◌else◌, contains,
}
use yomo.Frame.{Tag}
use yomo.GoMap.{get, has}
use yomo.Metadata.{M, lookup, target_key, wanted_target_key}
use yomo.Metadata.Laws.{or_else}
use yomo.Router.{Router, Op, add_op, remove_op, release_op, or_empty}

pub record Rules : Type 0 where
  pub observes : Tag → ℕ → Bool
  pub wants : ℕ → Option String

abbrev pub no_rules : Rules
no_rules = record { observes = λ tag j. false; wants = λ j. none }

-- The connection observes the tags given, besides those from before; a target given replaces the
-- one from before.
abbrev pub add_rule : Rules → ℕ → List Tag → M → Rules
add_rule rules conn_id tags md = record {
  observes = λ tag j. (conn_id == j && contains tags tag) || rules.observes tag j;
  wants = λ j.
      if conn_id == j then or_else (lookup md wanted_target_key) (rules.wants j) else rules.wants j;
}

abbrev pub remove_rule : Rules → ℕ → Rules
remove_rule rules conn_id = record {
  observes = λ tag j. not (conn_id == j) && rules.observes tag j;
  wants = λ j. if conn_id == j then none else rules.wants j;
}

abbrev pub apply_rule : Rules → Op → Rules
apply_rule rules (add_op conn_id tags md) = add_rule rules conn_id tags md
apply_rule rules (remove_op conn_id) = remove_rule rules conn_id
apply_rule rules release_op = no_rules

unfoldable pub run_rules : Rules → List Op → Rules
run_rules rules [] = rules
run_rules rules (op ∷ ops) = run_rules (apply_rule rules op) ops

abbrev pub wants_it : Option String → Option String → Bool
wants_it none wanted = true
wants_it (some target) none = false
wants_it (some target) (some wanted) = wanted == target

-- A frame goes to a connection that observes its tag and, if the frame names a target, wants it.
abbrev pub receives : Rules → Tag → M → ℕ → Bool
receives rules tag md j = rules.observes tag j && wants_it (lookup md target_key) (rules.wants j)

-- The rules that a router's tables hold.
abbrev pub rules_of : Router → Rules
rules_of r = record {
  observes = λ tag j. has (or_empty (get r.table tag)) j;
  wants = λ j. get r.targets j;
}

pub Rules-path :
    (a b : Rules)
    → ((tag : Tag) (j : ℕ) → a.observes tag j ≡ b.observes tag j)
    → ((j : ℕ) → a.wants j ≡ b.wants j)
    → a ≡ b
Rules-path a b p q = λ i. record { observes = λ tag j. p tag j i; wants = λ j. q j i }
