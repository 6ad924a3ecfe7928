-- ===== src/Server/Threads/Consistent.antt =====
-- An invariant of the interleavings: what the router knows against what the connector holds.
use yomo.Common.{
  ℕ, ◌+◌, ◌≤◌, ◌<◌, ◌≡◌, ap, ◌≢◌, inl, inr, Bool, true, false, not, ◌&&◌, ◌||◌, Option, none, some,
  List, arith, ◌==◌, nat_key, string_key, nat_eq_iff, Option-cases, occurrences, contains,
}
use yomo.Connection.{Connection}
use yomo.Connector
use yomo.Connector.{Connector, found, get_conn, found_of}
use yomo.Connector.Closing.{done-close}
use yomo.Frame.{Tag}
use yomo.GoMap.{GoMap, get, put, has}
use yomo.GoMap.Laws.{get-put, get-delete, get-nil}
use yomo.Metadata.{M}
use yomo.Router
use yomo.Router.{Router, IsRouter, add_op, remove_op, release_op}
use yomo.Router.Rules.{rules_of}
use yomo.Router.Refine.{rules_of-add, rules_of-remove, rules_of-release, rules_of-default}
use yomo.Router.Routing.{occurrences-route, apply-IsRouter, default-IsRouter}
use yomo.Server.Threads.{
  Phase, numbered, stored, serving, leaving, ended, System, start, phase_stored, Step, Reach, here,
  next,
}

-- The phases in which a connection is in the connector.
abbrev is_in : Option Phase → Bool
is_in none = false
is_in (some numbered) = false
is_in (some stored) = true
is_in (some serving) = true
is_in (some leaving) = true
is_in (some ended) = false

abbrev observes : Router → Tag → ℕ → Bool
observes r tag j = (rules_of r).observes tag j

-- No goroutine has a number that was not given out.
record IsBounded (n : ℕ) (phases : GoMap ℕ Phase) : Type 0 where
  fresh : (j : ℕ) → n < j → get phases j ≡ none
  known : (j : ℕ) (p : Phase) → get phases j ≡ some p → j ≤ n

put-IsBounded :
    (n m : ℕ) (phases : GoMap ℕ Phase) (id : ℕ) (p : Phase)
    → id ≤ m
    → n ≤ m
    → IsBounded n phases
    → IsBounded m (put phases id p)
put-IsBounded n m phases id p h le b = record {
  fresh = λ j l. ground (arith, l, h, b.fresh j, get-put phases id j p, nat_eq_iff id j);
  known = λ j q e. ground (arith, e, h, b.known j q, get-put phases id j p, nat_eq_iff id j);
}

record IsConsistent (s : System) : Type 0 where
  served : (tag : Tag) (j : ℕ) → observes s.router tag j ≡ true → get s.phases j ≡ some serving
  kept :
      (j : ℕ)
      → s.connector.done ≡ false
      → is_in (get s.phases j) ≡ true
      → has s.connector.connections j ≡ true
  bounded : IsBounded s.increment s.phases
  router : IsRouter s.router

observes-add :
    (r : Router) (id : ℕ) (tags : List Tag) (md : M) (tag : Tag) (j : ℕ)
    → observes (Router.add r id tags md) tag j
      ≡ ((id == j && contains tags tag) || observes r tag j)
observes-add r id tags md tag j = ap (λ rules. rules.observes tag j) (rules_of-add r id tags md)

observes-remove :
    (r : Router) (id : ℕ) (tag : Tag) (j : ℕ)
    → observes (Router.remove r id) tag j ≡ (not (id == j) && observes r tag j)
observes-remove r id tag j = ap (λ rules. rules.observes tag j) (rules_of-remove r id)

observes-release : (r : Router) (tag : Tag) (j : ℕ) → observes (Router.release r) tag j ≡ false
observes-release r tag j = ap (λ rules. rules.observes tag j) (rules_of-release r)

start-IsConsistent : IsConsistent start
unfolding Connector.new
start-IsConsistent = record {
  served = λ tag j h. cc (h, ap (λ rules. rules.observes tag j) rules_of-default);
  kept = λ j o h. ground (arith, h, get-nil {V = Phase} j);
  bounded = record {
    fresh = λ j h. get-nil j;
    known = λ j p h. ground (arith, h, get-nil {V = Phase} j);
  };
  router = default-IsRouter;
}

-- A step of the goroutine `id` leaves the numbers bounded.
moved :
    {s : System} (id : ℕ) (p q : Phase)
    → IsConsistent s
    → get s.phases id ≡ some p
    → IsBounded s.increment (put s.phases id q)
moved {s} id p q c h =
    put-IsBounded s.increment s.increment s.phases id q (c.bounded.known id p h) (omega arith)
      c.bounded

Step-IsConsistent : {s t : System} → Step s t → IsConsistent s → IsConsistent t
unfolding Connector.store Connector.remove Connector.cancel
Step-IsConsistent {s} (Step.number h) c = record {
  served = λ tag j o.
      ground (
        arith,
        o,
        c.served tag j,
        get-put s.phases (s.increment + 1) j numbered,
        c.bounded.fresh j,
      );
  kept = λ j o i. ground (arith, o, i, c.kept j, get-put s.phases (s.increment + 1) j numbered);
  bounded =
      put-IsBounded s.increment (s.increment + 1) s.phases (s.increment + 1) numbered (omega arith)
        (omega arith) c.bounded;
  router = c.router;
}
Step-IsConsistent {s} (Step.store id conn h) c = record {
  served = λ tag j o. ground (
    arith,
    o,
    h,
    c.served tag j,
    nat_eq_iff id j,
    get-put s.phases id j (phase_stored s.connector.done),
  );
  kept = λ j o i. ground (
    arith,
    o,
    i,
    c.kept j,
    get-put s.phases id j (phase_stored s.connector.done),
    get-put s.connector.connections id j conn,
  );
  bounded = moved id numbered _ c h;
  router = c.router;
}
Step-IsConsistent {s} (Step.add id tags md h) c = record {
  served = λ tag j o. ground (
    arith,
    o,
    c.served tag j,
    observes-add s.router id tags md tag j,
    get-put s.phases id j serving,
  );
  kept = λ j o i. ground (arith, o, i, h, c.kept j, get-put s.phases id j serving, nat_eq_iff id j);
  bounded = moved id stored _ c h;
  router = apply-IsRouter s.router (add_op id tags md) c.router;
}
Step-IsConsistent {s} (Step.remove_rule id h) c = record {
  served = λ tag j o.
      ground (
        arith,
        o,
        c.served tag j,
        observes-remove s.router id tag j,
        get-put s.phases id j leaving,
      );
  kept = λ j o i. ground (arith, o, i, h, c.kept j, get-put s.phases id j leaving, nat_eq_iff id j);
  bounded = moved id serving _ c h;
  router = apply-IsRouter s.router (remove_op id) c.router;
}
Step-IsConsistent {s} (Step.remove_conn id h) c = record {
  served =
      λ tag j o. ground (arith, o, h, c.served tag j, get-put s.phases id j ended, nat_eq_iff id j);
  kept = λ j o i.
      ground (
        arith,
        o,
        i,
        c.kept j,
        get-put s.phases id j ended,
        get-delete s.connector.connections id j,
      );
  bounded = moved id leaving _ c h;
  router = c.router;
}
Step-IsConsistent {s} Step.cancel c = record {
  served = c.served;
  kept = λ j o i. cc;
  bounded = c.bounded;
  router = c.router;
}
Step-IsConsistent {s} Step.close c = record {
  served = c.served;
  kept = λ j o i. cc (o, done-close s.connector);
  bounded = c.bounded;
  router = c.router;
}
Step-IsConsistent {s} Step.release c = record {
  served = λ tag j o. cc (o, observes-release s.router tag j);
  kept = c.kept;
  bounded = c.bounded;
  router = apply-IsRouter s.router release_op c.router;
}

Reach-IsConsistent : {s t : System} → Reach s t → IsConsistent s → IsConsistent t
Reach-IsConsistent here c = c
Reach-IsConsistent (next r step) c = Step-IsConsistent step (Reach-IsConsistent r c)

-- However the goroutines of the connections are interleaved, as long as the connector is not
-- closed: each connection that the router returns for a frame in a state is found in the connector
-- of the same state.
pub route_found :
    {s : System} (tag : Tag) (md : M) (j : ℕ)
    → Reach start s
    → s.connector.done ≡ false
    → occurrences j (Router.route s.router tag md) ≢ 0
    → (conn : Connection) × (get_conn s.connector j ≡ found conn)
unfolding get_conn
route_found {s} tag md j r o h =
    let c = Reach-IsConsistent r start-IsConsistent in
    elim (Option-cases (get s.connector.connections j)) [
      | inl e ↦ absurd (
          ground (
            arith,
            h,
            e,
            o,
            c.served tag j,
            c.kept j,
            occurrences-route s.router tag md j c.router,
          ))
      | inr (conn, e) ↦ (conn, rw o (rw e))
    ]
