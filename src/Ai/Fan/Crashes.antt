-- ===== src/Ai/Fan/Crashes.antt =====
-- Answers that come before they are counted, and answers beyond those that are counted.
use mathlib.Core.Path.{subst}
use yomo.Common.{
  ℕ, String, ◌≡◌, refl, sym, ap, ◌∙◌, ◌≢◌, ◌↔◌, Option, none, some, List, [], ◌∷◌, arith, nat_key,
  string_key, same_iff,
}
use yomo.Errors.{ok}
use yomo.Try.{panics, ◌>>=◌}
use yomo.Frame.{Tag}
use yomo.GoMap.{GoMap, get}
use yomo.GoMap.Laws.{get-put}
use yomo.Ai.{FunctionCall, ToolMessage, ToolCall}
use yomo.Ai.Fan.{
  AsyncCall, CallCache, Firing, firings, add_answer, reduce_at, reduce, Phase, firing, adding,
  returned, crashed, Request, after_fire, start, Step, fire, crash, Reach, here, next,
}
use yomo.Ai.Fan.Balance.{Reach-Balanced, start-Balanced, Settled}

-- The entry that an answer meets has nothing left to wait for.
abbrev pub Spent : Option AsyncCall → Type 0
Spent none = ⊥
Spent (some c) = c.counter ≡ 0

add_answer-panics :
    (c : AsyncCall) (invoke : FunctionCall) → (add_answer c invoke ≡ panics) ↔ (c.counter ≡ 0)
unfolding add_answer
add_answer-panics c invoke = (λ h. ground (arith, h), λ h. ground (arith, h))

reduce_at-panics :
    (cache : CallCache) (o : Option AsyncCall) (invoke : FunctionCall)
    → (reduce_at cache o invoke ≡ panics) ↔ Spent o
unfolding reduce_at ◌>>=◌ add_answer
reduce_at-panics cache none invoke = (λ h. cc, λ h. absurd h)
reduce_at-panics cache (some c) invoke = (λ h. ground (arith, h), λ h. ground (arith, h))

-- An answer makes the reducer panic exactly when the request it names is in the cache and has a
-- counter of zero.
pub reduce-panics :
    (cache : CallCache) (invoke : FunctionCall)
    → (reduce cache (ok invoke) ≡ panics) ↔ Spent (get cache invoke.req_id)
unfolding reduce
reduce-panics cache invoke = reduce_at-panics cache (get cache invoke.req_id) invoke

adding-ne-crashed : {p : Phase} {tag : Tag} {rest : List Firing} → p ≡ adding tag rest → p ≢ crashed
adding-ne-crashed h q = cc

returned-ne-crashed : {p : Phase} {ms : List ToolMessage} → p ≡ returned ms → p ≢ crashed
returned-ne-crashed h q = cc

-- The answer to the first call of a request that comes between the Write of the call and the Add
-- for it, which the code makes in this order, takes the process down.
pub start_crashes :
    (cache : CallCache) (f : Tag × List ToolCall) (fns : GoMap Tag (List ToolCall))
    (trans_id : String) (invoke : FunctionCall) (g : Firing) (rest : List Firing)
    → firings (f ∷ fns) ≡ g ∷ rest
    → (t : Request) × Reach (start cache (f ∷ fns) trans_id invoke.req_id []) 2 t
      × (t.phase ≡ crashed)
unfolding start after_fire
start_crashes cache f fns trans_id invoke (tag, fn) rest e =
    let s = start cache (f ∷ fns) trans_id invoke.req_id [] in
    let t = after_fire s none (tag, fn) rest (invoke ∷ []) in
    let fired : Step s t = fire (tag, fn) rest none (invoke ∷ []) (ap firing e) in
    let c : AsyncCall = record { counter = 0; val = [] } in
    let found : get t.cache invoke.req_id ≡ some c =
      ground (
        arith,
        get-put cache invoke.req_id invoke.req_id c,
        same_iff invoke.req_id invoke.req_id,
      ) in
    let spent = subst Spent (sym found) refl in
    let gone =
      crash [] invoke [] (adding-ne-crashed refl) refl ((reduce-panics t.cache invoke).1 spent) in
    (record t { phase = crashed }, next (next here fired) gone, refl)

-- After a request with calls has returned, its entry is still in the cache: one more answer to it
-- takes the process down.
pub returned_crashes :
    (cache : CallCache) (f : Tag × List ToolCall) (fns : GoMap Tag (List ToolCall))
    (trans_id req_id : String) (flight rest : List FunctionCall) {n : ℕ} {s : Request}
    (ms : List ToolMessage) (invoke : FunctionCall)
    → Reach (start cache (f ∷ fns) trans_id req_id flight) n s
    → s.phase ≡ returned ms
    → s.flight ≡ invoke ∷ rest
    → invoke.req_id ≡ s.req_id
    → (t : Request) × Step s t × (t.phase ≡ crashed)
returned_crashes cache f fns trans_id req_id flight rest {n} {s} ms invoke r p q e =
    let b = Reach-Balanced r (start-Balanced cache f fns trans_id req_id flight) in
    let z = (subst (Settled b.entry) p b.settled).0 in
    let found : get s.cache invoke.req_id ≡ some b.entry = ap (get s.cache) e ∙ b.present in
    let gone =
      crash [] invoke rest (returned-ne-crashed p) q
        ((reduce-panics s.cache invoke).1 (subst Spent (sym found) z)) in
    (record s { phase = crashed }, gone, refl)
