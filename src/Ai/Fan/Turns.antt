-- ===== src/Ai/Fan/Turns.antt =====
-- How many steps a request takes, and where it can stay.
use yomo.Common.{
  ℕ, suc, ◌+◌, ◌-◌, ◌≤◌, ◌<◌, String, ◌≡◌, refl, sym, ap, ◌∙◌, ◌≢◌, none, some, List, [], ◌∷◌, ◌++◌,
  arith, nat_key, string_key, same_iff, length, All,
}
use yomo.Errors.{ok}
use yomo.Try.{returns, ◌>>=◌}
use yomo.GoMap.{get, put}
use yomo.GoMap.Laws.{get-put}
use yomo.Ai.{FunctionCall, ToolMessage}
use yomo.Ai.Fan.{
  AsyncCall, CallCache, add_answer, reduce_at, reduce, Phase, firing, adding, waiting, returned,
  crashed, Request, after_fire, add_factor, messages, note_answer, own, Step, fire, add, end_loop,
  wait, receive, crash, Reach, here, next,
}

-- The request's own steps that are left, with the one of a crash.
abbrev pub weight : Phase → ℕ
weight (firing rest) = length rest + length rest + 3
weight (adding tag rest) = length rest + length rest + 4
weight waiting = 2
weight (returned ms) = 1
weight crashed = 0

positive : (p : Phase) → p ≢ crashed → 1 ≤ weight p
positive (firing rest) h = omega arith
positive (adding tag rest) h = omega arith
positive waiting h = omega arith
positive (returned ms) h = omega arith
positive crashed h = absurd (h refl)

Step-weight : {s t : Request} → Step s t → weight t.phase + s.taken + 1 ≤ weight s.phase + t.taken
unfolding after_fire add_factor
Step-weight (fire f rest (some e) answers p) = rw p (omega arith)
Step-weight (fire f rest none answers p) = rw p (omega arith)
Step-weight (add r tag rest p) = rw p (omega arith)
Step-weight (end_loop p) = rw p (omega arith)
Step-weight (wait p z) = rw p (omega arith)
Step-weight (receive before invoke after cache n e r) = omega arith
Step-weight {s} (crash before invoke after n e r) = omega (arith, positive s.phase n)

-- However the request and the reducer interleave, a run is finite: beside the answers that the
-- reducer takes, it has two steps for each call and three more at most.
pub Reach-bounded :
    {s t : Request} {n : ℕ} → Reach s n t → n + weight t.phase + s.taken ≤ weight s.phase + t.taken
Reach-bounded here = omega arith
Reach-bounded (next r st) = omega (arith, Reach-bounded r, Step-weight st)

-- Neither returned nor gone.
abbrev pub Running : Phase → Type 0
Running (firing rest) = Unit
Running (adding tag rest) = Unit
Running waiting = Unit
Running (returned ms) = ⊥
Running crashed = ⊥

append-ne-nil {ℓ} : {A : Type ℓ} (xs ys : List A) (y : A) → [] ≢ xs ++ y ∷ ys
append-ne-nil [] ys y h = cc
append-ne-nil (x ∷ xs) ys y h = cc

-- While an answer is awaited and none is on its way, the request stays where it is: there is no
-- step, neither of its own nor of the reducer, and no time limit that would end it.
pub waiting_stays :
    {s t : Request} → s.phase ≡ waiting → 0 < (own s).counter → s.flight ≡ [] → ¬ Step s t
waiting_stays p c f (fire x rest write answers q) = cc
waiting_stays p c f (add r tag rest q) = cc
waiting_stays p c f (end_loop q) = cc
waiting_stays p c f (wait q z) = omega arith
waiting_stays p c f (receive before invoke after cache n e r) =
    append-ne-nil before after invoke (sym f ∙ e)
waiting_stays p c f (crash before invoke after n e r) =
    append-ne-nil before after invoke (sym f ∙ e)

-- A step before a run.
first : {s t u : Request} {n : ℕ} → Step s t → Reach t n u → Reach s (suc n) u
first st here = next here st
first st (next r st') = next (first st r) st'

-- An answer that is awaited is taken.
reduce-some :
    (cache : CallCache) (invoke : FunctionCall) (c : AsyncCall)
    → get cache invoke.req_id ≡ some c
    → 0 < c.counter
    → (d : AsyncCall) × (reduce cache (ok invoke) ≡ returns (put cache invoke.req_id d))
      × (d.counter + 1 ≡ c.counter)
unfolding reduce reduce_at add_answer ◌>>=◌
reduce-some cache invoke c h p = (
  record {
    counter = c.counter - 1;
    val =
        put c.val invoke.tool_call_id
          (record { role = ""; content = invoke.result_; tool_call_id = invoke.tool_call_id });
  },
  ground (arith, h),
  omega arith,
)

waiting-ne-crashed : {p : Phase} → p ≡ waiting → p ≢ crashed
waiting-ne-crashed h q = cc

-- Every answer is for the request.
abbrev pub AllFor : String → List FunctionCall → Type 0
AllFor req_id answers = All (λ (a : FunctionCall). a.req_id ≡ req_id) answers

-- A request that waits for as many answers as are on their way to it can take them all and return.
pub waiting_returns :
    (answers : List FunctionCall) (s : Request) (c : AsyncCall)
    → s.phase ≡ waiting
    → s.flight ≡ answers
    → AllFor s.req_id answers
    → get s.cache s.req_id ≡ some c
    → c.counter ≡ length answers
    → (n : ℕ) × (t : Request) × (ms : List ToolMessage) × Reach s n t × (t.phase ≡ returned ms)
waiting_returns [] s c p f a h l = (
  1,
  record s { phase = returned (messages (own s).val) },
  _,
  next here (wait p (ground (arith, h, l))),
  refl,
)
waiting_returns (x ∷ xs) s c p f (e, a) h l =
    let (d, r, k) = reduce-some s.cache x c (ap (get s.cache) e ∙ h) (omega (arith, l)) in
    let s' = record s {
      cache = put s.cache x.req_id d;
      flight = xs;
      answered = note_answer s x;
      taken = s.taken + 1;
    } in
    let st : Step s s' = receive [] x xs (put s.cache x.req_id d) (waiting-ne-crashed p) f r in
    let found : get s'.cache s'.req_id ≡ some d =
      ground
        (arith, get-put s.cache x.req_id s.req_id d, same_iff {K = String} x.req_id s.req_id, e) in
    let (n, t, ms, run, q) = waiting_returns xs s' d p refl a found (omega (arith, k, l)) in
    (suc n, t, ms, first st run, q)
