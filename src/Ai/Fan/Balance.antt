-- ===== src/Ai/Fan/Balance.antt =====
-- What has been answered when a request returns.
use yomo.Common.{
  ℕ, ◌+◌, ◌-◌, ◌<◌, String, ◌≡◌, refl, sym, ap, ◌∙◌, inl, inr, true, false, Option, none, some,
  List, [], ◌∷◌, arith, ◌==◌, nat_key, string_key, same_iff, if◌then◌else◌, Bool-cases, length,
  contains,
}
use mathlib.Core.Path.{subst}
use yomo.Try.{>>=-eq-returns, returns}
use yomo.Frame.{Tag}
use yomo.GoMap.{GoMap, get, put, delete, has}
use yomo.GoMap.Laws.{get-put, get-delete}
use yomo.Ai.{ToolCall, FunctionCall, ToolMessage}
use yomo.Ai.Fan.{
  AsyncCall, CallCache, Firing, add_answer, reduce_at, reduce, Phase, firing, adding, waiting,
  returned, crashed, Request, after_fire, add_factor, messages, own, call_at, start, Step, fire,
  add, end_loop, wait, receive, crash, Reach, here, next,
}

-- Every message stands under its own call.
abbrev pub Keyed : GoMap String ToolMessage → Type 0
Keyed [] = Unit
Keyed ((k, m) ∷ val) = (m.tool_call_id ≡ k) × Keyed val

delete-Keyed : (val : GoMap String ToolMessage) (k : String) → Keyed val → Keyed (delete val k)
unfolding delete
delete-Keyed [] k h = h
delete-Keyed ((j, m) ∷ val) k (e, h) = ground (arith, e, delete-Keyed val k h)

abbrev call_ids : List ToolMessage → List String
call_ids [] = []
call_ids (m ∷ ms) = m.tool_call_id ∷ call_ids ms

contains-messages :
    (val : GoMap String ToolMessage) (k : String)
    → Keyed val
    → contains (call_ids (messages val)) k ≡ has val k
unfolding messages contains get
contains-messages [] k h = refl
contains-messages ((j, m) ∷ val) k (e, h) = ground (arith, e, contains-messages val k h)

-- What the answers that came in left in the entry of a request.
pub record Counted (c : AsyncCall) (awaited : ℕ) (answered : List String) : Type 0 where
  pub counted : c.counter + length answered ≡ awaited
  pub keyed : Keyed c.val
  pub answers : (k : String) → has c.val k ≡ contains answered k

-- What the phase says of the entry.
abbrev pub Settled : AsyncCall → Phase → Type 0
Settled c (firing rest) = Unit
Settled c (adding tag rest) = Unit
Settled c waiting = Unit
Settled c crashed = Unit
Settled c (returned ms) = (c.counter ≡ 0) × (ms ≡ messages c.val)

pub record Balanced (s : Request) : Type 0 where
  pub entry : AsyncCall
  pub present : get s.cache s.req_id ≡ some entry
  pub balance : Counted entry s.awaited s.answered
  pub settled : Settled entry s.phase

-- What an answer that is taken does to an entry.
abbrev answered_entry : AsyncCall → FunctionCall → AsyncCall
answered_entry c invoke = record {
  counter = c.counter - 1;
  val =
      put c.val invoke.tool_call_id
        (record { role = ""; content = invoke.result_; tool_call_id = invoke.tool_call_id });
}

add_answer-inversion :
    (c d : AsyncCall) (invoke : FunctionCall)
    → add_answer c invoke ≡ returns d
    → (0 < c.counter) × (d ≡ answered_entry c invoke)
unfolding add_answer
add_answer-inversion c d invoke e = (ground (arith, e), ground (arith, e))

answered_entry-Counted :
    (c : AsyncCall) (invoke : FunctionCall) (awaited : ℕ) (answered : List String)
    → 0 < c.counter
    → Counted c awaited answered
    → Counted (answered_entry c invoke) awaited (invoke.tool_call_id ∷ answered)
unfolding put get contains
answered_entry-Counted c invoke awaited answered p h = record {
  counted = omega (arith, h.counted);
  keyed = (refl, delete-Keyed c.val invoke.tool_call_id h.keyed);
  answers = λ k. ground (arith, get-delete c.val invoke.tool_call_id k, h.answers k);
}

-- What is left of an entry once the reducer took an answer.
record Left (cache' : CallCache) (req_id : String) (c : AsyncCall) (awaited : ℕ) (ids : List String)
    : Type 0 where
  entry : AsyncCall
  found : get cache' req_id ≡ some entry
  left : Counted entry awaited ids
  kept : c.counter ≡ 0 → entry ≡ c

differ :
    (cache : CallCache) (a b : String) (c : AsyncCall)
    → get cache a ≡ none
    → get cache b ≡ some c
    → (a == b) ≡ false
differ cache a b c g h = elim (Bool-cases (a == b)) [
  | inl e ↦ cc (ap (get cache) ((same_iff a b).0 e))
  | inr e ↦ e
]

own_taken :
    (cache : CallCache) (invoke : FunctionCall) (req_id : String) (c x d : AsyncCall) (awaited : ℕ)
    (answered : List String)
    → (invoke.req_id == req_id) ≡ true
    → get cache invoke.req_id ≡ some x
    → get cache req_id ≡ some c
    → add_answer x invoke ≡ returns d
    → Counted c awaited answered
    → Left (put cache invoke.req_id d) req_id c awaited (invoke.tool_call_id ∷ answered)
own_taken cache invoke req_id c x d awaited answered s g h a b =
    let same : invoke.req_id ≡ req_id = (same_iff invoke.req_id req_id).0 s in
    let at : x ≡ c = ground (arith, g, h, ap (get cache) same) in
    let (p, e) = add_answer-inversion c d invoke (ap (λ y. add_answer y invoke) (sym at) ∙ a) in
    record {
      entry = answered_entry c invoke;
      found = ground (arith, s, e, get-put cache invoke.req_id req_id d);
      left = answered_entry-Counted c invoke awaited answered p b;
      kept = λ z. absurd (omega arith);
    }

taken-Left :
    (cache cache' : CallCache) (invoke : FunctionCall) (req_id : String) (c : AsyncCall)
    (awaited : ℕ) (answered : List String) (o : Option AsyncCall)
    → get cache invoke.req_id ≡ o
    → reduce_at cache o invoke ≡ returns cache'
    → get cache req_id ≡ some c
    → Counted c awaited answered
    → Left cache' req_id c awaited
        (if invoke.req_id == req_id then invoke.tool_call_id ∷ answered else answered)
unfolding reduce_at
taken-Left cache cache' invoke req_id c awaited answered none g e h b =
    rw (differ cache invoke.req_id req_id c g h)
      (record { entry = c; found = ground (arith, e, h); left = b; kept = λ _. refl })
taken-Left cache cache' invoke req_id c awaited answered (some x) g e h b =
    let (d, a, r) = >>=-eq-returns (add_answer x invoke) _ e in
    let at : put cache invoke.req_id d ≡ cache' = ground (arith, r) in
    elim (Bool-cases (invoke.req_id == req_id)) [
      | inl s ↦ rw s (
          subst (λ m. Left m req_id c awaited (invoke.tool_call_id ∷ answered)) at
            (own_taken cache invoke req_id c x d awaited answered s g h a b))
      | inr s ↦ rw s (record {
        entry = c;
        found = ground (arith, s, at, h, get-put cache invoke.req_id req_id d);
        left = b;
        kept = λ _. refl;
      })
    ]

Settled-kept : (p : Phase) (c d : AsyncCall) → (c.counter ≡ 0 → d ≡ c) → Settled c p → Settled d p
Settled-kept (firing rest) c d k h = tt
Settled-kept (adding tag rest) c d k h = tt
Settled-kept waiting c d k h = tt
Settled-kept crashed c d k h = tt
Settled-kept (returned ms) c d k (z, m) = subst (λ x. Settled x (returned ms)) (sym (k z)) (z, m)

own-entry : (s : Request) (c : AsyncCall) → get s.cache s.req_id ≡ some c → own s ≡ c
own-entry s c h = ap call_at h

add_factor-Balanced :
    (s : Request) (n : ℕ) (rest : List Firing) → Balanced s → Balanced (add_factor s n rest)
unfolding add_factor
add_factor-Balanced s n rest b =
    let e = own-entry s b.entry b.present in
    record {
      entry = record { counter = (own s).counter + n; val = (own s).val };
      present = ground (
        arith,
        get-put s.cache s.req_id s.req_id
            (record { counter = (own s).counter + n; val = (own s).val }),
        same_iff s.req_id s.req_id,
      );
      balance = record {
        counted = ground (arith, e, b.balance.counted);
        keyed = subst (λ c. Keyed c.val) (sym e) b.balance.keyed;
        answers = λ k. ap (λ c. has c.val k) e ∙ b.balance.answers k;
      };
      settled = tt;
    }

Step-Balanced : {s t : Request} → Step s t → Balanced s → Balanced t
unfolding after_fire reduce
Step-Balanced (fire (tag, fn) rest (some e) answers p) b = record {
  entry = b.entry;
  present = b.present;
  balance = b.balance;
  settled = tt;
}
Step-Balanced (fire (tag, fn) rest none answers p) b = record {
  entry = b.entry;
  present = b.present;
  balance = b.balance;
  settled = tt;
}
Step-Balanced (add r tag rest p) b = add_factor-Balanced _ _ rest b
Step-Balanced (end_loop p) b = record {
  entry = b.entry;
  present = b.present;
  balance = b.balance;
  settled = tt;
}
Step-Balanced {s} (wait p z) b =
    let e = own-entry s b.entry b.present in
    record {
      entry = b.entry;
      present = b.present;
      balance = b.balance;
      settled = (ap (λ c. c.counter) (sym e) ∙ z, ap (λ c. messages c.val) e);
    }
Step-Balanced {s} (receive before invoke after cache n e r) b =
    let l =
      taken-Left s.cache cache invoke s.req_id b.entry s.awaited s.answered
        (get s.cache invoke.req_id) refl r b.present b.balance in
    record {
      entry = l.entry;
      present = l.found;
      balance = l.left;
      settled = Settled-kept s.phase b.entry l.entry l.kept b.settled;
    }
Step-Balanced (crash before invoke after n e r) b = record {
  entry = b.entry;
  present = b.present;
  balance = b.balance;
  settled = tt;
}

pub Reach-Balanced : {s t : Request} {n : ℕ} → Reach s n t → Balanced s → Balanced t
Reach-Balanced here b = b
Reach-Balanced (next r st) b = Step-Balanced st (Reach-Balanced r b)

pub start-Balanced :
    (cache : CallCache) (f : Tag × List ToolCall) (fns : GoMap Tag (List ToolCall))
    (trans_id req_id : String) (flight : List FunctionCall)
    → Balanced (start cache (f ∷ fns) trans_id req_id flight)
unfolding start get contains
start-Balanced cache f fns trans_id req_id flight = record {
  entry = record { counter = 0; val = [] };
  present = ground (
    arith,
    get-put cache req_id req_id (record { counter = 0; val = [] }),
    same_iff req_id req_id,
  );
  balance = record { counted = refl; keyed = tt; answers = λ k. refl };
  settled = tt;
}

-- What a request hands back when it returns.
pub record Complete (s : Request) (ms : List ToolMessage) : Type 0 where
  pub all_answered : length s.answered ≡ s.awaited
  pub answers : (k : String) → contains (call_ids ms) k ≡ contains s.answered k

Balanced-Complete :
    (s : Request) (ms : List ToolMessage) → Balanced s → s.phase ≡ returned ms → Complete s ms
Balanced-Complete s ms b p =
    let (z, m) = subst (Settled b.entry) p b.settled in
    record {
      all_answered = omega (arith, b.balance.counted, z);
      answers = λ k.
          ap (λ l. contains (call_ids l) k) m
          ∙ contains-messages b.entry.val k b.balance.keyed
          ∙ b.balance.answers k;
    }

-- Whatever order the answers come in: when a request with calls returns, as many answers have come
-- in as were awaited, and its messages are for exactly the calls that were answered.
pub start-Complete :
    (cache : CallCache) (f : Tag × List ToolCall) (fns : GoMap Tag (List ToolCall))
    (trans_id req_id : String) (flight : List FunctionCall) {n : ℕ} {t : Request}
    (ms : List ToolMessage)
    → Reach (start cache (f ∷ fns) trans_id req_id flight) n t
    → t.phase ≡ returned ms
    → Complete t ms
start-Complete cache f fns trans_id req_id flight ms r p =
    Balanced-Complete _ ms (Reach-Balanced r (start-Balanced cache f fns trans_id req_id flight)) p
