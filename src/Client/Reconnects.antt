-- ===== src/Client/Reconnects.antt =====
-- What Connect comes to.
use yomo.Common.{
  String, ◌≡◌, refl, ◌∙◌, Bool, true, false, Option, none, some, List, [], ◌∷◌, ◌++◌, map, arith,
  nat_key, string_key, same_iff, ap, Bool-cases, inl, inr,
}
use yomo.Errors.{Error, plain, rejected, connect_to, Result, ok, err}
use yomo.Frame.{
  Frame, HandshakeFrame, handshake_ack_frame, rejected_frame, connect_to_frame, goaway_frame,
  data_frame, handshake_frame,
}
use yomo.Client.{
  Client, Effect, dialed_to, wrote, closed_with, reported, processed, report, close, wait,
  close_re_connect,
}
use yomo.Client.Connect.{
  Attempt, connect, after_dial, after_definition, after_write, after_read, refuse, count_up,
  handshake_of, handshake_with_definition, parse_ai_function_definition, handle_connect_result,
  unless_done, not_done, handle_error,
}
use yomo.Client.Background.{connect_loop, attempt, handled_of, connected, gave_up, decide}

read_accepts :
    (c : Client) (hf : HandshakeFrame) (r : Result Frame)
    → (after_read c hf r).error ≡ none
    → r ≡ ok handshake_ack_frame
unfolding after_read refuse
read_accepts c hf (err e) h = cc
read_accepts c hf (ok handshake_ack_frame) h = refl
read_accepts c hf (ok (rejected_frame m)) h = cc
read_accepts c hf (ok (connect_to_frame e)) h = cc
read_accepts c hf (ok (goaway_frame m)) h = cc
read_accepts c hf (ok (data_frame f)) h = cc
read_accepts c hf (ok (handshake_frame f)) h = cc

write_accepts :
    (c : Client) (hf : HandshakeFrame) (a : Attempt) (w : Option Error)
    → (after_write c hf a w).error ≡ none
    → (w ≡ none) × (a.received ≡ ok handshake_ack_frame)
unfolding after_write
write_accepts c hf a none h = (refl, read_accepts c hf a.received h)
write_accepts c hf a (some e) h = cc

definition_accepts :
    (c : Client) (a : Attempt) (r : Result HandshakeFrame)
    → (after_definition c a r).error ≡ none
    → ((hf : HandshakeFrame) × (r ≡ ok hf))
      × (a.written ≡ none)
      × (a.received ≡ ok handshake_ack_frame)
unfolding after_definition
definition_accepts c a (err e) h = cc
definition_accepts c a (ok hf) h =
    let (w, r) = write_accepts c hf a a.written h in ((hf, refl), w, r)

dial_accepts :
    (c : Client) (a : Attempt) (d : Option Error)
    → (after_dial c a d).error ≡ none
    → (d ≡ none)
      × ((hf : HandshakeFrame) × (handshake_with_definition (count_up c) (handshake_of c) ≡ ok hf))
      × (a.written ≡ none)
      × (a.received ≡ ok handshake_ack_frame)
unfolding after_dial
dial_accepts c a (some e) h = cc
dial_accepts c a none h = let (d, w, r) = definition_accepts _ a _ h in (refl, d, w, r)

-- An attempt makes a connection only when the zipper is dialled, the function definition is well formed, the
-- handshake frame is written and the answer is an acknowledgement.
pub connect_accepts :
    (c : Client) (a : Attempt)
    → (connect c a).error ≡ none
    → (a.dialed ≡ none)
      × ((hf : HandshakeFrame) × (handshake_with_definition (count_up c) (handshake_of c) ≡ ok hf))
      × (a.written ≡ none)
      × (a.received ≡ ok handshake_ack_frame)
unfolding connect
connect_accepts c a h = dial_accepts c a a.dialed h

-- What goes wrong with an attempt that is made again.
pub data Trouble : Type 0 where
  unreachable : String → Trouble
  redirected : String → Trouble

abbrev pub as_attempt : Trouble → Attempt
as_attempt (unreachable m) = record {
  dialed = some (plain m);
  written = none;
  received = ok handshake_ack_frame;
  cancels = none;
}
as_attempt (redirected endpoint) = record {
  dialed = none;
  written = none;
  received = ok (connect_to_frame endpoint);
  cancels = none;
}

abbrev pub accepted : Attempt
accepted = record {
  dialed = none;
  written = none;
  received = ok handshake_ack_frame;
  cancels = none;
}

-- The address after the redirections.
abbrev pub moved : String → List Trouble → String
moved addr [] = addr
moved addr (unreachable m ∷ ts) = moved addr ts
moved addr (redirected endpoint ∷ ts) = moved endpoint ts

-- The addresses that the effects dial, in order.
abbrev dial_of : Effect → List String
dial_of (dialed_to addr) = addr ∷ []
dial_of (wrote f) = []
dial_of (closed_with m) = []
dial_of (reported e) = []
dial_of (processed f) = []

unfoldable pub dials : List Effect → List String
dials [] = []
dials (e ∷ effects) = dial_of e ++ dials effects

dials-append : (a b : List Effect) → dials (a ++ b) ≡ dials a ++ dials b
unfolding dials
dials-append [] b = refl
dials-append (dialed_to addr ∷ a) b = ap (λ l. addr ∷ l) (dials-append a b)
dials-append (wrote f ∷ a) b = dials-append a b
dials-append (closed_with m ∷ a) b = dials-append a b
dials-append (reported e ∷ a) b = dials-append a b
dials-append (processed f ∷ a) b = dials-append a b

then_dials :
    (first rest : List Effect) (addr : String) (later : List String)
    → dials first ≡ addr ∷ []
    → dials rest ≡ later
    → dials (first ++ rest) ≡ addr ∷ later
then_dials first rest addr later h h' =
    dials-append first rest ∙ ap (λ l. l ++ dials rest) h ∙ ap (λ l. addr ∷ l) h'

dials-report : (c : Client) (o : Option Error) → dials (report c o) ≡ []
unfolding dials report
dials-report c none = refl
dials-report c (some e) = elim (Bool-cases c.has_errorfn) [ inl h ↦ rw h refl | inr h ↦ rw h refl ]

-- The addresses that are dialled through the redirections.
abbrev pub visited : String → List Trouble → List String
visited addr [] = addr ∷ []
visited addr (unreachable m ∷ ts) = addr ∷ visited addr ts
visited addr (redirected endpoint ∷ ts) = addr ∷ visited endpoint ts

-- A client that reconnects, is not cancelled and has no function to define.
abbrev pub Persistent : Client → Type 0
Persistent c = (c.opts.reconnect ≡ true) × (c.cause ≡ none) × (c.opts.ai_function_description ≡ "")

no_definition :
    (c : Client) (hf : HandshakeFrame)
    → c.opts.ai_function_description ≡ ""
    → handshake_with_definition c hf ≡ ok hf
unfolding handshake_with_definition parse_ai_function_definition
no_definition c hf h = ground (arith, h, same_iff c.opts.ai_function_description "")

then_moved :
    (addr addr' : String) (t : Trouble) (ts : List Trouble)
    → addr' ≡ moved addr (t ∷ [])
    → moved addr' ts ≡ moved addr (t ∷ ts)
then_moved addr addr' (unreachable m) ts h = rw (h)
then_moved addr addr' (redirected e) ts h = rw (h)

then_visited :
    (addr addr' : String) (t : Trouble) (ts : List Trouble)
    → addr' ≡ moved addr (t ∷ [])
    → addr ∷ visited addr' ts ≡ visited addr (t ∷ ts)
then_visited addr addr' (unreachable m) ts h = rw (h)
then_visited addr addr' (redirected e) ts h = rw (h)

troubled :
    (c : Client) (t : Trouble)
    → Persistent c
    → let h = attempt c (as_attempt t) c.opts.reconnect in
      (h.error ≡ none)
      × (h.reconnect ≡ true)
      × Persistent h.client
      × (h.client.zipper_addr ≡ moved c.zipper_addr (t ∷ []))
      × (dials h.effects ≡ c.zipper_addr ∷ [])
unfolding dials attempt handled_of connect after_dial after_write after_read refuse
    handle_connect_result unless_done not_done handle_error count_up after_definition
troubled c (unreachable m) (r, k, d) = (
  rw (k, r),
  rw (k, r),
  rw (k) (r, k, d),
  rw (k),
  rw (k) (ap (λ l. c.zipper_addr ∷ l) (dials-report c (some (plain m)))),
)
troubled c (redirected e) (r, k, d) =
    let n = no_definition (count_up c) (handshake_of c) d in
    (
      rw (n, k),
      rw (n, k),
      rw (n, k) (r, refl, d),
      rw (n, k),
      rw (n, k) (ap (λ l. c.zipper_addr ∷ l) (dials-report (count_up c) (some (connect_to e)))),
    )

succeeds :
    (c : Client)
    → Persistent c
    → let h = attempt c accepted c.opts.reconnect in
      (h.error ≡ none)
      × (h.reconnect ≡ false)
      × (h.client ≡ count_up c)
      × (dials h.effects ≡ c.zipper_addr ∷ [])
unfolding dials report attempt handled_of connect after_dial after_write after_read
    handle_connect_result unless_done not_done count_up after_definition
succeeds c (r, k, d) =
    let n = no_definition (count_up c) (handshake_of c) d in
    (rw (n, k), rw (n, k), rw (n, k), rw (n, k))

rejects :
    (c : Client) (m : String) (a : Attempt) (hf : HandshakeFrame) (always : Bool)
    → c.cause ≡ none
    → a.dialed ≡ none
    → handshake_with_definition (count_up c) (handshake_of c) ≡ ok hf
    → a.written ≡ none
    → a.received ≡ ok (rejected_frame m)
    → a.cancels ≡ none
    → let h = handled_of (connect c a) a.cancels always in
      (h.error ≡ some (rejected m)) × (h.client.re_connect ≡ true)
unfolding handled_of connect after_dial after_write after_read refuse handle_connect_result
    unless_done not_done handle_error after_definition close_re_connect count_up
rejects c m a hf always k d h w r n = (rw (n, d, h, w, r, k), rw (n, d, h, w, r, k))

closes : (c : Client) → c.re_connect ≡ true → (close c).1 ≡ true
unfolding close
closes c h = ground (arith, h)

waits_over : (c : Client) → c.re_connect ≡ true → wait c ≡ true
unfolding wait
waits_over c h = ground (arith, h)

-- A client that reconnects, is not cancelled and has no function to define keeps trying through every
-- unreachable zipper and follows every redirection, until an attempt is accepted, whatever attempts
-- would have come after. It dials its address once for each attempt, a new one after a redirection,
-- and is then connected at the last address that it dialled, which is the last one it was sent to.
pub connect_loop-accepted :
    (c : Client) (troubles : List Trouble) (later : List Attempt)
    → Persistent c
    → let t = connect_loop c (map as_attempt troubles ++ (accepted ∷ later)) in
      (t.progress ≡ connected)
      × (t.client.zipper_addr ≡ moved c.zipper_addr troubles)
      × (dials t.effects ≡ visited c.zipper_addr troubles)
unfolding connect_loop decide count_up
connect_loop-accepted c [] later p =
    let (e, r, k, s) = succeeds c p in (rw (e, r), rw (e, r, k), rw (e, r) s)
connect_loop-accepted c (t ∷ ts) later p =
    let (e, r, p', z, s) = troubled c t p in
    let (q, m, v) =
      connect_loop-accepted (attempt c (as_attempt t) c.opts.reconnect).client ts later p' in
    (
      rw (e, r, q),
      rw (e, r) (m ∙ then_moved c.zipper_addr _ t ts z),
      rw (e, r)
          (then_dials (attempt c (as_attempt t) c.opts.reconnect).effects _ c.zipper_addr _ s v
            ∙ then_visited c.zipper_addr _ t ts z),
    )

-- A rejection of a handshake frame that was complete and written ends Connect, for a client that is
-- not cancelled, whether it reconnects or not: the error is the zipper's message, and Close and Wait return after it.
pub connect_loop-rejected :
    (c : Client) (m : String) (a : Attempt) (later : List Attempt) (hf : HandshakeFrame)
    → c.cause ≡ none
    → a.dialed ≡ none
    → handshake_with_definition (count_up c) (handshake_of c) ≡ ok hf
    → a.written ≡ none
    → a.received ≡ ok (rejected_frame m)
    → a.cancels ≡ none
    → let t = connect_loop c (a ∷ later) in
      (t.progress ≡ gave_up (rejected m)) × ((close t.client).1 ≡ true) × (wait t.client ≡ true)
unfolding connect_loop decide attempt
connect_loop-rejected c m a later hf k d h w r n =
    let (e, l) = rejects c m a hf c.opts.reconnect k d h w r n in
    (rw (e), rw (e) (closes _ l), rw (e) (waits_over _ l))
