-- ===== src/Client/Waits.antt =====
-- When Close and Wait return after a connection has ended.
use yomo.Common.{
  String, ◌≡◌, refl, sym, ap, ◌∙◌, ◌≢◌, Bool, true, false, ◌||◌, Option, none, some, List, [], ◌∷◌,
  ◌++◌, arith, nat_key, string_key,
}
use yomo.Errors.{Error, plain, conn_closed, err}
use yomo.Client.{Client, ctx_cancel, close, wait, close_done, close_re_connect}
use yomo.Client.Connect.{
  Attempt, Connected, connect, after_dial, handle_connect_result, unless_done,
}
use yomo.Client.Serve.{Event, ctx_done, read, running, returned, serve_conn, turn, go_on, on_done}
use yomo.Client.Background.{
  stopped, run_background, handle_conn, after_serving, closed_by, continue_with, Session,
  reconnect_loop, round, attempt, connect_loop, connected, decide, handled_of,
}
use yomo.Client.Ends.{Open, serve_conn-last, serve_conn-Open}

returned-ne-running : (e : Error) → returned e ≢ running
returned-ne-running e = λ h. cc

closed-Open :
    (c : Client) (r : Bool) (m : String)
    → Open c
    → ((closed_by c (conn_closed r m)).next ≡ stopped) × Open (closed_by c (conn_closed r m)).client
unfolding closed_by ctx_cancel
closed-Open c true m o = (refl, o)
closed-Open c false m o = (refl, o)

ended_closed :
    (c : Client) (es : List Event) (sessions : List Session) (r : Bool) (m : String)
    → (serve_conn c es).status ≡ returned (conn_closed r m)
    → Open (serve_conn c es).client
    → let b = run_background c es sessions in
      (b.next ≡ stopped) × ((close b.client).1 ≡ false) × (wait b.client ≡ false)
unfolding run_background handle_conn close wait after_serving continue_with
ended_closed c es sessions r m h o =
    let (n, (d, e)) = closed-Open (serve_conn c es).client r m o in
    (rw (h, n), rw (h, n, d, e), rw (h, n, d, e))

-- When a client whose channels are open and whose loop is running reads that the connection is
-- closed, by the zipper or by this side, runBackground returns with both channels open: a Close or a
-- Wait after it does not return.
pub run_background-conn_closed :
    (c : Client) (es : List Event) (r : Bool) (m : String) (p : Option String) (fs : List Event)
    (sessions : List Session)
    → Open c
    → (serve_conn c es).status ≡ running
    → let b = run_background c (es ++ (read (err (conn_closed r m)) p ∷ fs)) sessions in
      (b.next ≡ stopped) × ((close b.client).1 ≡ false) × (wait b.client ≡ false)
unfolding turn
run_background-conn_closed c es r m p fs sessions o h =
    let (k, q) =
      serve_conn-last c es (read (err (conn_closed r m)) p) fs h (returned-ne-running _) in
    let o' = serve_conn-Open c es o h in
    ended_closed c _ sessions r m q (ap (λ x. x.done) k ∙ o'.0, ap (λ x. x.re_connect) k ∙ o'.1)

ended_done :
    (c : Client) (es : List Event) (a : Attempt) (ts : List Event) (sessions : List Session)
    (m : String) (e : Error)
    → (serve_conn c es).status ≡ returned (plain m)
    → (serve_conn c es).client.cause ≡ some (plain m)
    → a.dialed ≡ some e
    → a.cancels ≡ none
    → let b = run_background c es ((a, ts) ∷ sessions) in
      (b.next ≡ stopped)
      × (b.client.re_connect ≡ true)
      × (b.client.done ≡ (serve_conn c es).client.done)
      × (b.client.crashed
          ≡ ((serve_conn c es).client.crashed || (serve_conn c es).client.re_connect))
unfolding run_background handle_conn after_serving continue_with closed_by reconnect_loop round
    attempt handled_of connect after_dial handle_connect_result unless_done close_re_connect
ended_done c es a ts sessions m e h k d n =
    (rw (h, d, n, k), rw (h, d, n, k), rw (h, d, n, k), rw (h, d, n, k))

turn-ctx_done :
    (c : Client) (e : Error)
    → c.cause ≡ some e
    → (turn c ctx_done ≡ record {
      client = close_done c;
      status = returned e;
      effects = (turn c ctx_done).effects;
    })
unfolding turn on_done
turn-ctx_done c e h = rw (h)

-- A client whose channels are open and whose loop was running until it was cancelled takes the case
-- of its context, and its next dial fails, as a dial with a cancelled context does. Then
-- runBackground returns with both channels, done and reConnect, closed, so that Close and Wait
-- return, and no channel has been closed twice by that.
pub run_background-close :
    (c : Client) (es : List Event) (fs : List Event) (a : Attempt) (ts : List Event)
    (sessions : List Session) (m : String) (e : Error)
    → Open c
    → (serve_conn c es).status ≡ running
    → (serve_conn c es).client.cause ≡ some (plain m)
    → a.dialed ≡ some e
    → a.cancels ≡ none
    → let b = run_background c (es ++ (ctx_done ∷ fs)) ((a, ts) ∷ sessions) in
      (b.next ≡ stopped)
      × (b.client.done ≡ true)
      × (b.client.re_connect ≡ true)
      × ((close b.client).1 ≡ true)
      × (wait b.client ≡ true)
      × (b.client.crashed ≡ (serve_conn c es).client.crashed)
unfolding close wait close_done
run_background-close c es fs a ts sessions m e o h k d n =
    let t = turn-ctx_done (serve_conn c es).client (plain m) k in
    let st = ap (λ x. x.status) t in
    let (x, q) =
      serve_conn-last c es ctx_done fs h (λ r. returned-ne-running (plain m) (sym st ∙ r)) in
    let x' = x ∙ ap (λ y. y.client) t in
    let o' = serve_conn-Open c es o h in
    let (n', rc, dn, cr) =
      ended_done c (es ++ (ctx_done ∷ fs)) a ts sessions m e (q ∙ st) (ap (λ y. y.cause) x' ∙ k) d
        n in
    let dn' = dn ∙ ap (λ y. y.done) x' in
    let cr' = cr ∙ ap (λ y. y.crashed || y.re_connect) x' in
    (n', dn', rc, rw (dn'), rw (dn'), ground (arith, cr', o'.0, o'.1))

cancel-cause : (c : Client) (e : Error) → c.cause ≡ none → (ctx_cancel c e).cause ≡ some e
unfolding ctx_cancel
cancel-cause c e h = rw (h)

accepted_cancelled :
    (r : Connected) (cancels : Option Error) (m : String) (always : Bool)
    → r.error ≡ none
    → r.client.cause ≡ none
    → cancels ≡ some (plain m)
    → let h = handled_of r cancels always in
      (h.error ≡ none)
      × (h.reconnect ≡ false)
      × (h.client.cause ≡ some (plain m))
      × (h.client.re_connect ≡ true)
unfolding handled_of handle_connect_result unless_done ctx_cancel close_re_connect
accepted_cancelled r cancels m always er k n =
    (rw (n, k, er), rw (n, k), rw (n, k) (cancel-cause r.client (plain m) k), rw (n, k))

-- A loop that starts from a cancelled client whose reConnect channel is closed closes it again.
twice :
    (c : Client) (b : Attempt) (m : String) (e : Error) (ts : List Event) (sessions : List Session)
    → c.cause ≡ some (plain m)
    → c.re_connect ≡ true
    → b.dialed ≡ some e
    → b.cancels ≡ none
    → (run_background c (ctx_done ∷ []) ((b, ts) ∷ sessions)).client.crashed ≡ true
unfolding serve_conn go_on close_done
twice c b m e ts sessions k r d n =
    let t = turn-ctx_done c (plain m) k in
    let st = ap (λ x. x.status) t in
    let s =
      ended_done c (ctx_done ∷ []) b ts sessions m e (rw (st))
        (rw (st) (ap (λ x. x.client.cause) t ∙ k)) d n in
    s.3 ∙ rw (st) (ap (λ x. x.client.crashed || x.client.re_connect) t ∙ ground (arith, r))

-- A client that is cancelled when its handshake has just been accepted is connected, with its
-- reConnect channel closed. If the background loop then takes the case of its context and its next
-- dial fails, it closes that channel again, which panics in Go.
pub connect_crashes :
    (c : Client) (a b : Attempt) (m : String) (e : Error) (ts : List Event)
    (sessions : List Session)
    → (connect c a).error ≡ none
    → (connect c a).client.cause ≡ none
    → a.cancels ≡ some (plain m)
    → b.dialed ≡ some e
    → b.cancels ≡ none
    → let t = connect_loop c (a ∷ []) in
      (t.progress ≡ connected)
      × ((run_background t.client (ctx_done ∷ []) ((b, ts) ∷ sessions)).client.crashed ≡ true)
unfolding connect_loop attempt decide
connect_crashes c a b m e ts sessions er k n d bn =
    let (e0, r0, k0, rc) = accepted_cancelled (connect c a) a.cancels m c.opts.reconnect er k n in
    (rw (e0, r0), twice _ b m e ts sessions (rw (e0, r0, k0)) (rw (e0, r0, rc)) d bn)
