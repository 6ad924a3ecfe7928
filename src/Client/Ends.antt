-- ===== src/Client/Ends.antt =====
-- How a connected client's loop ends: the turns before the last, and the frames that block it.
use yomo.Common.{
  String, ◌≡◌, refl, sym, ap, ◌∙◌, ◌≢◌, ◌⊎◌, Bool, true, false, Option, none, some, List, [], ◌∷◌,
  ◌++◌, arith, nat_key, string_key,
}
use yomo.Errors.{Error, ok, err}
use yomo.Frame.{
  Frame, frame_type, type_goaway_frame, type_rejected_frame, goaway_frame, rejected_frame,
  data_frame, handshake_frame, handshake_ack_frame, connect_to_frame,
}
use yomo.Client.{Client, Effect, ctx_cancel, close, wait}
use yomo.Client.Serve.{
  Event, cancelled, ctx_done, write, read, Status, running, blocked, returned, Serving, serve_conn,
  turn, go_on, handle_frame, process, on_done, waits,
}
use yomo.Client.Background.{
  stuck, run_background, handle_conn, after_serving, continue_with, Session,
}

-- Neither of the channels that Close and Wait receive from is closed.
abbrev pub Open : Client → Type 0
Open c = (c.done ≡ false) × (c.re_connect ≡ false)

waits-running : (w : Client × Bool) → w.1 ≡ false → (waits w).status ≢ running
waits-running (c, true) e = λ h. cc
waits-running (c, false) e = λ h. cc

on_done-running :
    (c : Client) (cause : Option Error)
    → Open c
    → (on_done c cause).status ≡ running
    → Open (on_done c cause).client
unfolding on_done
on_done-running c none o h = o
on_done-running c (some e) o h = cc

go_on-running :
    (c : Client) (out : List Effect) (s : Status) (rest : Serving)
    → (go_on c out s rest).status ≡ running
    → (s ≡ running) × (rest.status ≡ running)
unfolding go_on
go_on-running c out running rest h = (refl, h)
go_on-running c out blocked rest h = cc
go_on-running c out (returned e) rest h = cc

waits_blocked :
    (w : Client × Bool)
    → w.1 ≡ false
    → Open w.0
    → ((waits w).status ≡ blocked) × Open (waits w).client
waits_blocked (c, true) e o = cc
waits_blocked (c, false) e o = (refl, o)

-- A turn that leaves the loop running keeps the channels as they are.
turn-running :
    (c : Client) (e : Event) → Open c → (turn c e).status ≡ running → Open (turn c e).client
unfolding turn ctx_cancel on_done close handle_frame process
turn-running c (cancelled e) o h = o
turn-running c ctx_done o h = on_done-running c c.cause o h
turn-running c (write f none) o h = o
turn-running c (write f (some e)) o h = o
turn-running c (read (err e) p) o h = o
turn-running c (read (ok (goaway_frame m)) p) (d, r) h = absurd (waits-running _ (rw (d, r)) h)
turn-running c (read (ok (rejected_frame m)) p) (d, r) h = absurd (waits-running _ (rw (d, r)) h)
turn-running c (read (ok (data_frame f)) none) o h = o
turn-running c (read (ok (data_frame f)) (some e)) o h = o
turn-running c (read (ok (handshake_frame f)) p) o h = o
turn-running c (read (ok handshake_ack_frame) p) o h = o
turn-running c (read (ok (connect_to_frame e)) p) o h = o

go_on-Open :
    (c : Client) (out : List Effect) (s : Status) (rest : Serving)
    → s ≡ running
    → Open rest.client
    → Open (go_on c out s rest).client
unfolding go_on
go_on-Open c out running rest e h = h
go_on-Open c out blocked rest e h = cc
go_on-Open c out (returned x) rest e h = cc

go_on-ended :
    (c : Client) (out : List Effect) (s : Status) (rest : Serving)
    → s ≢ running
    → ((go_on c out s rest).client ≡ c) × ((go_on c out s rest).status ≡ s)
unfolding go_on
go_on-ended c out running rest n = absurd (n refl)
go_on-ended c out blocked rest n = (refl, refl)
go_on-ended c out (returned x) rest n = (refl, refl)

-- The turns after those that leave the loop running start from the client they leave.
serve_conn-++ :
    (c : Client) (es fs : List Event)
    → (serve_conn c es).status ≡ running
    → ((serve_conn c (es ++ fs)).client ≡ (serve_conn (serve_conn c es).client fs).client)
      × ((serve_conn c (es ++ fs)).status ≡ (serve_conn (serve_conn c es).client fs).status)
unfolding serve_conn go_on
serve_conn-++ c [] fs h = (refl, refl)
serve_conn-++ c (e ∷ es) fs h =
    let (t, r) =
      go_on-running (turn c e).client (turn c e).effects (turn c e).status
        (serve_conn (turn c e).client es) h in
    let ih = serve_conn-++ (turn c e).client es fs r in (rw (t, ih.0), rw (t, ih.1))

pub serve_conn-Open :
    (c : Client) (es : List Event)
    → Open c
    → (serve_conn c es).status ≡ running
    → Open (serve_conn c es).client
unfolding serve_conn
serve_conn-Open c [] o h = o
serve_conn-Open c (e ∷ es) o h =
    let (t, r) = go_on-running _ _ _ _ h in
    let later = serve_conn-Open (turn c e).client es (turn-running c e o t) r in
    go_on-Open _ _ _ _ t later

-- The turns after those that leave the loop running, when one of them ends it.
pub serve_conn-last :
    (c : Client) (es : List Event) (e : Event) (fs : List Event)
    → (serve_conn c es).status ≡ running
    → (turn (serve_conn c es).client e).status ≢ running
    → ((serve_conn c (es ++ (e ∷ fs))).client ≡ (turn (serve_conn c es).client e).client)
      × ((serve_conn c (es ++ (e ∷ fs))).status ≡ (turn (serve_conn c es).client e).status)
unfolding serve_conn
serve_conn-last c es e fs h n =
    let (p, q) = serve_conn-++ c es (e ∷ fs) h in
    let (p', q') = go_on-ended _ _ _ (serve_conn (turn (serve_conn c es).client e).client fs) n in
    (p ∙ p', q ∙ q')

blocked-ne-running : blocked ≢ running
blocked-ne-running = λ h. cc

turn_closes :
    (c : Client) (f : Frame) (p : Option String)
    → Open c
    → (frame_type f ≡ type_goaway_frame) ⊎ (frame_type f ≡ type_rejected_frame)
    → ((turn c (read (ok f) p)).status ≡ blocked) × Open (turn c (read (ok f) p)).client
unfolding turn handle_frame close ctx_cancel frame_type
turn_closes c (goaway_frame m) p (d, r) t = waits_blocked _ (rw (d, r)) (d, r)
turn_closes c (rejected_frame m) p (d, r) t = waits_blocked _ (rw (d, r)) (d, r)
turn_closes c (data_frame f) p o t = absurd (ground arith)
turn_closes c (handshake_frame f) p o t = absurd (ground arith)
turn_closes c handshake_ack_frame p o t = absurd (ground arith)
turn_closes c (connect_to_frame e) p o t = absurd (ground arith)

run_background-blocked :
    (c : Client) (es : List Event) (sessions : List Session)
    → (serve_conn c es).status ≡ blocked
    → Open (serve_conn c es).client
    → let b = run_background c es sessions in
      (b.next ≡ stuck) × ((close b.client).1 ≡ false) × (wait b.client ≡ false)
unfolding run_background handle_conn close wait after_serving continue_with
run_background-blocked c es sessions h (d, r) = (rw (h), rw (h, d, r), rw (h, d, r))

-- A client whose channels are open and whose loop is running comes to a standstill with the first
-- Goaway or Rejected frame: handleFrame calls Close on the loop's own goroutine, which waits for a
-- channel that only this loop would close. No later turn is taken, runBackground does not return,
-- and a Close or a Wait on another goroutine does not return either.
pub run_background-goaway :
    (c : Client) (es : List Event) (f : Frame) (p : Option String) (fs : List Event)
    (sessions : List Session)
    → Open c
    → (serve_conn c es).status ≡ running
    → (frame_type f ≡ type_goaway_frame) ⊎ (frame_type f ≡ type_rejected_frame)
    → let b = run_background c (es ++ (read (ok f) p ∷ fs)) sessions in
      (b.next ≡ stuck) × ((close b.client).1 ≡ false) × (wait b.client ≡ false)
run_background-goaway c es f p fs sessions o h t =
    let (b, o') = turn_closes (serve_conn c es).client f p (serve_conn-Open c es o h) t in
    let (k, q) = serve_conn-last c es (read (ok f) p) fs h (λ r. blocked-ne-running (sym b ∙ r)) in
    run_background-blocked c _ sessions (q ∙ b)
      (ap (λ x. x.done) k ∙ o'.0, ap (λ x. x.re_connect) k ∙ o'.1)
