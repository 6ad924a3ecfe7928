-- ===== src/Rx/Timed/Lasting.antt =====
-- What SlidingWindowWithTime keeps for its handler.
use yomo.Common.{
  ℕ, ◌≤◌, ◌≡◌, refl, sym, ap, ◌∙◌, ◌≢◌, inl, inr, Bool, true, false, Option, none, some, List, [],
  ◌∷◌, ◌++◌, arith, nat_key, string_key, Bool-cases, Option-cases, is_some,
}
use yomo.Errors.{Error}
use yomo.Rx.Windows.{append-nil}
use yomo.Rx.Timed.Locked.{append_assoc, locked_stays}
use yomo.Rx.Timed.Recent.{
  busy_after, arrived_in, arrived, recent, values_of-updated_buf, time_of, InTime,
  updated_buf-append, updated_buf-updated_buf,
}
use yomo.Rx.Timed.{
  Timed, TimedTurn, arrives, sends, send_on, window_timer, slide_timer, stopped, TimedEvent, given,
  error_sent, new_timed, updated_buf, values_of, put_item, after_handler, apply_handler,
  check_buffer, if_first, free_turn, timed_turn, timed_after,
}

true-false : true ≢ false
true-false h = cc

module _ {ℓ} {A : Type ℓ} where
  -- Whatever is fresh from a time on is in the buffer.
  abbrev Keeps : ℕ → Timed A → List (ℕ × A) → ℕ → Type ℓ
  Keeps window s items last =
      (later : ℕ) → last ≤ later → updated_buf window later s.buf ≡ updated_buf window later items

  new-Keeps :
      (window later : ℕ)
      → updated_buf window later (new_timed {A = A}).buf ≡ updated_buf window later []
  unfolding new_timed
  new-Keeps window later = refl

  idle : (s : Timed A) → s ≡ new_timed → is_some s.pending ≡ false
  unfolding new_timed
  idle s h = ap (λ (x : Timed A). is_some x.pending) h

module _ {ℓ} {A : Type ℓ} (handler : List A → Option Error) (window : ℕ) where
  after_handler-buf :
      (s : Timed A) (items : List A) (o : Option Error)
      → (after_handler handler window s items o).0.buf ≡ s.buf
  unfolding after_handler
  after_handler-buf s items none = refl
  after_handler-buf s items (some e) = refl

  apply_handler-buf :
      (s : Timed A) (items : List A) → (apply_handler handler window s items).0.buf ≡ s.buf
  unfolding apply_handler
  apply_handler-buf s [] = refl
  apply_handler-buf s (v ∷ vs) = after_handler-buf s (v ∷ vs) (handler (v ∷ vs))

  check_buffer-Keeps :
      (now : ℕ) (s : Timed A) (items : List (ℕ × A)) (last : ℕ)
      → last ≤ now
      → Keeps window s items last
      → Keeps window (check_buffer handler window now s).0 items now
  unfolding check_buffer
  check_buffer-Keeps now s items last h k later l =
      rw
        (
          apply_handler-buf (record s { buf = updated_buf window now s.buf })
              (values_of (updated_buf window now s.buf)),
          updated_buf-updated_buf window now later s.buf l,
        )
        (k later (omega (arith, h, l)))

  if_first-Keeps :
      (b : Bool) (now : ℕ) (s : Timed A) (items : List (ℕ × A)) (last : ℕ)
      → last ≤ now
      → Keeps window s items last
      → Keeps window (if_first handler window b now s).0 items now
  unfolding if_first
  if_first-Keeps true now s items last h k later l = check_buffer-Keeps now s items last h k later l
  if_first-Keeps false now s items last h k later l = k later (omega (arith, h, l))

  put_item-Keeps :
      (s : Timed A) (t : ℕ) (v : A) (o : Option A) (items : List (ℕ × A)) (last : ℕ)
      → last ≤ t
      → Keeps window s items last
      → Keeps window (put_item s t v o) (items ++ arrived_in (is_some o) (arrives t v)) t
  unfolding put_item
  put_item-Keeps s t v none items last h k later l =
      rw
        (
          updated_buf-append window later s.buf ((t, v) ∷ []),
          updated_buf-append window later items ((t, v) ∷ []),
          k later (omega (arith, h, l)),
        )
        refl
  put_item-Keeps s t v (some w) items last h k later l =
      rw (append-nil items) (k later (omega (arith, h, l)))

  buf-send_on : (s : Timed A) (o : Option A) → (send_on s o).0.buf ≡ s.buf
  unfolding send_on
  buf-send_on s none = refl
  buf-send_on s (some v) = refl

  free_turn-Keeps :
      (turn : TimedTurn A) (s : Timed A) (items : List (ℕ × A)) (last : ℕ)
      → last ≤ time_of turn
      → Keeps window s items last
      → Keeps window
          (free_turn handler window s turn).0
          (items ++ arrived_in (is_some s.pending) turn)
          (time_of turn)
  unfolding free_turn
  free_turn-Keeps (arrives t v) s items last h k later l =
      put_item-Keeps s t v s.pending items last h k later l
  free_turn-Keeps (sends t) s items last h k later l =
      rw (append-nil items)
        (ap (updated_buf window later) (buf-send_on s s.pending) ∙ k later (omega (arith, h, l)))
  free_turn-Keeps (window_timer t) s items last h k later l =
      rw (append-nil items) (if_first-Keeps s.first_time_send t s items last h k later l)
  free_turn-Keeps (slide_timer t) s items last h k later l =
      rw (append-nil items) (check_buffer-Keeps t s items last h k later l)
  free_turn-Keeps (stopped t) s items last h k later l =
      rw (append-nil items) (check_buffer-Keeps t s items last h k later l)

  pending-apply_handler :
      (s : Timed A) (items : List A) → (apply_handler handler window s items).0.pending ≡ s.pending
  unfolding apply_handler after_handler
  pending-apply_handler s [] = refl
  pending-apply_handler s (v ∷ vs) = elim (Option-cases (handler (v ∷ vs))) [
    | inl e ↦ rw e refl
    | inr (x, e) ↦ rw e refl
  ]

  pending-if_first :
      (b : Bool) (now : ℕ) (s : Timed A) → (if_first handler window b now s).0.pending ≡ s.pending
  unfolding if_first check_buffer
  pending-if_first true now s = pending-apply_handler _ _
  pending-if_first false now s = refl

  busy-put_item :
      (s : Timed A) (t : ℕ) (v : A) (o : Option A)
      → s.pending ≡ o
      → is_some (put_item s t v o).pending ≡ true
  unfolding put_item
  busy-put_item s t v none h = refl
  busy-put_item s t v (some w) h = ap is_some h

  busy-send_on :
      (s : Timed A) (o : Option A) → s.pending ≡ o → is_some (send_on s o).0.pending ≡ false
  unfolding send_on
  busy-send_on s none h = ap is_some h
  busy-send_on s (some v) h = refl

  busy-free_turn :
      (turn : TimedTurn A) (s : Timed A)
      → is_some (free_turn handler window s turn).0.pending ≡ busy_after (is_some s.pending) turn
  unfolding free_turn check_buffer
  busy-free_turn (arrives t v) s = busy-put_item s t v s.pending refl
  busy-free_turn (sends t) s = busy-send_on s s.pending refl
  busy-free_turn (window_timer t) s = ap is_some (pending-if_first s.first_time_send t s)
  busy-free_turn (slide_timer t) s = ap is_some (pending-apply_handler _ _)
  busy-free_turn (stopped t) s = ap is_some (pending-apply_handler _ _)

  timed_after-Keeps :
      (s : Timed A) (items : List (ℕ × A)) (last now : ℕ) (turns : List (TimedTurn A))
      → Keeps window s items last
      → InTime last turns now
      → (timed_after handler window s turns).locked ≡ false
      → Keeps window
          (timed_after handler window s turns)
          (items ++ arrived (is_some s.pending) turns)
          now
  unfolding timed_after timed_turn InTime arrived
  timed_after-Keeps s items last now [] k h free later l =
      rw (append-nil items) (k later (omega (arith, h, l)))
  timed_after-Keeps s items last now (turn ∷ turns) k (h, hs) free later l =
      elim (Bool-cases s.locked) [
        | inl e ↦ absurd (true-false (sym (locked_stays handler window s (turn ∷ turns) e) ∙ free))
        | inr e ↦
            let turned = ap (λ b. (timed_turn handler window b s turn).0) e in
            let new = arrived_in (is_some s.pending) turn in
            let rest =
              timed_after-Keeps (free_turn handler window s turn).0 (items ++ new) (time_of turn)
                now turns (free_turn-Keeps turn s items last h k) hs
                (ap (λ x. (timed_after handler window x turns).locked) (sym turned) ∙ free) later
                l in
            ap (λ x. updated_buf window later (timed_after handler window x turns).buf) turned
            ∙ rest
            ∙ ap (updated_buf window later) (
                append_assoc items new _
                ∙ ap (λ b. items ++ (new ++ arrived b turns)) (busy-free_turn turn s))
      ]

  -- What the handler is given, and the error that it returns.
  abbrev pub reported : Option Error → List (TimedEvent A)
  reported none = []
  reported (some e) = error_sent e ∷ []

  unfoldable pub handed_over : List A → List (TimedEvent A)
  handed_over [] = []
  handed_over (v ∷ vs) = given (v ∷ vs) ∷ reported (handler (v ∷ vs))

  apply_handler-handed_over :
      (s : Timed A) (vs : List A) → (apply_handler handler window s vs).1 ≡ handed_over vs
  unfolding apply_handler after_handler handed_over
  apply_handler-handed_over s [] = refl
  apply_handler-handed_over s (v ∷ vs) = elim (Option-cases (handler (v ∷ vs))) [
    | inl e ↦ rw e refl
    | inr (x, e) ↦ rw e refl
  ]

  -- The values in the buffer that are fresh are those of all that arrived.
  pub updated_buf-arrived :
      (now : ℕ) (turns : List (TimedTurn A))
      → InTime 0 turns now
      → (timed_after handler window new_timed turns).locked ≡ false
      → values_of (updated_buf window now (timed_after handler window new_timed turns).buf)
        ≡ recent window now (arrived false turns)
  updated_buf-arrived now turns h free =
      ap values_of (
        timed_after-Keeps new_timed [] 0 now turns (λ later l. new-Keeps window later) h free now
          (omega arith))
      ∙ ap (λ b. values_of (updated_buf window now (arrived b turns))) (idle new_timed refl)
      ∙ values_of-updated_buf window now (arrived false turns)

  -- A look at the buffer at a time hands over to the handler exactly the values that arrived and are not older than the
  -- window, in the order in which they arrived, and nothing if there are none; an error that it returns is sent. It is so after any turns, with
  -- earlier looks among them, whose times do not go back, unless an earlier error of the handler has left the mutex
  -- held. A value arrives when the one before it was sent.
  pub check_buffer-arrived :
      (now : ℕ) (turns : List (TimedTurn A))
      → InTime 0 turns now
      → (timed_after handler window new_timed turns).locked ≡ false
      → (check_buffer handler window now (timed_after handler window new_timed turns)).1
        ≡ handed_over (recent window now (arrived false turns))
  unfolding check_buffer
  check_buffer-arrived now turns h free =
      apply_handler-handed_over _ _ ∙ ap handed_over (updated_buf-arrived now turns h free)
