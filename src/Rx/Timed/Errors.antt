-- ===== src/Rx/Timed/Errors.antt =====
-- SlidingWindowWithTime after an error of its handler.
use yomo.Common.{
  ℕ, ◌≡◌, refl, ap, ◌∙◌, true, false, Option, some, List, [], ◌∷◌, ◌++◌, nat_key, string_key,
}
use yomo.Errors.{Error}
use yomo.Rx.Timed.{
  Timed, TimedTurn, slide_timer, TimedEvent, given, error_sent, new_timed, updated_buf, values_of,
  after_handler, apply_handler, check_buffer, free_turn, timed_turn, timed_after, timed_events,
}
use yomo.Rx.Timed.Locked.{last_sent, quiet, timed_events-append}
use yomo.Rx.Timed.Recent.{arrived, recent, InTime}
use yomo.Rx.Timed.Lasting.{updated_buf-arrived}

module _ {ℓ} {A : Type ℓ} (handler : List A → Option Error) (window : ℕ) where
  abbrev then_events : Timed A × List (TimedEvent A) → List (TimedTurn A) → List (TimedEvent A)
  then_events r later = r.1 ++ timed_events handler window r.0 later

  apply_handler-error :
      (s : Timed A) (v : A) (vs : List A) (e : Error)
      → handler (v ∷ vs) ≡ some e
      → apply_handler handler window s (v ∷ vs)
        ≡ (record s { locked = true }, given (v ∷ vs) ∷ error_sent e ∷ [])
  unfolding apply_handler after_handler
  apply_handler-error s v vs e h = rw h refl

  slide-error :
      (s : Timed A) (now : ℕ) (v : A) (vs : List A) (e : Error) (later : List (TimedTurn A))
      → s.locked ≡ false
      → values_of (updated_buf window now s.buf) ≡ v ∷ vs
      → handler (v ∷ vs) ≡ some e
      → timed_events handler window s (slide_timer now ∷ later)
        ≡ given (v ∷ vs) ∷ error_sent e ∷ last_sent s.pending later
  unfolding timed_events timed_turn free_turn check_buffer
  slide-error s now v vs e later free h f =
      let s' = record s { buf = updated_buf window now s.buf } in
      ap (λ b. then_events (timed_turn handler window b s (slide_timer now)) later) free
      ∙ ap (λ l. then_events (apply_handler handler window s' l) later) h
      ∙ ap (λ r. then_events r later) (apply_handler-error s' v vs e f)
      ∙ ap (λ l. given (v ∷ vs) ∷ error_sent e ∷ l)
          (quiet handler window (record s' { locked = true }) later refl)

  -- When the slide's timer finds values that arrived and are not older than the window, and the handler returns an error
  -- for them, they are handed over, the error is sent, and nothing ever follows, whatever turns come later: no value that arrives later is
  -- sent on, and no timer and no stop hands anything to the handler. The only exception is the one value that was
  -- buffered but not yet sent at the error: it goes on, if its turn to be sent comes. The times of the turns before do not
  -- go back, and none of these turns has left the mutex held.
  pub timed_events-error :
      (now : ℕ) (turns later : List (TimedTurn A)) (v : A) (vs : List A) (e : Error)
      → InTime 0 turns now
      → (timed_after handler window new_timed turns).locked ≡ false
      → recent window now (arrived false turns) ≡ v ∷ vs
      → handler (v ∷ vs) ≡ some e
      → timed_events handler window new_timed (turns ++ (slide_timer now ∷ later))
        ≡ timed_events handler window new_timed turns
          ++ (given (v ∷ vs)
              ∷ error_sent e
              ∷ last_sent (timed_after handler window new_timed turns).pending later)
  timed_events-error now turns later v vs e h free r f =
      timed_events-append handler window new_timed turns (slide_timer now ∷ later)
      ∙ ap (λ l. timed_events handler window new_timed turns ++ l)
          (slide-error (timed_after handler window new_timed turns) now v vs e later free
            (updated_buf-arrived handler window now turns h free ∙ r) f)
