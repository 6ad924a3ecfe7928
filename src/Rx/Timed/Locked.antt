-- ===== src/Rx/Timed/Locked.antt =====
-- SlidingWindowWithTime once its mutex is held for good.
use yomo.Common.{
  ℕ, ◌≡◌, refl, sym, ap, ◌∙◌, inl, inr, Bool, true, Option, none, some, List, [], ◌∷◌, ◌++◌,
  nat_key, string_key, Option-cases,
}
use yomo.Errors.{Error}
use yomo.Rx.Timed.{
  Timed, TimedTurn, arrives, sends, window_timer, slide_timer, stopped, TimedEvent, passed_on,
  send_on, timed_turn, timed_after, timed_events,
}

pub append_assoc {ℓ} : {A : Type ℓ} (xs ys zs : List A) → (xs ++ ys) ++ zs ≡ xs ++ (ys ++ zs)
append_assoc [] ys zs = refl
append_assoc (x ∷ xs) ys zs = ap (λ l. x ∷ l) (append_assoc xs ys zs)

module _ {ℓ} {A : Type ℓ} where
  abbrev sent_of : Option A → List (TimedEvent A)
  sent_of none = []
  sent_of (some v) = passed_on v ∷ []

  -- The value that is still to be sent goes on, if its turn comes.
  unfoldable pub last_sent : Option A → List (TimedTurn A) → List (TimedEvent A)
  last_sent o [] = []
  last_sent o (arrives t v ∷ turns) = last_sent o turns
  last_sent o (sends t ∷ turns) = sent_of o
  last_sent o (window_timer t ∷ turns) = last_sent o turns
  last_sent o (slide_timer t ∷ turns) = last_sent o turns
  last_sent o (stopped t ∷ turns) = last_sent o turns

  last_sent-none : (turns : List (TimedTurn A)) → last_sent none turns ≡ []
  unfolding last_sent
  last_sent-none [] = refl
  last_sent-none (arrives t v ∷ turns) = last_sent-none turns
  last_sent-none (sends t ∷ turns) = refl
  last_sent-none (window_timer t ∷ turns) = last_sent-none turns
  last_sent-none (slide_timer t ∷ turns) = last_sent-none turns
  last_sent-none (stopped t ∷ turns) = last_sent-none turns

module _ {ℓ} {A : Type ℓ} (handler : List A → Option Error) (window : ℕ) where
  locked-send_on : (s : Timed A) (o : Option A) → (send_on s o).0.locked ≡ s.locked
  unfolding send_on
  locked-send_on s none = refl
  locked-send_on s (some v) = refl

  locked-timed_turn :
      (s : Timed A) (turn : TimedTurn A)
      → s.locked ≡ true
      → (timed_turn handler window true s turn).0.locked ≡ true
  unfolding timed_turn
  locked-timed_turn s (arrives t v) h = h
  locked-timed_turn s (sends t) h = locked-send_on s s.pending ∙ h
  locked-timed_turn s (window_timer t) h = h
  locked-timed_turn s (slide_timer t) h = h
  locked-timed_turn s (stopped t) h = h

  pub locked_stays :
      (s : Timed A) (turns : List (TimedTurn A))
      → s.locked ≡ true
      → (timed_after handler window s turns).locked ≡ true
  unfolding timed_after
  locked_stays s [] h = h
  locked_stays s (turn ∷ turns) h =
      ap (λ b. (timed_after handler window (timed_turn handler window b s turn).0 turns).locked) h
      ∙ locked_stays (timed_turn handler window true s turn).0 turns (locked-timed_turn s turn h)

  abbrev events_of : Timed A × List (TimedEvent A) → List (TimedTurn A) → List (TimedEvent A)
  events_of r turns = r.1 ++ timed_events handler window r.0 turns

  abbrev events_by : Bool → Timed A → TimedTurn A → List (TimedTurn A) → List (TimedEvent A)
  events_by b s turn turns = events_of (timed_turn handler window b s turn) turns

  pub quiet :
      (s : Timed A) (turns : List (TimedTurn A))
      → s.locked ≡ true
      → timed_events handler window s turns ≡ last_sent s.pending turns
  unfolding timed_events timed_turn last_sent send_on
  quiet s [] h = refl
  quiet s (arrives t v ∷ turns) h = ap (λ b. events_by b s (arrives t v) turns) h ∙ quiet s turns h
  quiet s (window_timer t ∷ turns) h =
      ap (λ b. events_by b s (window_timer t) turns) h ∙ quiet s turns h
  quiet s (slide_timer t ∷ turns) h =
      ap (λ b. events_by b s (slide_timer t) turns) h ∙ quiet s turns h
  quiet s (stopped t ∷ turns) h = ap (λ b. events_by b s (stopped t) turns) h ∙ quiet s turns h
  quiet s (sends t ∷ turns) h =
      ap (λ b. events_by b s (sends t) turns) h ∙ elim (Option-cases s.pending) [
        | inl e ↦
            ap (λ o. events_of (send_on s o) turns) e
            ∙ quiet s turns h
            ∙ ap (λ o. last_sent o turns) e
            ∙ last_sent-none turns
            ∙ ap sent_of (sym e)
        | inr (v, e) ↦
            ap (λ o. events_of (send_on s o) turns) e
            ∙ ap (λ l. passed_on v ∷ l)
                (quiet (record s { pending = none }) turns h ∙ last_sent-none turns)
            ∙ ap sent_of (sym e)
      ]

  pub timed_events-append :
      (s : Timed A) (turns later : List (TimedTurn A))
      → timed_events handler window s (turns ++ later)
        ≡ timed_events handler window s turns
          ++ timed_events handler window (timed_after handler window s turns) later
  unfolding timed_events timed_after
  timed_events-append s [] later = refl
  timed_events-append s (turn ∷ turns) later =
      let r = timed_turn handler window s.locked s turn in
      ap (λ l. r.1 ++ l) (timed_events-append r.0 turns later)
      ∙ sym (
          append_assoc r.1 (timed_events handler window r.0 turns)
            (timed_events handler window (timed_after handler window r.0 turns) later))
