-- ===== src/Rx/Timed/Recent.antt =====
-- The values of SlidingWindowWithTime by their times.
use yomo.Common.{
  ℕ, ◌+◌, ◌≤◌, ◌≡◌, refl, ap, inl, inr, Bool, true, false, List, [], ◌∷◌, ◌++◌, arith, nat_key,
  string_key, leb, if◌then◌else◌, Bool-cases,
}
use yomo.Rx.Timed.{
  TimedTurn, arrives, sends, window_timer, slide_timer, stopped, updated_buf, values_of,
}

module _ {ℓ} {A : Type ℓ} where
  -- whether a value has still to be sent after a turn
  abbrev pub busy_after : Bool → TimedTurn A → Bool
  busy_after busy (arrives t v) = true
  busy_after busy (sends t) = false
  busy_after busy (window_timer t) = busy
  busy_after busy (slide_timer t) = busy
  busy_after busy (stopped t) = busy

  abbrev pub arrived_in : Bool → TimedTurn A → List (ℕ × A)
  arrived_in true (arrives t v) = []
  arrived_in false (arrives t v) = (t, v) ∷ []
  arrived_in busy (sends t) = []
  arrived_in busy (window_timer t) = []
  arrived_in busy (slide_timer t) = []
  arrived_in busy (stopped t) = []

  -- every value that has arrived, with its time: one is received when the last one has been sent
  unfoldable pub arrived : Bool → List (TimedTurn A) → List (ℕ × A)
  arrived busy [] = []
  arrived busy (turn ∷ turns) = arrived_in busy turn ++ arrived (busy_after busy turn) turns

  -- the values that are not older than the window at a time
  unfoldable pub recent : ℕ → ℕ → List (ℕ × A) → List A
  recent window now [] = []
  recent window now ((t, v) ∷ items) =
      if leb now (t + window) then v ∷ recent window now items else recent window now items

  pub values_of-updated_buf :
      (window now : ℕ) (items : List (ℕ × A))
      → values_of (updated_buf window now items) ≡ recent window now items
  unfolding values_of updated_buf recent
  values_of-updated_buf window now [] = refl
  values_of-updated_buf window now ((t, v) ∷ items) = elim (Bool-cases (leb now (t + window))) [
    | inl h ↦ rw h (ap (λ l. v ∷ l) (values_of-updated_buf window now items))
    | inr h ↦ rw h (values_of-updated_buf window now items)
  ]

  abbrev pub time_of : TimedTurn A → ℕ
  time_of (arrives t v) = t
  time_of (sends t) = t
  time_of (window_timer t) = t
  time_of (slide_timer t) = t
  time_of (stopped t) = t

  -- the times do not go back, and the last one is not after a time
  unfoldable pub InTime : ℕ → List (TimedTurn A) → ℕ → Type 0
  InTime last [] now = last ≤ now
  InTime last (turn ∷ turns) now = (last ≤ time_of turn) × InTime (time_of turn) turns now

  pub updated_buf-append :
      (window now : ℕ) (xs ys : List (ℕ × A))
      → updated_buf window now (xs ++ ys) ≡ updated_buf window now xs ++ updated_buf window now ys
  unfolding updated_buf
  updated_buf-append window now [] ys = refl
  updated_buf-append window now ((t, v) ∷ xs) ys = elim (Bool-cases (leb now (t + window))) [
    | inl h ↦ rw (h, updated_buf-append window now xs ys) refl
    | inr h ↦ rw (h, updated_buf-append window now xs ys) refl
  ]

  -- What an earlier look throws away is too old for a later one.
  pub updated_buf-updated_buf :
      (window now later : ℕ) (xs : List (ℕ × A))
      → now ≤ later
      → updated_buf window later (updated_buf window now xs) ≡ updated_buf window later xs
  unfolding updated_buf
  updated_buf-updated_buf window now later [] h = refl
  updated_buf-updated_buf window now later ((t, v) ∷ xs) h =
      elim (Bool-cases (leb now (t + window))) [
        | inl e ↦ rw (e, updated_buf-updated_buf window now later xs h) refl
        | inr e ↦
            let old : leb later (t + window) ≡ false = ground (arith, e, h) in
            rw (e, old, updated_buf-updated_buf window now later xs h) refl
      ]
