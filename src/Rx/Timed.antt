-- ===== src/Rx/Timed.antt =====
-- rx/stream_operator.go: SlidingWindowWithTime, with its two goroutines as the turns that they take.
-- Times are in milliseconds.
pub mod Locked
pub mod Recent
pub mod Lasting
pub mod Errors
use yomo.Common.{
  ℕ, ◌+◌, Bool, true, false, Option, none, some, List, [], ◌∷◌, ◌++◌, nat_key, string_key, leb,
  if◌then◌else◌,
}
use yomo.Errors.{Error}

-- The variables that the goroutines share, whether the mutex is held for good, and the value that is
-- in the buffer and has still to be sent downstream.
pub record Timed {ℓ} (A : Type ℓ) : Type ℓ where
  pub buf : List (ℕ × A)
  pub first_time_send : Bool
  pub locked : Bool
  pub pending : Option A

-- What one of the goroutines does, with the time at which it does: a value is received and buffered
-- under the mutex, it is sent downstream without the mutex, a case of the two timers, or the stop at
-- the end of the values. A call of the handler and the sending of its error are one turn.
pub data TimedTurn {ℓ} (A : Type ℓ) : Type ℓ where
  arrives : ℕ → A → TimedTurn A
  sends : ℕ → TimedTurn A
  window_timer : ℕ → TimedTurn A
  slide_timer : ℕ → TimedTurn A
  stopped : ℕ → TimedTurn A

pub data TimedEvent {ℓ} (A : Type ℓ) : Type ℓ where
  given : List A → TimedEvent A
  passed_on : A → TimedEvent A
  error_sent : Error → TimedEvent A

module _ {ℓ} {A : Type ℓ} where
  unfoldable pub new_timed : Timed A
  new_timed = record { buf = []; first_time_send = true; locked = false; pending = none }

  -- the items that are not older than the window
  unfoldable pub updated_buf : ℕ → ℕ → List (ℕ × A) → List (ℕ × A)
  updated_buf window now [] = []
  updated_buf window now ((t, v) ∷ items) =
      let rest = updated_buf window now items in
      if leb now (t + window) then (t, v) ∷ rest else rest

  -- their values
  unfoldable pub values_of : List (ℕ × A) → List A
  values_of [] = []
  values_of ((t, v) ∷ items) = v ∷ values_of items

  -- the part under the mutex of a value; the next one is received when the last one has been sent
  unfoldable pub put_item : Timed A → ℕ → A → Option A → Timed A
  put_item s t v none = record s { buf = s.buf ++ (t, v) ∷ []; pending = some v }
  put_item s t v (some unsent) = s

  -- Of(item.V).SendContext(ctx, next), after the mutex was unlocked
  unfoldable pub send_on : Timed A → Option A → Timed A × List (TimedEvent A)
  send_on s none = (s, [])
  send_on s (some v) = (record s { pending = none }, passed_on v ∷ [])

-- The handler is given the values; `none` is no error.
module _ {ℓ} {A : Type ℓ} (handler : List A → Option Error) (window : ℕ) where
  -- after an error the function returns with the mutex held
  unfoldable pub after_handler : Timed A → List A → Option Error → Timed A × List (TimedEvent A)
  after_handler s items none = (record s { first_time_send = false }, given items ∷ [])
  after_handler s items (some e) = (record s { locked = true }, given items ∷ error_sent e ∷ [])

  unfoldable pub apply_handler : Timed A → List A → Timed A × List (TimedEvent A)
  apply_handler s [] = (record s { first_time_send = false }, [])
  apply_handler s (v ∷ vs) = after_handler s (v ∷ vs) (handler (v ∷ vs))

  -- checkBuffer()
  unfoldable pub check_buffer : ℕ → Timed A → Timed A × List (TimedEvent A)
  check_buffer now s =
      let updated = updated_buf window now s.buf in
      apply_handler (record s { buf = updated }) (values_of updated)

  unfoldable pub if_first : Bool → ℕ → Timed A → Timed A × List (TimedEvent A)
  if_first true now s = check_buffer now s
  if_first false now s = (s, [])

  -- a turn while the mutex is free
  unfoldable pub free_turn : Timed A → TimedTurn A → Timed A × List (TimedEvent A)
  free_turn s (arrives t v) = (put_item s t v s.pending, [])
  free_turn s (sends t) = send_on s s.pending
  free_turn s (window_timer now) = if_first s.first_time_send now s
  free_turn s (slide_timer now) = check_buffer now s
  free_turn s (stopped now) = check_buffer now s

  -- while the mutex is held a turn that needs it waits
  unfoldable pub timed_turn : Bool → Timed A → TimedTurn A → Timed A × List (TimedEvent A)
  timed_turn true s (arrives t v) = (s, [])
  timed_turn true s (sends t) = send_on s s.pending
  timed_turn true s (window_timer now) = (s, [])
  timed_turn true s (slide_timer now) = (s, [])
  timed_turn true s (stopped now) = (s, [])
  timed_turn false s turn = free_turn s turn

  unfoldable pub timed_after : Timed A → List (TimedTurn A) → Timed A
  timed_after s [] = s
  timed_after s (turn ∷ turns) = timed_after (timed_turn s.locked s turn).0 turns

  -- what the operator does in these turns
  unfoldable pub timed_events : Timed A → List (TimedTurn A) → List (TimedEvent A)
  timed_events s [] = []
  timed_events s (turn ∷ turns) =
      let r = timed_turn s.locked s turn in r.1 ++ timed_events r.0 turns
