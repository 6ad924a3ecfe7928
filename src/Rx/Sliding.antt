-- ===== src/Rx/Sliding.antt =====
-- rx/stream_operator.go: SlidingWindowWithCount. A size that is not positive is zero here.
use yomo.Common.{
  ℕ, zero, suc, ◌+◌, ◌%◌, Bool, true, false, Option, none, some, List, [], ◌∷◌, ◌++◌, ◌==◌, nat_key,
  string_key, ltb, if◌then◌else◌,
}
use yomo.Errors.{Error, plain}
use yomo.Rx.{Item, value, failed_item}

-- the variables of the loop; buf starts as a slice of nil
pub record Window {ℓ} (A : Type ℓ) : Type ℓ where
  pub window_count : ℕ
  pub slide_count : ℕ
  pub buf : List (Option A)
  pub first_time_send : Bool

module _ {ℓ} {A : Type ℓ} where
  unfoldable pub nils : ℕ → List (Option A)
  nils zero = []
  nils (suc n) = none ∷ nils n

  unfoldable pub new_window : ℕ → Window A
  new_window size = record {
    window_count = 0;
    slide_count = 0;
    buf = nils size;
    first_time_send = true;
  }

  -- buf[i] = v, of an index in range
  unfoldable pub set_at : List (Option A) → ℕ → A → List (Option A)
  set_at [] i v = []
  set_at (x ∷ xs) zero v = some v ∷ xs
  set_at (x ∷ xs) (suc i) v = x ∷ set_at xs i v

  -- append(buf[1:windowSize], v), of a buffer of that size
  unfoldable pub slide_buf : List (Option A) → A → List (Option A)
  slide_buf [] v = some v ∷ []
  slide_buf (x ∷ xs) v = xs ++ some v ∷ []

  -- if windowCount < windowSize
  unfoldable pub fill_window : ℕ → Window A → A → Window A
  fill_window size s v =
      if ltb s.window_count size
      then (record s { buf = set_at s.buf s.window_count v; window_count = s.window_count + 1 })
      else s

  -- currentSlideCount++, and the item in the buffer unless nothing was sent before
  unfoldable pub slide_on : Window A → A → Window A
  slide_on s v = record s {
    slide_count = s.slide_count + 1;
    buf = if s.first_time_send then s.buf else slide_buf s.buf v;
  }

  -- if currentSlideCount%slideSize == 0: the buffer that the handler gets
  unfoldable pub send_window : ℕ → Window A → Window A × Option (List (Option A))
  send_window slide s =
      if s.slide_count % slide == 0
      then (record s { first_time_send = false }, some s.buf)
      else (s, none)

  -- the part under the mutex
  unfoldable pub on_item : ℕ → ℕ → Window A → A → Window A × Option (List (Option A))
  on_item size slide s v =
      let s' = fill_window size s v in
      if s'.window_count == size then send_window slide (slide_on s' v) else (s', none)

-- What the operator does: a call of the handler, an item for the next one, or an error.
pub data Event {ℓ} (A : Type ℓ) : Type ℓ where
  handled : List (Option A) → Event A
  sent_on : A → Event A
  thrown : Error → Event A

module _ {ℓ} {A : Type ℓ} (handler : List (Option A) → Option Error) where
  unfoldable pub by_handler : List (Option A) → A → Option Error → List (Event A) → List (Event A)
  by_handler buf v (some e) later = handled buf ∷ thrown e ∷ []
  by_handler buf v none later = handled buf ∷ sent_on v ∷ later

  unfoldable pub after_item : A → Option (List (Option A)) → List (Event A) → List (Event A)
  after_item v none later = sent_on v ∷ later
  after_item v (some buf) later = by_handler buf v (handler buf) later

  -- the loop over the items
  unfoldable pub slide_items : ℕ → ℕ → Window A → List (Item A) → List (Event A)
  slide_items size slide s [] = []
  slide_items size slide s (failed_item e ∷ items) = slide_items size slide s items
  slide_items size slide s (value v ∷ items) =
      let r = on_item size slide s v in after_item v r.1 (slide_items size slide r.0 items)

  -- SlidingWindowWithCount(windowSize, slideSize, handler)
  unfoldable pub sliding_window_with_count : ℕ → ℕ → List (Item A) → List (Event A)
  sliding_window_with_count size slide items =
      let events = slide_items size slide (new_window size) items in
      if size == 0
      then thrown (plain "windowSize must be positive") ∷ []
      else if slide == 0
      then thrown (plain "slideSize must be positive") ∷ []
      else events
