-- ===== src/Rx/Runs.antt =====
-- What the handler of SlidingWindowWithCount is called with, for every sequence of values.
use yomo.Common.{
  ℕ, suc, ◌+◌, ◌%◌, ◌<◌, ◌≡◌, refl, ap, ◌∙◌, inl, inr, true, false, Option, some, List, [], ◌∷◌,
  ◌++◌, map, arith, ◌==◌, nat_key, string_key, if◌then◌else◌, Bool-cases, length,
}
use yomo.Errors.{Error}
use yomo.Rx.{Item, value}
use yomo.Rx.Sliding.{
  new_window, send_window, Event, sent_on, by_handler, after_item, slide_items,
  sliding_window_with_count,
}
use yomo.Rx.Windows.{
  append-snoc, append-nil, add_zero, map-append, equal_zero, slid, length-slid_of, filling, full,
  length-snoc, suc-length, on_item-filling, on_item-fills, on_item-full, slide_on-waiting,
  slide_on-sliding, send_window-not_yet, send_window-at,
}

module _ {ℓ} {A : Type ℓ} (handler : List (Option A) → Option Error) where
  slide_items-filling :
      (before later : List A) (size slide : ℕ) (rest : List (Item A))
      → length before + length later + 1 ≡ size
      → slide_items handler size slide
          (filling before (suc (length later)))
          (map value later ++ rest)
        ≡ map sent_on later ++ slide_items handler size slide (filling (before ++ later) 1) rest
  unfolding slide_items after_item
  slide_items-filling before [] size slide rest h = rw (append-nil before) refl
  slide_items-filling before (v ∷ later) size slide rest h =
      rw (on_item-filling before (suc (length later)) size slide v (omega (arith, h))) (
        ap (λ l. sent_on v ∷ l)
          (slide_items-filling (before ++ v ∷ []) later size slide rest
              (omega (arith, h, length-snoc before v))
            ∙ ap (λ b. map sent_on later ++ slide_items handler size slide (filling b 1) rest)
                (append-snoc before v later)))

  -- A full window that was not sent yet lets the values pass.
  slide_items-waiting :
      (xs later : List A) (n slide : ℕ) (rest : List (Item A))
      → n + length later < slide
      → slide_items handler (length xs) slide (full xs n true) (map value later ++ rest)
        ≡ map sent_on later
          ++ slide_items handler (length xs) slide (full xs (n + length later) true) rest
  unfolding slide_items after_item
  slide_items-waiting xs [] n slide rest h = rw (add_zero n) refl
  slide_items-waiting xs (v ∷ later) n slide rest h =
      rw
        (
          on_item-full xs n slide true v,
          slide_on-waiting xs n v,
          send_window-not_yet xs (n + 1) slide true (omega arith) (omega (arith, h)),
        )
        (ap (λ l. sent_on v ∷ l)
          (slide_items-waiting xs later (n + 1) slide rest (omega (arith, h))
            ∙ ap
                (λ k.
                  map sent_on later ++ slide_items handler (length xs) slide (full xs k true) rest)
                (omega arith)))

  -- what the operator does with the values that come after the first window was sent
  unfoldable pub slid_events : ℕ → ℕ → List A → List A → List (Event A)
  slid_events slide n past [] = []
  slid_events slide n past (v ∷ later) =
      let rest = slid_events slide (n + 1) (slid past v) later in
      if (n + 1) % slide == 0
      then by_handler handler (map some (slid past v)) v (handler (map some (slid past v))) rest
      else sent_on v ∷ rest

  slide_items-sliding :
      (past later : List A) (size n slide : ℕ)
      → size ≡ length past
      → 0 < size
      → slide_items handler size slide (full past n false) (map value later)
        ≡ slid_events slide n past later
  unfolding slide_items slid_events send_window after_item
  slide_items-sliding past [] size n slide e pos = refl
  slide_items-sliding past (v ∷ later) size n slide e pos =
      let rest =
        slide_items-sliding (slid past v) later size (n + 1) slide
          (e ∙ length-slid_of past v (omega (arith, e, pos))) pos in
      elim (Bool-cases ((n + 1) % slide == 0)) [
        | inl h ↦
            rw
              (
                e,
                on_item-full past n slide false v,
                slide_on-sliding past n v (omega (arith, e, pos)),
                h,
              )
              (ap (by_handler handler (map some (slid past v)) v (handler (map some (slid past v))))
                rest)
        | inr h ↦
            rw
              (
                e,
                on_item-full past n slide false v,
                slide_on-sliding past n v (omega (arith, e, pos)),
                h,
              )
              (ap (λ l. sent_on v ∷ l) rest)
      ]

  -- the first window is full
  slide_items-fills :
      (before : List A) (x : A) (slide : ℕ) (rest : List (Item A))
      → slide_items handler
          (suc (length before))
          slide
          (filling [] (suc (length before)))
          (map value before ++ value x ∷ rest)
        ≡ map sent_on before
          ++ slide_items handler (suc (length before)) slide (filling before 1) (value x ∷ rest)
  slide_items-fills before x slide rest =
      slide_items-filling [] before (suc (length before)) slide (value x ∷ rest) (omega arith)

  sliding_window-slide_items :
      (size slide : ℕ) (items : List (Item A))
      → 0 < size
      → 0 < slide
      → sliding_window_with_count handler size slide items
        ≡ slide_items handler size slide (filling [] size) items
  unfolding sliding_window_with_count new_window
  sliding_window-slide_items size slide items h h' =
      rw (equal_zero size h, equal_zero slide h') refl

  -- With a slide of one the handler gets a window for each value from the size-th on, which has the
  -- last values in their order. The values before are only passed on.
  pub sliding_window_with_count-slid_events :
      (before later : List A) (x : A)
      → sliding_window_with_count handler (suc (length before)) 1 (map value (before ++ x ∷ later))
        ≡ map sent_on before
          ++ by_handler handler
              (map some (before ++ x ∷ []))
              x
              (handler (map some (before ++ x ∷ [])))
              (slid_events 1 1 (before ++ x ∷ []) later)
  unfolding slide_items after_item
  sliding_window_with_count-slid_events before later x =
      sliding_window-slide_items (suc (length before)) 1 (map value (before ++ x ∷ later))
        (omega arith) (omega arith)
      ∙ rw
          (
            map-append value before (x ∷ later),
            slide_items-fills before x 1 (map value later),
            on_item-fills before 1 x,
            send_window-at (before ++ x ∷ []) 1 true,
            slide_items-sliding (before ++ x ∷ []) later (suc (length before)) 1 1
                (suc-length before x) (omega arith),
          )
          refl

  slide_items-first :
      (xs between later : List A) (v : A) (size slide : ℕ)
      → size ≡ length xs
      → 0 < size
      → length between + 2 ≡ slide
      → slide_items handler size slide (full xs 1 true) (map value (between ++ v ∷ later))
        ≡ map sent_on between
          ++ by_handler handler
              (map some xs)
              v
              (handler (map some xs))
              (slid_events slide slide xs later)
  unfolding slide_items after_item
  slide_items-first xs between later v size slide e pos h =
      let due : 1 + length between + 1 ≡ slide = omega (arith, h) in
      rw
        (
          e,
          map-append value between (v ∷ later),
          slide_items-waiting xs between 1 slide (value v ∷ map value later) (omega (arith, h)),
          on_item-full xs (1 + length between) slide true v,
          slide_on-waiting xs (1 + length between) v,
          due,
          send_window-at xs slide true,
          slide_items-sliding xs later (length xs) slide slide refl (omega (arith, e, pos)),
        )
        refl

  -- With a slide of two or more, the values that come between the filling of the first window and its
  -- sending are in no window: the handler gets the first values when slide - 1 others have passed, and
  -- what slides into the window are only the values after that.
  pub sliding_window_with_count_loses :
      (before between later : List A) (x v : A)
      → let slide = suc (suc (length between)) in
        sliding_window_with_count handler
          (suc (length before))
          slide
          (map value (before ++ x ∷ (between ++ v ∷ later)))
        ≡ map sent_on before
          ++ sent_on x
            ∷ (map sent_on between
                ++ by_handler handler
                    (map some (before ++ x ∷ []))
                    v
                    (handler (map some (before ++ x ∷ [])))
                    (slid_events slide slide (before ++ x ∷ []) later))
  unfolding slide_items after_item
  sliding_window_with_count_loses before between later x v =
      let slide = suc (suc (length between)) in
      sliding_window-slide_items (suc (length before)) slide
        (map value (before ++ x ∷ (between ++ v ∷ later))) (omega arith) (omega arith)
      ∙ rw
          (
            map-append value before (x ∷ (between ++ v ∷ later)),
            slide_items-fills before x slide (map value (between ++ v ∷ later)),
            on_item-fills before slide x,
            send_window-not_yet (before ++ x ∷ []) 1 slide true (omega arith) (omega arith),
            slide_items-first (before ++ x ∷ []) between later v (suc (length before)) slide
                (suc-length before x) (omega arith) (omega arith),
          )
          refl
