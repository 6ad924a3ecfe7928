-- ===== src/Rx/Windows.antt =====
-- The window of SlidingWindowWithCount while it is filled, waits and slides.
use yomo.Common.{
  ℕ, suc, ◌+◌, ◌<◌, ◌≡◌, refl, sym, ap, ◌∙◌, Bool, true, false, Option, none, some, List, [], ◌∷◌,
  ◌++◌, map, arith, ◌==◌, nat_key, string_key, ltb, length, length-append,
}
use native.Mathlib.Nat.{mod_self, mod-eq_of_lt}
use yomo.Rx.Sliding.{Window, nils, set_at, slide_buf, fill_window, slide_on, send_window, on_item}

pub append-snoc {ℓ} :
    {A : Type ℓ} (xs : List A) (v : A) (ys : List A) → (xs ++ v ∷ []) ++ ys ≡ xs ++ v ∷ ys
append-snoc [] v ys = refl
append-snoc (x ∷ xs) v ys = ap (λ l. x ∷ l) (append-snoc xs v ys)

pub append-nil {ℓ} : {A : Type ℓ} (xs : List A) → xs ++ [] ≡ xs
append-nil [] = refl
append-nil (x ∷ xs) = ap (λ l. x ∷ l) (append-nil xs)

pub add_zero : (n : ℕ) → n + 0 ≡ n
add_zero n = omega arith

pub map-append {ℓ ℓ'} :
    {A : Type ℓ} {B : Type ℓ'} (f : A → B) (xs ys : List A)
    → map f (xs ++ ys) ≡ map f xs ++ map f ys
map-append f [] ys = refl
map-append f (x ∷ xs) ys = ap (λ l. f x ∷ l) (map-append f xs ys)

pub ltb-true : (m n : ℕ) → m < n → ltb m n ≡ true
ltb-true m n h = ground arith

pub ltb-false : (n : ℕ) → ltb n n ≡ false
ltb-false n = ground arith

pub equal_false : (m n : ℕ) → m < n → (m == n) ≡ false
equal_false m n h = ground arith

pub equal_zero : (n : ℕ) → 0 < n → (n == 0) ≡ false
equal_zero n h = ground arith

pub equal_true : (n : ℕ) → (n == n) ≡ true
equal_true n = ground arith

module _ {ℓ} {A : Type ℓ} where
  -- the window after one more value
  unfoldable pub slid : List A → A → List A
  slid [] v = v ∷ []
  slid (x ∷ xs) v = xs ++ v ∷ []

  pub map-snoc : (xs : List A) (v : A) → map some xs ++ some v ∷ [] ≡ map some (xs ++ v ∷ [])
  map-snoc [] v = refl
  map-snoc (x ∷ xs) v = ap (λ l. some x ∷ l) (map-snoc xs v)

  pub slide_buf-slid : (xs : List A) (v : A) → slide_buf (map some xs) v ≡ map some (slid xs v)
  unfolding slide_buf slid
  slide_buf-slid [] v = refl
  slide_buf-slid (x ∷ xs) v = map-snoc xs v

  pub length-slid : (x : A) (xs : List A) (v : A) → length (slid (x ∷ xs) v) ≡ length (x ∷ xs)
  unfolding slid
  length-slid x xs v = ground (arith, length-append xs (v ∷ []))

  pub length-slid_of :
      (past : List A) (v : A) → 0 < length past → length past ≡ length (slid past v)
  length-slid_of [] v h = absurd (omega arith)
  length-slid_of (x ∷ xs) v h = sym (length-slid x xs v)

  pub set_at-some :
      (before : List A) (later : List (Option A)) (v : A)
      → set_at (map some before ++ none ∷ later) (length before) v
        ≡ map some before ++ some v ∷ later
  unfolding set_at
  set_at-some [] later v = refl
  set_at-some (x ∷ before) later v = ap (λ l. some x ∷ l) (set_at-some before later v)

  -- a window that is being filled
  abbrev pub filling : List A → ℕ → Window A
  filling before free = record {
    window_count = length before;
    slide_count = 0;
    buf = map some before ++ nils free;
    first_time_send = true;
  }

  -- a full window, and whether it is the first one
  abbrev pub full : List A → ℕ → Bool → Window A
  full xs n first = record {
    window_count = length xs;
    slide_count = n;
    buf = map some xs;
    first_time_send = first;
  }

  pub length-snoc : (xs : List A) (v : A) → length (xs ++ v ∷ []) ≡ length xs + 1
  length-snoc xs v = length-append xs (v ∷ [])

  pub suc-length : (xs : List A) (v : A) → suc (length xs) ≡ length (xs ++ v ∷ [])
  suc-length xs v = omega (arith, length-snoc xs v)

  pub filled-buf :
      (before : List A) (free : ℕ) (v : A)
      → set_at (map some before ++ none ∷ nils free) (length before) v
        ≡ map some (before ++ v ∷ []) ++ nils free
  filled-buf before free v =
      set_at-some before (nils free) v
      ∙ sym (append-snoc (map some before) (some v) (nils free))
      ∙ ap (λ l. l ++ nils free) (map-snoc before v)

  pub fill_window-filling :
      (before : List A) (free size : ℕ) (v : A)
      → length before < size
      → fill_window size (filling before (suc free)) v ≡ filling (before ++ v ∷ []) free
  unfolding fill_window nils
  fill_window-filling before free size v h =
      rw (ltb-true (length before) size h, filled-buf before free v, length-snoc before v) refl

  pub on_item-filling :
      (before : List A) (free size slide : ℕ) (v : A)
      → length before + 1 < size
      → on_item size slide (filling before (suc free)) v ≡ (filling (before ++ v ∷ []) free, none)
  unfolding on_item
  on_item-filling before free size slide v h =
      rw
        (
          fill_window-filling before free size v (omega arith),
          equal_false (length (before ++ v ∷ [])) size (omega (arith, length-snoc before v)),
        )
        refl

  pub on_item-fills :
      (before : List A) (slide : ℕ) (v : A)
      → on_item (suc (length before)) slide (filling before 1) v
        ≡ send_window slide (full (before ++ v ∷ []) 1 true)
  unfolding on_item slide_on nils
  on_item-fills before slide v =
      rw
        (
          fill_window-filling before 0 (suc (length before)) v (omega arith),
          sym (suc-length before v),
          equal_true (suc (length before)),
          append-nil (map some (before ++ v ∷ [])),
        )
        refl

  pub on_item-full :
      (xs : List A) (n slide : ℕ) (first : Bool) (v : A)
      → on_item (length xs) slide (full xs n first) v
        ≡ send_window slide (slide_on (full xs n first) v)
  unfolding on_item fill_window
  on_item-full xs n slide first v = rw (ltb-false (length xs), equal_true (length xs)) refl

  pub slide_on-waiting :
      (xs : List A) (n : ℕ) (v : A) → slide_on (full xs n true) v ≡ full xs (n + 1) true
  unfolding slide_on
  slide_on-waiting xs n v = refl

  pub slide_on-sliding :
      (past : List A) (n : ℕ) (v : A)
      → 0 < length past
      → slide_on (full past n false) v ≡ full (slid past v) (n + 1) false
  unfolding slide_on
  slide_on-sliding [] n v h = absurd (omega arith)
  slide_on-sliding (x ∷ xs) n v h = rw (length-slid x xs v, slide_buf-slid (x ∷ xs) v) refl

  pub send_window-not_yet :
      (xs : List A) (n slide : ℕ) (first : Bool)
      → 0 < n
      → n < slide
      → send_window slide (full xs n first) ≡ (full xs n first, none)
  unfolding send_window
  send_window-not_yet xs n slide first pos h = rw (mod-eq_of_lt h, equal_zero n pos) refl

  pub send_window-at :
      (xs : List A) (slide : ℕ) (first : Bool)
      → send_window slide (full xs slide first) ≡ (full xs slide false, some (map some xs))
  unfolding send_window
  send_window-at xs slide first = rw (mod_self slide) refl
