-- ===== src/Drivers.antt =====
-- cli/serverless/serverless.go: the drivers of the runtimes by the extension of a source file.
use yomo.Common.{
  String, ◌≡◌, refl, sym, ap, ◌∙◌, Bool, true, false, ◌||◌, Option, none, some, List, [], ◌∷◌, ◌==◌,
  nat_key, string_key, if◌then◌else◌, contains,
}
use yomo.Errors.{Error, plain, Result, ok, err}
use yomo.GoMap.{GoMap, get, put}
use yomo.GoMap.Laws.{get-put}
use Prim.Native.String.{◌++◌ as join}

-- What Init of a driver does with its options is not part of this file.
pub record Driver : Type 0 where
  pub driver_name : String
  pub init : String → Option Error

-- Whether Register panicked, and the drivers then.
pub record Registered : Type 0 where
  pub drivers : GoMap String Driver
  pub panicked : Bool

unfoldable pub unless_dup : GoMap String Driver → Registered → Option Driver → Registered
unless_dup drivers rest (some dup) = record { drivers = drivers; panicked = true }
unless_dup drivers rest none = rest

-- for _, ext := range exts
unfoldable pub register_exts : Driver → List String → GoMap String Driver → Registered
register_exts s [] drivers = record { drivers = drivers; panicked = false }
register_exts s (ext ∷ exts) drivers =
    let rest = register_exts s exts (put drivers ext s) in unless_dup drivers rest (get drivers ext)

-- Register(s, exts...)
unfoldable pub register : Option Driver → List String → GoMap String Driver → Registered
register none exts drivers = record { drivers = drivers; panicked = true }
register (some s) exts drivers = register_exts s exts drivers

unfoldable pub init_driver : Driver → String → Option Error → Result Driver
init_driver s filename (some e) = err e
init_driver s filename none = ok s

unfoldable pub create_by : String → String → Option Driver → Result Driver
create_by filename ext none =
    err (plain (join (join "serverless: unsupport \"" ext) "\" source (forgotten import?)"))
create_by filename ext (some s) = init_driver s filename (s.init filename)

-- Create(opts); `ext` is filepath.Ext
unfoldable pub create : (String → String) → GoMap String Driver → String → Result Driver
create ext drivers filename = create_by filename (ext filename) (get drivers (ext filename))

goes_on :
    (drivers : GoMap String Driver) (rest : Registered) (o : Option Driver)
    → (unless_dup drivers rest o).panicked ≡ false
    → unless_dup drivers rest o ≡ rest
unfolding unless_dup
goes_on drivers rest none h = refl
goes_on drivers rest (some dup) h = cc

if-or {ℓ} :
    {A : Type ℓ} (a b : Bool) (x y : A)
    → (if b then x else (if a then x else y)) ≡ (if a || b then x else y)
if-or true true x y = refl
if-or true false x y = refl
if-or false true x y = refl
if-or false false x y = refl

-- What a registration that did not panic has done to a lookup.
get-register_exts :
    (s : Driver) (exts : List String) (drivers : GoMap String Driver) (ext : String)
    → (register_exts s exts drivers).panicked ≡ false
    → get (register_exts s exts drivers).drivers ext
      ≡ (if contains exts ext then some s else get drivers ext)
unfolding register_exts contains
get-register_exts s [] drivers ext h = refl
get-register_exts s (e ∷ exts) drivers ext h =
    let rest = register_exts s exts (put drivers e s) in
    let same = goes_on drivers rest (get drivers e) h in
    rw
      (
        same,
        get-register_exts s exts (put drivers e s) ext (ap (λ r. r.panicked) (sym same) ∙ h),
        get-put drivers e ext s,
      )
      (if-or (e == ext) (contains exts ext) (some s) (get drivers ext))

by_found :
    (b : Bool) (s : Driver) (filename ext : String) (o : Option Driver)
    → create_by filename ext (if b then some s else o)
      ≡ (if b then init_driver s filename (s.init filename) else create_by filename ext o)
unfolding create_by
by_found true s filename ext o = refl
by_found false s filename ext o = refl

-- After a registration that did not panic, the files with one of its extensions are given to its
-- driver, and all others as before.
pub create-register :
    (ext : String → String) (s : Driver) (exts : List String) (drivers : GoMap String Driver)
    (filename : String)
    → (register (some s) exts drivers).panicked ≡ false
    → create ext (register (some s) exts drivers).drivers filename ≡ (
        if contains exts (ext filename)
        then init_driver s filename (s.init filename)
        else create ext drivers filename)
unfolding register create
create-register ext s exts drivers filename h =
    rw (get-register_exts s exts drivers (ext filename) h) (
      by_found (contains exts (ext filename)) s filename (ext filename)
        (get drivers (ext filename)))
