-- ===== src/Ai/Middleware.antt =====
-- pkg/bridge/ai/ai.go: the middleware that registers the functions of a connection.
use yomo.Common.{
  ℕ, ◌+◌, String, ◌≡◌, refl, sym, ap, true, Option, none, some, List, [], ◌∷◌, ◌++◌, arith, ◌==◌,
  nat_key, string_key, if◌then◌else◌, is_some,
}
use mathlib.Core.Path.{subst}
use yomo.Errors.{Result, ok, err}
use yomo.Frame.{Tag}
use yomo.GoMap.{get, IsMap}
use yomo.GoMap.Laws.{get-delete, get-put, put-IsMap}
use yomo.Metadata.{M, lookup, set, clone}
use yomo.Connection.{Connection, client_type_stream_function}
use yomo.Server.Handshake.{function_definition_key}
use yomo.Register.{Register, register_function, unregister_function, sfn_factor}
use yomo.Register.Factor.{offers, sfn_factor-register_function}
use yomo.Ai.{FunctionDefinition}

-- one round of the loop: `none` where it returns for a definition that is no JSON
unfoldable pub register_parsed :
    Register FunctionDefinition
    → Tag
    → ℕ
    → Result FunctionDefinition
    → Option (Register FunctionDefinition)
register_parsed r tag id (err e) = none
register_parsed r tag id (ok fd) = some (register_function r tag fd id)

unfoldable pub go_on :
    Register FunctionDefinition
    → Option (Register FunctionDefinition)
    → (Register FunctionDefinition → Register FunctionDefinition)
    → Register FunctionDefinition
go_on r none k = r
go_on r (some r') k = k r'

-- for _, tag := range conn.ObserveDataTags(); the definition is parsed anew in each round
unfoldable pub register_tags :
    Register FunctionDefinition
    → List Tag
    → ℕ
    → Result FunctionDefinition
    → Register FunctionDefinition
register_tags r [] id fd = r
register_tags r (tag ∷ tags) id fd =
    go_on r (register_parsed r tag id fd) (λ r'. register_tags r' tags id fd)

-- What the middleware leaves: the register, or `gone` for the panic of a write to nil metadata.
pub data Left : Type 0 where
  left : Register FunctionDefinition → Left
  gone : Register FunctionDefinition → Left

module _ (parse : String → Result FunctionDefinition)
    (next : Connection → Register FunctionDefinition → Register FunctionDefinition) where
  -- before the deferred function: nothing, or the registrations
  unfoldable pub registered :
      Connection → Option String → Register FunctionDefinition → Register FunctionDefinition
  registered conn none r = r
  registered conn (some definition) r =
      if conn.client_type == client_type_stream_function
      then register_tags r conn.observe_data_tags conn.id (parse definition)
      else r

  unfoldable pub unregistered :
      Connection → Option String → Register FunctionDefinition → Register FunctionDefinition
  unregistered conn none r = r
  unregistered conn (some definition) r = unregister_function r conn.id

  -- the deferred function
  unfoldable pub deferred :
      Connection → Option String → Option M → Register FunctionDefinition → Left
  deferred conn definition none r = gone r
  deferred conn definition (some md) r =
      left (unregistered conn definition (next (record conn { metadata = md }) r))

  -- ConnMiddleware(next)(conn); `next` gives the register that it leaves, whatever the other
  -- connections did to it meanwhile
  unfoldable pub conn_middleware : Connection → Register FunctionDefinition → Left
  conn_middleware conn r =
      let definition = lookup (clone conn.metadata) function_definition_key in
      deferred conn definition (set conn.metadata function_definition_key "")
        (registered conn definition r)

register_tags-IsMap :
    (r : Register FunctionDefinition) (tags : List Tag) (id : ℕ) (fd : FunctionDefinition)
    → IsMap r
    → IsMap (register_tags r tags id (ok fd))
unfolding register_tags go_on register_parsed register_function
register_tags-IsMap r [] id fd h = h
register_tags-IsMap r (tag ∷ tags) id fd h =
    register_tags-IsMap (register_function r tag fd id) tags id fd (put-IsMap r id _ h)

register_tags-append :
    (r : Register FunctionDefinition) (tags : List Tag) (tag : Tag) (id : ℕ)
    (fd : FunctionDefinition)
    → register_tags r (tags ++ tag ∷ []) id (ok fd)
      ≡ register_function (register_tags r tags id (ok fd)) tag fd id
unfolding register_tags go_on register_parsed
register_tags-append r [] tag id fd = refl
register_tags-append r (t ∷ tags) tag id fd =
    register_tags-append (register_function r t fd id) tags tag id fd

register_function-IsMap :
    (r : Register FunctionDefinition) (tag : Tag) (fd : FunctionDefinition) (id : ℕ)
    → IsMap r
    → IsMap (register_function r tag fd id)
unfolding register_function
register_function-IsMap r tag fd id h = put-IsMap r id _ h

get-register_function :
    (r : Register FunctionDefinition) (tag : Tag) (fd : FunctionDefinition) (id : ℕ)
    → get (register_function r tag fd id) id
      ≡ some (record {
        conn_id = id;
        tag = tag;
        tools = record { tool_type = "function"; function = fd };
      })
unfolding register_function
get-register_function r tag fd id = ground (
  arith,
  get-put r id id (record {
    conn_id = id;
    tag = tag;
    tools = record { tool_type = "function"; function = fd };
  }),
)

-- What the tags change of a factor is what the connection offers.
others_kept :
    (r : Register FunctionDefinition) (tags : List Tag) (id : ℕ) (fd : FunctionDefinition) (t : Tag)
    → IsMap r
    → sfn_factor (register_tags r tags id (ok fd)) t + offers (get r id) t
      ≡ sfn_factor r t + offers (get (register_tags r tags id (ok fd)) id) t
unfolding register_tags go_on register_parsed
others_kept r [] id fd t h = omega arith
others_kept r (tag ∷ tags) id fd t h =
    let r' = register_function r tag fd id in
    omega (
      arith,
      others_kept r' tags id fd t (register_function-IsMap r tag fd id h),
      sfn_factor-register_function r tag fd id t h,
      ap (λ o. offers o t) (get-register_function r tag fd id),
    )

-- For a function with several tags and a definition that can be read, only the last tag counts: in a
-- register that holds a connection once, the factor of any tag is what it was without the
-- connection, and one more if it is the last tag.
pub register_tags-last :
    (r : Register FunctionDefinition) (tags : List Tag) (tag : Tag) (id : ℕ)
    (fd : FunctionDefinition) (t : Tag)
    → IsMap r
    → sfn_factor (register_tags r (tags ++ tag ∷ []) id (ok fd)) t + offers (get r id) t
      ≡ sfn_factor r t + (if tag == t then 1 else 0)
register_tags-last r tags tag id fd t h =
    let before = register_tags r tags id (ok fd) in
    omega (
      arith,
      ap (λ m. sfn_factor m t) (register_tags-append r tags tag id fd),
      sfn_factor-register_function before tag fd id t (register_tags-IsMap r tags id fd h),
      others_kept r tags id fd t h,
    )

-- The register that is left, unless the process is gone.
abbrev pub AbsentIn : ℕ → Left → Type 0
AbsentIn id (left r) = get r id ≡ none
AbsentIn id (gone r) = ⊥

absent-unregistered :
    (parse : String → Result FunctionDefinition)
    (next : Connection → Register FunctionDefinition → Register FunctionDefinition)
    (conn : Connection) (definition : String) (r : Register FunctionDefinition)
    → get (unregistered parse next conn (some definition) r) conn.id ≡ none
unfolding unregistered unregister_function
absent-unregistered parse next conn definition r = ground (arith, get-delete r conn.id conn.id)

deferred-AbsentIn :
    (parse : String → Result FunctionDefinition)
    (next : Connection → Register FunctionDefinition → Register FunctionDefinition)
    (conn : Connection) (o : Option String) (definition : String) (md : Option M)
    (r : Register FunctionDefinition)
    → o ≡ some definition
    → is_some md ≡ true
    → AbsentIn conn.id (deferred parse next conn o md r)
unfolding deferred
deferred-AbsentIn parse next conn o definition none r h m = cc
deferred-AbsentIn parse next conn o definition (some md) r h m =
    subst
      (λ x.
        get (unregistered parse next conn x (next (record conn { metadata = md }) r)) conn.id
        ≡ none)
      (sym h) (absent-unregistered parse next conn definition _)

-- Once the handler of a connection that brought a definition has returned, the register has nothing
-- of the connection, whatever the handler and the other connections did to the register; the
-- metadata of the connection is not nil.
pub conn_middleware-AbsentIn :
    (parse : String → Result FunctionDefinition)
    (next : Connection → Register FunctionDefinition → Register FunctionDefinition)
    (conn : Connection) (definition : String) (r : Register FunctionDefinition)
    → lookup (clone conn.metadata) function_definition_key ≡ some definition
    → is_some (set conn.metadata function_definition_key "") ≡ true
    → AbsentIn conn.id (conn_middleware parse next conn r)
unfolding conn_middleware
conn_middleware-AbsentIn parse next conn definition r h m =
    deferred-AbsentIn parse next conn (lookup (clone conn.metadata) function_definition_key)
      definition (set conn.metadata function_definition_key "") _ h m
