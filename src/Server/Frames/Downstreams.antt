-- ===== src/Server/Frames/Downstreams.antt =====
-- To which downstreams a frame is written.
use text.Mathlib.TextEquality.{eq_iff}
use yomo.Common.{
  ℕ, String, ◌≡◌, refl, sym, ap, ◌∙◌, not, ◌&&◌, none, List, [], ◌∷◌, ◌++◌, arith, ◌==◌, nat_key,
  string_key, if◌then◌else◌,
}
use yomo.Connection.{client_type_upstream_zipper}
use yomo.Connector.{Connector}
use yomo.Context.{Context}
use yomo.Errors.{ok}
use yomo.Frame.{Frame, DataFrame, Bytes, data_frame}
use yomo.GoMap.{GoMap, get, has}
use yomo.Metadata.{made, encode}
use yomo.Server.Frames.{
  deliver, dispatch_all, routing_data_frame, dispatch_to_downstreams, handle_frame, traced,
}
use yomo.Server.Routers.{RouterImpl}
use yomo.Server.State.{
  Config, Server, Downstream, Effect, write, write_downstream, close_with_error,
}

-- The frames that the effects write to the downstream of an identifier, in order.
abbrev frames_down : String → Effect → List Frame
frames_down k (write fconn f) = []
frames_down k (write_downstream id f) = if id == k then f ∷ [] else []
frames_down k (close_with_error fconn e) = []

pub sent_down : String → List Effect → List Frame
sent_down k [] = []
sent_down k (e ∷ effects) = frames_down k e ++ sent_down k effects

append_assoc {ℓ} : {A : Type ℓ} (xs ys zs : List A) → (xs ++ ys) ++ zs ≡ xs ++ (ys ++ zs)
append_assoc [] ys zs = refl
append_assoc (x ∷ xs) ys zs = ap (λ l. x ∷ l) (append_assoc xs ys zs)

sent_down-append :
    (k : String) (a b : List Effect) → sent_down k (a ++ b) ≡ sent_down k a ++ sent_down k b
unfolding sent_down
sent_down-append k [] b = refl
sent_down-append k (e ∷ a) b =
    ap (λ l. frames_down k e ++ l) (sent_down-append k a b)
    ∙ sym (append_assoc (frames_down k e) (sent_down k a) (sent_down k b))

-- Each downstream stands under its own identifier, once.
abbrev pub IsKeyedByIds : GoMap String Downstream → Type 0
IsKeyedByIds [] = Unit
IsKeyedByIds ((k, ds) ∷ m) = (ds.id ≡ k) × (get m k ≡ none) × IsKeyedByIds m

sent_down-deliver :
    (k : String) (c : Connector) (df : DataFrame) (ids : List ℕ)
    → sent_down k (deliver c df ids) ≡ []
unfolding sent_down deliver
sent_down-deliver k c df [] = refl
sent_down-deliver k c df (id ∷ ids) = ground (arith, sent_down-deliver k c df ids)

sent_down-dispatch_all :
    (k : String) (m : GoMap String Downstream) (df : DataFrame)
    → IsKeyedByIds m
    → sent_down k (dispatch_all m df) ≡ (if has m k then data_frame df ∷ [] else [])
unfolding sent_down dispatch_all get
sent_down-dispatch_all k [] df h = refl
sent_down-dispatch_all k ((j, ds) ∷ m) df h =
    ground (arith, h.0, h.1, sent_down-dispatch_all k m df h.2, eq_iff j k)

-- If the downstreams stand under their own ids, and the metadata of a frame with the trace can be
-- encoded, what is written to each of them is the frame, once, with that metadata and its own tag
-- and payload; if the frame came from an upstream zipper, nothing is.
pub sent_down-handle_frame :
    (R : RouterImpl) (cfg : Config) {A : Type 0} (s : Server R.State) (c : Context A) (b : Bytes)
    (k : String)
    → IsKeyedByIds s.downstreams
    → encode cfg.msgpack (traced R cfg c) ≡ ok b
    → sent_down k (handle_frame R cfg s c).1 ≡ (
        if not (c.connection.client_type == client_type_upstream_zipper) && has s.downstreams k
        then data_frame (record { metadata = b; tag = c.frame.tag; payload = c.frame.payload }) ∷ []
        else [])
unfolding handle_frame routing_data_frame dispatch_to_downstreams sent_down
sent_down-handle_frame R cfg s c b k h e = ground (
  arith,
  e,
  sent_down-append k (deliver s.connector df ids) (dispatch_all s.downstreams df ++ []),
  sent_down-append k (deliver s.connector df ids) ([] ++ []),
  sent_down-append k (dispatch_all s.downstreams df) [],
  sent_down-deliver k s.connector df ids,
  sent_down-dispatch_all k s.downstreams df h,
)
  where
    df : DataFrame
    df = record { metadata = b; tag = c.frame.tag; payload = c.frame.payload }

    ids : List ℕ
    ids = R.route s.router c.frame.tag (made (traced R cfg c))
