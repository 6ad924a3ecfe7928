-- ===== src/Codec/Panics.antt =====
-- Where the decoder indexes out of range.
use yomo.Try.{Try, returns, fails, panics, tried, ◌>>=◌}
use yomo.Common.{
  ℕ, String, ◌≡◌, refl, ◌≢◌, ◌⊎◌, inl, inr, Option, none, some, [], ◌∷◌, nat_key, string_key,
}
use yomo.Errors.{Error, Result, ok, err}
use yomo.Frame.{
  Bytes, HandshakeFrame, Frame, data_frame, handshake_frame, handshake_ack_frame, rejected_frame,
  goaway_frame, connect_to_frame, frame_type,
}
use yomo.GoMap.{GoMap, get}
use yomo.Codec.{Y3, tag_handshake_client_type, tag_message, tag_data_frame_tag}
use yomo.Codec.Decode.{
  block, first, read_data_frame, read_handshake_frame, read_message, read_frame_of, decode,
}

tried-after {ℓ} :
    {A B : Type ℓ}
    → (r : Result A) (k : A → Try B) → (tried r >>= k) ≡ panics
    → (a : A) × (k a ≡ panics)
unfolding ◌>>=◌
tried-after (ok a) k h = (a, h)
tried-after (err e) k h = cc

-- Past a block that is read without an index, a panic comes from what follows.
after-block {ℓ} :
    {A B V : Type ℓ}
    → (o : Option V) (g : V → Result A) (old : A) (k : A → Try B)
    → (block o (λ v. tried (g v)) old >>= k) ≡ panics
    → (a : A) × (k a ≡ panics)
unfolding ◌>>=◌ block
after-block none g old k h = (old, h)
after-block (some v) g old k h = tried-after (g v) k h

after-bytes {ℓ} :
    {A B V : Type ℓ}
    → (o : Option V) (g : V → A) (old : A) (k : A → Try B)
    → (block o (λ v. returns (g v)) old >>= k) ≡ panics
    → (a : A) × (k a ≡ panics)
unfolding ◌>>=◌ block
after-bytes none g old k h = (old, h)
after-bytes (some v) g old k h = (g v, h)

first-after {ℓ} :
    {B : Type ℓ}
    → (bs : Bytes) (k : ℕ → Try B) → (first bs >>= k) ≡ panics
    → (bs ≡ []) ⊎ ((a : ℕ) × (k a ≡ panics))
unfolding first ◌>>=◌
first-after [] k h = inl refl
first-after (b ∷ bs) k h = inr (b, h)

-- The block of the client type is there and holds no byte.
abbrev pub NoClientType : (y : Y3) → GoMap ℕ y.Value → Type 0
NoClientType y node =
    (v : y.Value) × (get node tag_handshake_client_type ≡ some v) × (y.to_bytes v ≡ [])

first-block {ℓ} :
    {B : Type ℓ}
    → (y : Y3) (o : Option y.Value) (old : ℕ) (k : ℕ → Try B)
    → (block o (λ v. first (y.to_bytes v)) old >>= k) ≡ panics
    → ((a : ℕ) → k a ≢ panics)
    → (v : y.Value) × (o ≡ some v) × (y.to_bytes v ≡ [])
unfolding ◌>>=◌ block
first-block y none old k h n = absurd (n old h)
first-block y (some v) old k h n = elim (first-after (y.to_bytes v) k h) [
  | inl e ↦ (v, refl, e)
  | inr (a, p) ↦ absurd (n a p)
]

returns-ne-panics {ℓ} : {A : Type ℓ} → (a : A) → returns a ≢ panics
returns-ne-panics a = λ h. cc

fails-ne-panics {ℓ} : {A : Type ℓ} → (e : Error) → ¬ ◌≡◌ {A = Try A} (fails e) panics
fails-ne-panics e = λ h. cc

before-returns {ℓ} :
    {A B : Type ℓ} → (r : Try A) (k : A → B) → (r >>= (λ a. returns (k a))) ≡ panics → r ≡ panics
unfolding ◌>>=◌
before-returns (returns a) k h = cc
before-returns (fails e) k h = cc
before-returns panics k h = refl

read_handshake_frame_panics :
    (y : Y3) (node : GoMap ℕ y.Value) (f : HandshakeFrame)
    → read_handshake_frame y node f ≡ panics
    → NoClientType y node
unfolding read_handshake_frame
read_handshake_frame_panics y node f h =
    let (name, h1) = after-block _ _ _ _ h in
    let (id, h2) = after-block _ _ _ _ h1 in
    first-block y (get node tag_handshake_client_type) _ _ h2 (λ t h3.
      let (tags, h4) = after-bytes _ _ _ _ h3 in
      let (auth_name, h5) = after-block _ _ _ _ h4 in
      let (auth_payload, h6) = after-block _ _ _ _ h5 in
      let (version, h7) = after-block _ _ _ _ h6 in
      let (definition, h8) = after-bytes _ _ _ _ h7 in
      let (wanted, h9) = after-block _ _ _ _ h8 in absurd (returns-ne-panics _ h9))

message-ne-panics :
    (y : Y3) (node : GoMap ℕ y.Value) (m : String) (f : String → Frame)
    → (read_message y node m >>= (λ m'. returns (f m'))) ≢ panics
unfolding read_message
message-ne-panics y node m f = λ h.
    let (m', p) =
      after-block (get node tag_message) (λ v. y.to_utf8_string v) m (λ m'. returns (f m')) h in
    absurd (returns-ne-panics _ p)

read_frame_of_panics :
    (y : Y3) (node : GoMap ℕ y.Value) (f : Frame)
    → read_frame_of y node f ≡ panics
    → (frame_type f ≡ 0x31) × NoClientType y node
unfolding read_frame_of read_data_frame frame_type
read_frame_of_panics y node (rejected_frame m) h = absurd (message-ne-panics y node m _ h)
read_frame_of_panics y node (goaway_frame m) h = absurd (message-ne-panics y node m _ h)
read_frame_of_panics y node (connect_to_frame m) h = absurd (message-ne-panics y node m _ h)
read_frame_of_panics y node handshake_ack_frame h = absurd (returns-ne-panics _ h)
read_frame_of_panics y node (data_frame f) h =
    let h' = before-returns _ _ h in
    let (tag, h1) = after-block (get node tag_data_frame_tag) (λ v. y.to_uint32 v) f.tag _ h' in
    let (metadata, h2) = after-bytes _ _ _ _ h1 in
    let (payload, h3) = after-bytes _ _ _ _ h2 in absurd (returns-ne-panics _ h3)
read_frame_of_panics y node (handshake_frame f) h =
    (refl, read_handshake_frame_panics y node f (before-returns _ _ h))

-- A decoder panics only on the handshake frame, of a packet with a block of the client type that
-- holds no byte: the code indexes that block without looking at its length.
pub decode_panics :
    (y : Y3) (b : y.Packet) (f : Frame)
    → decode y b f ≡ panics
    → (frame_type f ≡ 0x31)
      × ((node : GoMap ℕ y.Value) × (y.decode_node b ≡ ok node) × NoClientType y node)
unfolding ◌>>=◌ decode
decode_panics y b f h = go (y.decode_node b) refl h
  where
    go :
        (r : Result (GoMap ℕ y.Value))
        → y.decode_node b ≡ r
        → (tried r >>= (λ node. read_frame_of y node f)) ≡ panics
        → (frame_type f ≡ 0x31)
          × ((node : GoMap ℕ y.Value) × (y.decode_node b ≡ ok node) × NoClientType y node)
    go (ok node) e p = let (t, n) = read_frame_of_panics y node f p in (t, (node, e, n))
    go (err x) e p = absurd (fails-ne-panics x p)
