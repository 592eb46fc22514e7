-- ===== src/Server/Frame/RoundTrip.antt =====
-- net/server.rs: the framing of `read_buffer` against an encoder of requests.
use mathlib.Core.List.{append_assoc}
use rust_data_broker.Prelude.{
  drop_add, ℕ, zero, suc, ◌+◌, ◌<◌, ◌≤◌, ◌^◌, ◌≡◌, refl, ap, subst, ◌∙◌, true, false, none, some,
  List, [], ◌∷◌, ◌++◌, arith, All, map, length, length-append, length-take_append, drop-append,
  take, drop, ltb, get_or,
}
use rust_data_broker.Bytes.{
  from_be_bytes, to_be_bytes, from_be_bytes-to_be_bytes, length-to_be_bytes,
}
use rust_data_broker.Server.Wire.{Request, request_as_u8, request_from_u8, enqueue}
use rust_data_broker.Server.Frame.{
  Frame, Batch, incomplete, request, max_payload_size, size_factor, is_too_large, queue_name_of,
  client_id_of, payload_size_of, split_frame, read_frame, read_frames,
}

pub request_from_u8-as_u8 : (r : Request) → request_from_u8 (request_as_u8 r) ≡ some r
unfolding request_from_u8 request_as_u8
request_from_u8-as_u8 enqueue = refl
request_from_u8-as_u8 _ = refl

-- A request as a client makes it; the name fills 64 bytes.
pub record Sent : Type 0 where
  pub command : Request
  pub client_id : ℕ
  pub name : List ℕ
  pub payload : List ℕ

unfoldable pub encode : Sent → List ℕ
encode r =
    request_as_u8 r.command
    ∷ (to_be_bytes 16 r.client_id ++ (to_be_bytes 8 (length r.payload) ++ (r.name ++ r.payload)))

-- What the server takes: the name has its 64 bytes, and the payload fits in `free` bytes of memory.
pub record IsAcceptable (free : ℕ) (r : Sent) : Type 0 where
  pub id_fits : r.client_id < 256 ^ 16
  pub name_fits : length r.name ≡ 64
  pub payload_fits : length r.payload ≤ max_payload_size
  pub memory_fits : size_factor (length r.payload) < free

abbrev pub frame_of : Sent → Frame
frame_of r = record {
  command = r.command;
  client_id = r.client_id;
  payload_size = length r.payload;
  queue_name = queue_name_of r.name;
  payload = r.payload;
}

-- The part of length `n` at the front of a list.
pub take_exact : {A : Type 0} (n : ℕ) (xs ys : List A) → length xs ≡ n → take n (xs ++ ys) ≡ xs
take_exact n xs ys e = subst (λ k. take k (xs ++ ys) ≡ xs) e (length-take_append xs ys)

pub drop_exact : {A : Type 0} (n : ℕ) (xs ys : List A) → length xs ≡ n → drop n (xs ++ ys) ≡ ys
drop_exact n xs ys e = subst (λ k. drop k (xs ++ ys) ≡ ys) e (drop-append xs ys)

module _ (r : Sent) (rest : List ℕ) where
  id_bytes : List ℕ
  id_bytes = to_be_bytes 16 r.client_id

  size_bytes : List ℕ
  size_bytes = to_be_bytes 8 (length r.payload)

  -- The buffer with its parts bracketed to the right.
  unfoldable buffer : List ℕ
  unfolding id_bytes size_bytes
  buffer = request_as_u8 r.command ∷ (id_bytes ++ (size_bytes ++ (r.name ++ (r.payload ++ rest))))

  encode-buffer : encode r ++ rest ≡ buffer
  unfolding encode buffer
  encode-buffer = simp append_assoc

  at_size : drop 17 buffer ≡ size_bytes ++ (r.name ++ (r.payload ++ rest))
  unfolding buffer
  at_size = drop_exact 16 id_bytes _ (length-to_be_bytes 16 r.client_id)

  at_name : drop 25 buffer ≡ r.name ++ (r.payload ++ rest)
  unfolding size_bytes
  at_name =
      drop_add 17 8 buffer
      ∙ ap (drop 8) at_size
      ∙ drop_exact 8 size_bytes _ (length-to_be_bytes 8 (length r.payload))

  module _ (free : ℕ) (h : IsAcceptable free r) where
    at_payload : drop 89 buffer ≡ r.payload ++ rest
    at_payload = drop_add 25 64 buffer ∙ ap (drop 64) at_name ∙ drop_exact 64 r.name _ h.name_fits

    read_id : client_id_of buffer ≡ r.client_id
    unfolding client_id_of buffer id_bytes
    read_id =
        ap from_be_bytes (take_exact 16 id_bytes _ (length-to_be_bytes 16 r.client_id))
        ∙ from_be_bytes-to_be_bytes 16 r.client_id h.id_fits

    read_size : payload_size_of buffer ≡ length r.payload
    unfolding payload_size_of size_bytes
    read_size =
        ap (λ l. from_be_bytes (take 8 l)) at_size
        ∙ ap from_be_bytes (take_exact 8 size_bytes _ (length-to_be_bytes 8 (length r.payload)))
        ∙ from_be_bytes-to_be_bytes 8 (length r.payload) (let p = h.payload_fits in omega arith)

    length-buffer : length buffer ≡ 89 + (length r.payload + length rest)
    unfolding buffer id_bytes size_bytes
    length-buffer = omega (
      arith,
      length-append id_bytes (size_bytes ++ (r.name ++ (r.payload ++ rest))),
      length-append size_bytes (r.name ++ (r.payload ++ rest)),
      length-append r.name (r.payload ++ rest),
      length-append r.payload rest,
      length-to_be_bytes 16 r.client_id,
      length-to_be_bytes 8 (length r.payload),
      h.name_fits,
    )

    accepted : is_too_large free (length r.payload) ≡ false
    unfolding is_too_large
    accepted = let p = h.payload_fits in let q = h.memory_fits in ground arith

    split : split_frame r.command r.client_id (length r.payload) buffer ≡ request (frame_of r) rest
    unfolding split_frame
    split = rw (long, name_read, payload_read, rest_read)
      where
        long : ltb (length buffer) (length r.payload + 89) ≡ false
        long = ground (arith, length-buffer)

        name_read : take 64 (drop 25 buffer) ≡ r.name
        name_read = ap (take 64) at_name ∙ take_exact 64 r.name (r.payload ++ rest) h.name_fits

        payload_read : take (length r.payload) (drop 89 buffer) ≡ r.payload
        payload_read = ap (take (length r.payload)) at_payload ∙ length-take_append r.payload rest

        rest_read : drop (89 + length r.payload) buffer ≡ rest
        rest_read =
            drop_add 89 (length r.payload) buffer
            ∙ ap (drop (length r.payload)) at_payload
            ∙ drop-append r.payload rest

    first_byte : request_from_u8 (get_or buffer 0 0) ≡ some r.command
    unfolding buffer
    first_byte = request_from_u8-as_u8 r.command

    opened :
        read_frame free buffer
        ≡ split_frame r.command (client_id_of buffer) (payload_size_of buffer) buffer
    unfolding read_frame
    opened = rw (short, first_byte, within)
      where
        short : ltb (length buffer) 25 ≡ false
        short = ground (arith, length-buffer)

        within : is_too_large free (payload_size_of buffer) ≡ false
        within = ap (is_too_large free) read_size ∙ accepted

    -- A whole request at the front of the buffer is split off, with what follows it left.
    pub read_frame-encode : read_frame free (encode r ++ rest) ≡ request (frame_of r) rest
    read_frame-encode = ap (read_frame free) encode-buffer ∙ opened ∙ rw (read_id, read_size) split

abbrev pub encode_all : List Sent → List ℕ
encode_all [] = []
encode_all (r ∷ rs) = encode r ++ encode_all rs

read_frame_short : (free : ℕ) (b : List ℕ) → length b < 25 → read_frame free b ≡ incomplete
unfolding read_frame
read_frame_short free b h = rw short
  where
    short : ltb (length b) 25 ≡ true
    short = ground arith

abbrev more_of : Frame → Batch → Batch
more_of f batch = record batch { frames = f ∷ batch.frames }

module _ (fuel : ℕ) (free : ℕ) (b : List ℕ) where
  read_frames_end :
      read_frame free b ≡ incomplete
      → read_frames (suc fuel) free b ≡ record { frames = []; rest = b; failure = none }
  unfolding read_frames
  read_frames_end e = rw (e, read_frames)

  read_frames_more :
      (f : Frame) (rest : List ℕ)
      → read_frame free b ≡ request f rest
      → read_frames (suc fuel) free b ≡ more_of f (read_frames fuel free rest)
  unfolding read_frames
  read_frames_more f rest e = rw (e, read_frames)

-- A buffer of encoded requests that the server takes, with fewer than 25 bytes behind them, is split
-- into these requests, in their order, and those bytes stay in the buffer, given more fuel than there
-- are requests. The server takes a request whose client id is a u128, whose name field has 64 bytes,
-- whose payload has at most MAX_PAYLOAD_SIZE bytes, and 2.25 times fewer than are free.
pub read_frames-encode_all :
    (free : ℕ) (rs : List Sent) (tail : List ℕ) (fuel : ℕ)
    → All (IsAcceptable free) rs
    → length tail < 25
    → length rs < fuel
    → read_frames fuel free (encode_all rs ++ tail)
      ≡ record { frames = map frame_of rs; rest = tail; failure = none }
read_frames-encode_all free rs tail zero h short f = absurd (omega arith)
read_frames-encode_all free [] tail (suc fuel) h short f =
    read_frames_end fuel free tail (read_frame_short free tail short)
read_frames-encode_all free (r ∷ rs) tail (suc fuel) h short f =
    ap (read_frames (suc fuel) free) (append_assoc (encode r) (encode_all rs) tail)
    ∙ read_frames_more fuel free _ (frame_of r) (encode_all rs ++ tail)
        (read_frame-encode r (encode_all rs ++ tail) free h.0)
    ∙ ap (more_of (frame_of r)) (read_frames-encode_all free rs tail fuel h.1 short (omega arith))
