-- ===== src/Server/Frame/Fuel.antt =====
-- net/server.rs: how far the inner loop of `read_buffer` goes.
use rust_data_broker.Prelude.{
  ℕ, zero, suc, ◌+◌, ◌<◌, ◌≤◌, ◌≡◌, refl, inl, inr, ◌⊎◌, Option, none, some, List, [], ◌∷◌, arith,
  Bool-cases, Option-cases, length, drop, ltb, get_or,
}
use rust_data_broker.Errors.{ErrorCode}
use rust_data_broker.Server.Wire.{Request, request_from_u8}
use rust_data_broker.Server.Frame.{
  Frame, Round, incomplete, rejected, request, is_too_large, client_id_of, payload_size_of,
  split_frame, read_frame, read_frames,
}

length-drop_lt : (n : ℕ) (b : List ℕ) → suc n ≤ length b → length (drop (suc n) b) < length b
length-drop_lt n [] h = absurd (omega arith)
length-drop_lt zero (x ∷ b) h = omega arith
length-drop_lt (suc n) (x ∷ b) h = let s = length-drop_lt n b (omega arith) in omega arith

split_frame-shortens :
    (c : Request) (id size : ℕ) (b : List ℕ) (f : Frame) (rest : List ℕ)
    → split_frame c id size b ≡ request f rest
    → length rest < length b
unfolding split_frame
split_frame-shortens c id size b f rest h = elim (Bool-cases (ltb (length b) (size + 89))) [
  | inl e ↦ absurd (ground arith)
  | inr e ↦
      let cut : drop (suc (88 + size)) b ≡ rest = ground arith in
      rw (← cut) (length-drop_lt (88 + size) b (ground arith))
]

pub read_frame-shortens :
    (free : ℕ) (b : List ℕ) (f : Frame) (rest : List ℕ)
    → read_frame free b ≡ request f rest
    → length rest < length b
unfolding read_frame
read_frame-shortens free b f rest h = elim (Bool-cases (ltb (length b) 25)) [
  | inl e ↦ absurd (ground arith)
  | inr e ↦ elim (Option-cases (request_from_u8 (get_or b 0 0))) [
    | inl g ↦ absurd (ground arith)
    | inr (c, g) ↦ elim (Bool-cases (is_too_large free (payload_size_of b))) [
      | inl k ↦ absurd (ground arith)
      | inr k ↦ split_frame-shortens c (client_id_of b) (payload_size_of b) b f rest (ground arith)
    ]
  ]
]

-- The round at which the loop ends, by the error of the batch.
unfoldable pub last_round : Option ErrorCode → Round
last_round none = incomplete
last_round (some code) = rejected code

pub Round-cases :
    (r : Round)
    → (r ≡ incomplete)
      ⊎ (((code : ErrorCode) × (r ≡ rejected code))
          ⊎ ((f : Frame) × (rest : List ℕ) × (r ≡ request f rest)))
Round-cases incomplete = inl refl
Round-cases (rejected code) = inr (inl (code, refl))
Round-cases (request f rest) = inr (inr (f, rest, refl))

-- Given more fuel than there are bytes in the buffer, the loop ends only where what stays in the
-- buffer is too short for a request, if the batch has no error, or is rejected with its error.
pub read_frames-last_round :
    (fuel free : ℕ) (b : List ℕ)
    → length b < fuel
    → let batch = read_frames fuel free b in read_frame free batch.rest ≡ last_round batch.failure
unfolding read_frames last_round
read_frames-last_round zero free b h = absurd (omega arith)
read_frames-last_round (suc fuel) free b h = elim (Round-cases (read_frame free b)) [
  | inl e ↦ rw (e, read_frames) e
  | inr (inl (code, e)) ↦ rw (e, read_frames) e
  | inr (inr (f, rest, e)) ↦
      let shorter = read_frame-shortens free b f rest e in
      rw (e, read_frames) (read_frames-last_round fuel free rest (omega arith))
]
