-- ===== src/Server/Connection/Resume.antt =====
-- net/server.rs: the inner loop of `read_buffer`, when more bytes are behind those that it has.
use rust_data_broker.Prelude.{
  ℕ, zero, suc, ◌+◌, ◌<◌, ◌≤◌, ◌≡◌, ◌≢◌, refl, ap, inl, inr, List, [], ◌∷◌, ◌++◌, arith, Bool-cases,
  Option-cases, length, length-append, take, drop, ltb, get_or, false,
}
use rust_data_broker.Bytes.{from_be_bytes}
use rust_data_broker.Errors.{ErrorCode}
use rust_data_broker.Server.Wire.{Request, request_from_u8}
use rust_data_broker.Server.Frame.{
  Frame, Round, incomplete, rejected, request, is_too_large, client_id_of, payload_size_of,
  split_frame, read_frame,
}

split_frame-not_rejected :
    (c : Request) (id size : ℕ) (b : List ℕ) (code : ErrorCode)
    → split_frame c id size b ≢ rejected code
unfolding split_frame
split_frame-not_rejected c id size b code = λ h. elim (Bool-cases (ltb (length b) (size + 89))) [
  | inl e ↦ let z = rw (e, split_frame) at h in cc
  | inr e ↦ let z = rw (e, split_frame) at h in cc
]

not_shorter : (n m k : ℕ) → k ≤ n → ltb (n + m) k ≡ false
not_shorter n m k h = ground arith

module _ (more : List ℕ) where
  drop_within : (n : ℕ) (b : List ℕ) → n ≤ length b → drop n (b ++ more) ≡ drop n b ++ more
  drop_within zero b h = refl
  drop_within (suc n) [] h = absurd (omega arith)
  drop_within (suc n) (x ∷ b) h = drop_within n b (omega arith)

  take_within : (n : ℕ) (b : List ℕ) → n ≤ length b → take n (b ++ more) ≡ take n b
  take_within zero b h = refl
  take_within (suc n) [] h = absurd (omega arith)
  take_within (suc n) (x ∷ b) h = ap (◌∷◌ x) (take_within n b (omega arith))

  length-drop : (n : ℕ) (b : List ℕ) → n ≤ length b → length (drop n b) + n ≡ length b
  length-drop zero b h = omega arith
  length-drop (suc n) [] h = absurd (omega arith)
  length-drop (suc n) (x ∷ b) h = omega (arith, length-drop n b (omega arith))

  field_within :
      (n m : ℕ) (b : List ℕ) → n + m ≤ length b → take m (drop n (b ++ more)) ≡ take m (drop n b)
  field_within n m b h =
      rw (drop_within n b (omega arith))
        (take_within m (drop n b) (omega (arith, length-drop n b (omega arith))))

  first_within : (b : List ℕ) → 0 < length b → get_or (b ++ more) 0 0 ≡ get_or b 0 0
  first_within [] h = absurd (omega arith)
  first_within (x ∷ b) h = refl

  split_frame-request :
      (c : Request) (id size : ℕ) (b : List ℕ) (f : Frame) (rest : List ℕ)
      → split_frame c id size b ≡ request f rest
      → split_frame c id size (b ++ more) ≡ request f (rest ++ more)
  unfolding split_frame
  split_frame-request c id size b f rest h = elim (Bool-cases (ltb (length b) (size + 89))) [
    | inl e ↦ absurd (ground arith)
    | inr e ↦
        let long : size + 89 ≤ length b = ground arith in
        let longer : ltb (length (b ++ more)) (size + 89) ≡ false =
          rw (length-append b more) (not_shorter (length b) (length more) (size + 89) long) in
        rw
          (
            longer,
            field_within 25 64 b (omega arith),
            field_within 89 size b (omega arith),
            drop_within (89 + size) b (omega arith),
          )
          (ap (λ (r : Round). with_more r) (rw (e, split_frame) at h))
  ]
    where
      with_more : Round → Round
      with_more incomplete = incomplete
      with_more (rejected code) = rejected code
      with_more (request g r) = request g (r ++ more)

  long_within : (b : List ℕ) → 25 ≤ length b → ltb (length (b ++ more)) 25 ≡ false
  long_within b h = rw (length-append b more) (not_shorter (length b) (length more) 25 h)

  size_within : (b : List ℕ) → 25 ≤ length b → payload_size_of (b ++ more) ≡ payload_size_of b
  unfolding payload_size_of
  size_within b h = ap from_be_bytes (field_within 17 8 b h)

  client_within : (b : List ℕ) → 25 ≤ length b → client_id_of (b ++ more) ≡ client_id_of b
  unfolding client_id_of
  client_within b h = ap from_be_bytes (field_within 1 16 b (omega arith))

  pub read_frame-request :
      (free : ℕ) (b : List ℕ) (f : Frame) (rest : List ℕ)
      → read_frame free b ≡ request f rest
      → read_frame free (b ++ more) ≡ request f (rest ++ more)
  unfolding read_frame
  read_frame-request free b f rest h = elim (Bool-cases (ltb (length b) 25)) [
    | inl e ↦ absurd (let z = rw (e, read_frame) at h in cc)
    | inr e ↦
        let long : 25 ≤ length b = ground arith in
        elim (Option-cases (request_from_u8 (get_or b 0 0))) [
          | inl g ↦ absurd (let z = rw (e, g, read_frame) at h in cc)
          | inr (c, g) ↦ elim (Bool-cases (is_too_large free (payload_size_of b))) [
            | inl k ↦ absurd (let z = rw (e, g, k, read_frame) at h in cc)
            | inr k ↦
                let split = rw (e, g, k, read_frame) at h in
                rw
                  (
                    long_within b long,
                    first_within b (omega arith),
                    g,
                    size_within b long,
                    client_within b long,
                    k,
                  )
                  (split_frame-request c (client_id_of b) (payload_size_of b) b f rest split)
          ]
        ]
  ]

  pub read_frame-rejected :
      (free : ℕ) (b : List ℕ) (code : ErrorCode)
      → read_frame free b ≡ rejected code
      → read_frame free (b ++ more) ≡ rejected code
  unfolding read_frame
  read_frame-rejected free b code h = elim (Bool-cases (ltb (length b) 25)) [
    | inl e ↦ absurd (let z = rw (e, read_frame) at h in cc)
    | inr e ↦
        let long : 25 ≤ length b = ground arith in
        elim (Option-cases (request_from_u8 (get_or b 0 0))) [
          | inl g ↦
              rw (long_within b long, first_within b (omega arith), g) (rw (e, g, read_frame) at h)
          | inr (c, g) ↦ elim (Bool-cases (is_too_large free (payload_size_of b))) [
            | inl k ↦
                rw (long_within b long, first_within b (omega arith), g, size_within b long, k)
                  (rw (e, g, k, read_frame) at h)
            | inr k ↦ absurd (
                split_frame-not_rejected c (client_id_of b) (payload_size_of b) b code
                  (rw (e, g, k, read_frame) at h))
          ]
        ]
  ]
