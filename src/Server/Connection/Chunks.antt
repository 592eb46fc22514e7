-- ===== src/Server/Connection/Chunks.antt =====
-- net/server.rs: how the bytes of a connection are cut into reads does not matter.
use rust_data_broker.Prelude.{
  ℕ, zero, suc, ◌+◌, ◌<◌, ◌≤◌, ◌≡◌, ◌≢◌, refl, sym, ap, ◌∙◌, inl, inr, none, some, List, [], ◌∷◌,
  ◌++◌, arith, All, map, Option-cases, length, length-append,
}
use mathlib.Core.List.{append-nil, append_assoc}
use rust_data_broker.Errors.{ErrorCode}
use rust_data_broker.Server.Frame.{
  Frame, incomplete, rejected, request, read_frame, read_frames, Batch,
}
use rust_data_broker.Server.Frame.Fuel.{
  Round-cases, read_frame-shortens, read_frames-last_round, last_round,
}
use rust_data_broker.Server.Connection.{receives, Ending, reading, after_batch, read_buffer}
use rust_data_broker.Server.Connection.Resume.{read_frame-request, read_frame-rejected}

unfoldable pub concat : List (List ℕ) → List ℕ
concat [] = []
concat (c ∷ chunks) = c ++ concat chunks

-- The batches of the three rounds.
abbrev nothing : List ℕ → Batch
nothing b = record { frames = []; rest = b; failure = none }

abbrev refused : List ℕ → ErrorCode → Batch
refused b code = record { frames = []; rest = b; failure = some code }

abbrev one_more : Frame → Batch → Batch
one_more f t = record t { frames = f ∷ t.frames }

module _ (n free : ℕ) (b : List ℕ) where
  at_incomplete : read_frame free b ≡ incomplete → read_frames (suc n) free b ≡ nothing b
  unfolding read_frames
  at_incomplete e = rw (e, read_frames) refl

  at_rejected :
      (code : ErrorCode)
      → read_frame free b ≡ rejected code
      → read_frames (suc n) free b ≡ refused b code
  unfolding read_frames
  at_rejected code e = rw (e, read_frames) refl

  at_request :
      (f : Frame) (rest : List ℕ)
      → read_frame free b ≡ request f rest
      → read_frames (suc n) free b ≡ one_more f (read_frames n free rest)
  unfolding read_frames
  at_request f rest e = rw (e, read_frames) refl

-- More fuel than there are bytes is as good as any such fuel.
read_frames-fuel :
    (n m free : ℕ) (b : List ℕ)
    → length b < n
    → length b < m
    → read_frames n free b ≡ read_frames m free b
unfolding read_frames
read_frames-fuel zero m free b h k = absurd (omega arith)
read_frames-fuel (suc n) zero free b h k = absurd (omega arith)
read_frames-fuel (suc n) (suc m) free b h k = elim (Round-cases (read_frame free b)) [
  | inl e ↦ at_incomplete n free b e ∙ sym (at_incomplete m free b e)
  | inr (inl (code, e)) ↦ at_rejected n free b code e ∙ sym (at_rejected m free b code e)
  | inr (inr (f, rest, e)) ↦
      let shorter = read_frame-shortens free b f rest e in
      at_request n free b f rest e
      ∙ ap (one_more f) (read_frames-fuel n m free rest (omega arith) (omega arith))
      ∙ sym (at_request m free b f rest e)
]

add_frame : Frame → List Frame × Ending → List Frame × Ending
add_frame f r = (f ∷ r.0, r.1)

after_batch-add_frame :
    (f : Frame) (t : Batch) (later : List Frame × Ending)
    → after_batch (record t { frames = f ∷ t.frames }) later ≡ add_frame f (after_batch t later)
unfolding after_batch add_frame
after_batch-add_frame f t later = elim (Option-cases t.failure) [
  | inl e ↦ rw e refl
  | inr (code, e) ↦ rw e refl
]

-- What a batch without anything behind it is.
abbrev end_of : Batch → List Frame × Ending
end_of t = after_batch t ([], reading)

-- What stays in a batch, split again with more bytes.
resumed : ℕ → ℕ → List ℕ → Batch → List Frame × Ending
resumed m free more t = after_batch t (end_of (read_frames m free (t.rest ++ more)))

-- To split a buffer and then what stays in it with more bytes is to split it with these bytes.
read_frames-resume :
    (fuel n m free : ℕ) (b more : List ℕ)
    → length b < fuel
    → length b + length more < n
    → length b + length more < m
    → end_of (read_frames n free (b ++ more)) ≡ resumed m free more (read_frames fuel free b)
unfolding after_batch resumed
read_frames-resume zero n m free b more h k j = absurd (omega arith)
read_frames-resume (suc fuel) zero m free b more h k j = absurd (omega arith)
read_frames-resume (suc fuel) (suc n) m free b more h k j = elim (Round-cases (read_frame free b)) [
  | inl e ↦
      ap end_of (
        read_frames-fuel (suc n) m free (b ++ more) (omega (arith, length-append b more))
          (omega (arith, length-append b more)))
      ∙ sym (ap (resumed m free more) (at_incomplete fuel free b e))
  | inr (inl (code, e)) ↦
      ap end_of (at_rejected n free (b ++ more) code (read_frame-rejected more free b code e))
      ∙ sym (ap (resumed m free more) (at_rejected fuel free b code e))
  | inr (inr (f, rest, e)) ↦
      let shorter = read_frame-shortens free b f rest e in
      let later = read_frames fuel free rest in
      ap end_of
        (at_request n free (b ++ more) f (rest ++ more) (read_frame-request more free b f rest e))
      ∙ after_batch-add_frame f (read_frames n free (rest ++ more)) ([], reading)
      ∙ ap (add_frame f)
          (read_frames-resume fuel n m free rest more (omega arith) (omega arith) (omega arith))
      ∙ sym (after_batch-add_frame f later (end_of (read_frames m free (later.rest ++ more))))
      ∙ sym (ap (resumed m free more) (at_request fuel free b f rest e))
]

read_frames-rest-le :
    (fuel free : ℕ) (b : List ℕ) → length (read_frames fuel free b).rest ≤ length b
unfolding read_frames
read_frames-rest-le zero free b = omega arith
read_frames-rest-le (suc fuel) free b = elim (Round-cases (read_frame free b)) [
  | inl e ↦ rw (at_incomplete fuel free b e) (omega arith)
  | inr (inl (code, e)) ↦ rw (at_rejected fuel free b code e) (omega arith)
  | inr (inr (f, rest, e)) ↦
      rw (at_request fuel free b f rest e)
        (omega (arith, read_frame-shortens free b f rest e, read_frames-rest-le fuel free rest))
]

-- What comes behind a batch counts only where the batch has no error.
after_batch-later :
    (t : Batch) (r r' : List Frame × Ending)
    → (t.failure ≡ none → r ≡ r')
    → after_batch t r ≡ after_batch t r'
unfolding after_batch
after_batch-later t r r' h = elim (Option-cases t.failure) [
  | inl e ↦ ap (after_batch t) (h e)
  | inr (code, e) ↦ rw e refl
]

abbrev pub IsRead : List ℕ → Type 0
IsRead c = c ≢ []

read_buffer-concat :
    (free : ℕ) (b : List ℕ) (chunks : List (List ℕ))
    → All IsRead chunks
    → read_frame free b ≡ incomplete
    → read_buffer b (map (receives free) chunks)
      ≡ end_of (read_frames (suc (length (b ++ concat chunks))) free (b ++ concat chunks))
unfolding read_buffer concat after_batch last_round resumed
read_buffer-concat free b [] v e =
    let same : b ++ [] ≡ b = append-nil b in
    sym (ap end_of (at_incomplete (length (b ++ [])) free (b ++ []) (rw same e)))
read_buffer-concat free b ([] ∷ chunks) v e = absurd (v.0 refl)
read_buffer-concat free b ((x ∷ c) ∷ chunks) v e =
    let all = b ++ x ∷ c in
    let later = concat chunks in
    let t = read_frames (suc (length all)) free all in
    after_batch-later t (read_buffer t.rest (map (receives free) chunks))
      (end_of (read_frames (suc (length all + length later)) free (t.rest ++ later)))
      (λ fine.
        read_buffer-concat free t.rest chunks v.1
          (read_frames-last_round (suc (length all)) free all (omega arith) ∙ ap last_round fine)
        ∙ ap end_of (
            read_frames-fuel (suc (length (t.rest ++ later))) (suc (length all + length later)) free
              (t.rest ++ later) (omega arith)
              (omega (
                arith,
                length-append t.rest later,
                read_frames-rest-le (suc (length all)) free all,
              ))))
    ∙ sym (
        read_frames-resume (suc (length all)) (suc (length (all ++ later)))
          (suc (length all + length later)) free all later (omega arith)
          (omega (arith, length-append all later)) (omega arith))
    ∙ ap (λ w. end_of (read_frames (suc (length w)) free w)) (append_assoc b (x ∷ c) later)

-- However the bytes that a connection sends are cut into reads, none of them empty, the tasks that
-- are started, and whether the connection is given up and with what error, are those of the bytes
-- read at once, as long as the free memory stays the same.
pub read_buffer-chunks :
    (free : ℕ) (chunks : List (List ℕ))
    → All IsRead chunks
    → let bytes = concat chunks in
      read_buffer [] (map (receives free) chunks)
      ≡ after_batch (read_frames (suc (length bytes)) free bytes) ([], reading)
unfolding read_frame
read_buffer-chunks free chunks v = read_buffer-concat free [] chunks v refl
