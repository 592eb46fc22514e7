-- ===== src/Queue/Message/Layout.antt =====
-- The 56 bytes of a message's meta data, read back at the offsets of its fields.
use mathlib.Core.List.{append-nil}
use rust_data_broker.Prelude.{
  [], ℕ, ◌<◌, ◌^◌, ◌≡◌, ap, subst, ◌∙◌, List, ◌++◌, length, take, drop, arith, length-append,
  length-take_append, drop-append, drop_add,
}
use rust_data_broker.Bytes.{
  from_be_bytes, to_be_bytes, from_be_bytes-to_be_bytes, length-to_be_bytes,
}
use rust_data_broker.Queue.Message.{MessageMeta, meta_to_be_bytes, map_or, u128_max}

-- A client's reading of `n` bytes from an offset on.
unfoldable pub field : ℕ → ℕ → List ℕ → ℕ
field offset n bytes = from_be_bytes (take n (drop offset bytes))

module _ (w v : ℕ) (rest : List ℕ) where
  take_be : take w (to_be_bytes w v ++ rest) ≡ to_be_bytes w v
  take_be =
      subst (λ k. take k (to_be_bytes w v ++ rest) ≡ to_be_bytes w v) (length-to_be_bytes w v)
        (length-take_append (to_be_bytes w v) rest)

  pub drop_be : drop w (to_be_bytes w v ++ rest) ≡ rest
  drop_be =
      subst (λ k. drop k (to_be_bytes w v ++ rest) ≡ rest) (length-to_be_bytes w v)
        (drop-append (to_be_bytes w v) rest)

  pub read_be : v < 256 ^ w → from_be_bytes (take w (to_be_bytes w v ++ rest)) ≡ v
  read_be h = rw take_be (from_be_bytes-to_be_bytes w v h)

module _ (m : MessageMeta) where
  -- The encoding is 56 bytes long.
  length-meta : length (meta_to_be_bytes m) ≡ 56
  unfolding meta_to_be_bytes
  length-meta = omega (
    arith,
    length-append (to_be_bytes 16 m.id) (to_be_bytes 16 m.publisher_id ++ after_publisher),
    length-append (to_be_bytes 16 m.publisher_id) after_publisher,
    length-append (to_be_bytes 8 m.timestamp) locked,
    length-to_be_bytes 16 m.id,
    length-to_be_bytes 16 m.publisher_id,
    length-to_be_bytes 8 m.timestamp,
    length-to_be_bytes 16 (map_or u128_max m.locked_by),
  )
    where
      locked : List ℕ
      locked = to_be_bytes 16 (map_or u128_max m.locked_by)

      after_publisher : List ℕ
      after_publisher = to_be_bytes 8 m.timestamp ++ locked

  -- Of a message whose fields fit their types, a client reads the fields back at the offsets 0, 16,
  -- 32 and 40 of the 56 bytes; where no client has locked the message, the last is 2 ^ 128 - 1.
  pub field-meta_to_be_bytes :
      m.id < 256 ^ 16
      → m.publisher_id < 256 ^ 16
      → m.timestamp < 256 ^ 8
      → map_or u128_max m.locked_by < 256 ^ 16
      → (length (meta_to_be_bytes m) ≡ 56)
        × (field 0 16 (meta_to_be_bytes m) ≡ m.id)
        × (field 16 16 (meta_to_be_bytes m) ≡ m.publisher_id)
        × (field 32 8 (meta_to_be_bytes m) ≡ m.timestamp)
        × (field 40 16 (meta_to_be_bytes m) ≡ map_or u128_max m.locked_by)
  unfolding field meta_to_be_bytes
  field-meta_to_be_bytes h₀ h₁ h₂ h₃ = (
    length-meta,
    read_be 16 m.id (b₁ ++ (b₂ ++ b₃)) h₀,
    rw (drop_be 16 m.id (b₁ ++ (b₂ ++ b₃))) (read_be 16 m.publisher_id (b₂ ++ b₃) h₁),
    ap (λ l. from_be_bytes (take 8 l)) at_timestamp ∙ read_be 8 m.timestamp b₃ h₂,
    ap (λ l. from_be_bytes (take 16 l)) at_locked
        ∙ rw (append-nil b₃) at (read_be 16 (map_or u128_max m.locked_by) [] h₃),
  )
    where
      b₁ : List ℕ
      b₁ = to_be_bytes 16 m.publisher_id

      b₂ : List ℕ
      b₂ = to_be_bytes 8 m.timestamp

      b₃ : List ℕ
      b₃ = to_be_bytes 16 (map_or u128_max m.locked_by)

      whole : List ℕ
      whole = to_be_bytes 16 m.id ++ (b₁ ++ (b₂ ++ b₃))

      at_timestamp : drop 32 whole ≡ b₂ ++ b₃
      at_timestamp =
          drop_add 16 16 whole
          ∙ ap (drop 16) (drop_be 16 m.id (b₁ ++ (b₂ ++ b₃)))
          ∙ drop_be 16 m.publisher_id (b₂ ++ b₃)

      at_locked : drop 40 whole ≡ b₃
      at_locked = drop_add 32 8 whole ∙ ap (drop 8) at_timestamp ∙ drop_be 8 m.timestamp b₃
