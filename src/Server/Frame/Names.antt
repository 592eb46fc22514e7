-- ===== src/Server/Frame/Names.antt =====
-- net/server.rs: the name of the queue in the 64 bytes of its field.
use rust_data_broker.Prelude.{
  ℕ, zero, suc, ◌≡◌, ◌≢◌, refl, true, none, some, List, [], ◌∷◌, ◌++◌, arith, last, Option-cases,
  inl, inr,
}
use rust_data_broker.Server.Frame.{utf8_lead, utf8_from, is_utf8, trim_end, queue_name_of}

-- The bytes behind a name that is shorter than its field.
unfoldable pub zeroes : ℕ → List ℕ
zeroes zero = []
zeroes (suc k) = 0 ∷ zeroes k

trim_end-zeroes : (k : ℕ) → trim_end (zeroes k) ≡ []
unfolding trim_end zeroes
trim_end-zeroes zero = refl
trim_end-zeroes (suc k) = ground (arith, trim_end-zeroes k)

nonempty_last : (b : ℕ) (bs : List ℕ) → last (b ∷ bs) ≢ none
nonempty_last b [] = λ e. cc
nonempty_last b (c ∷ bs) = nonempty_last c bs

trim_end-padded : (name : List ℕ) (k : ℕ) → last name ≢ some 0 → trim_end (name ++ zeroes k) ≡ name
unfolding trim_end
trim_end-padded [] k h = trim_end-zeroes k
trim_end-padded (b ∷ []) k h = rw (trim_end-zeroes k) (ground arith)
trim_end-padded (b ∷ c ∷ name) k h = rw (trim_end-padded (c ∷ name) k h) refl

utf8_from-zeroes : (k lo hi : ℕ) → utf8_from 0 lo hi (zeroes k) ≡ true
unfolding utf8_from utf8_lead zeroes
utf8_from-zeroes zero lo hi = refl
utf8_from-zeroes (suc k) lo hi = utf8_from-zeroes k 0x80 0xbf

utf8_from-padded :
    (name : List ℕ) (left lo hi k : ℕ)
    → utf8_from left lo hi name ≡ true
    → utf8_from left lo hi (name ++ zeroes k) ≡ true
unfolding utf8_from
utf8_from-padded [] zero lo hi k h = utf8_from-zeroes k lo hi
utf8_from-padded [] (suc left) lo hi k h = cc
utf8_from-padded (b ∷ name) (suc left) lo hi k h =
    ground (arith, utf8_from-padded name left 0x80 0xbf k)
utf8_from-padded (b ∷ name) zero lo hi k h = elim (Option-cases (utf8_lead b)) [
  | inl e ↦ ground arith
  | inr ((left, lo', hi'), e) ↦ ground (arith, utf8_from-padded name left lo' hi' k)
]

-- A name in UTF-8 that does not end in a zero byte is read back from its field, however many zero
-- bytes fill the field up.
pub queue_name_of-padded :
    (name : List ℕ) (k : ℕ)
    → is_utf8 name ≡ true
    → last name ≢ some 0
    → queue_name_of (name ++ zeroes k) ≡ name
unfolding queue_name_of is_utf8
queue_name_of-padded name k text ends =
    rw (utf8_from-padded name 0 0x80 0xbf k text) (trim_end-padded name k ends)
