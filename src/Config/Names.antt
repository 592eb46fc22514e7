-- ===== src/Config/Names.antt =====
-- config.rs: the names of the queues, which the file lists with commas between them.
use rust_data_broker.Prelude.{ℕ, ◌≡◌, refl, ap, false, List, [], ◌∷◌, ◌++◌, All, ◌==◌, is_empty}
use rust_data_broker.Config.{split, filter_not_empty}
use rust_data_broker.Server.State.{Name}

-- The names with a comma between each two.
unfoldable pub join : List Name → Name
join [] = []
join (n ∷ []) = n
join (n ∷ m ∷ ns) = n ++ 44 ∷ join (m ∷ ns)

abbrev pub IsLetter : ℕ → Type 0
IsLetter c = (c == 44) ≡ false

abbrev pub IsName : Name → Type 0
IsName n = (is_empty n ≡ false) × All IsLetter n

split_last : (n : Name) → All IsLetter n → split 44 n ≡ n ∷ []
unfolding split
split_last [] v = refl
split_last (c ∷ n) v = rw (v.0, split_last n v.1) refl

split_behind : (n rest : Name) → All IsLetter n → split 44 (n ++ 44 ∷ rest) ≡ n ∷ split 44 rest
unfolding split
split_behind [] rest v = refl
split_behind (c ∷ n) rest v = rw (v.0, split_behind n rest v.1) refl

pub split-join : (ns : List Name) → All IsName ns → filter_not_empty (split 44 (join ns)) ≡ ns
unfolding join filter_not_empty split
split-join [] v = refl
split-join (n ∷ []) v = rw (split_last n v.0.1, v.0.0) refl
split-join (n ∷ m ∷ ns) v =
    rw (split_behind n (join (m ∷ ns)) v.0.1, v.0.0) (ap (◌∷◌ n) (split-join (m ∷ ns) v.1))
