-- ===== src/Config/Values.antt =====
-- config.rs: what `parse_config` makes of the assignments in the file.
use mathlib.Core.Logic.{ite}
use rust_data_broker.Prelude.{
  ℕ, ◌≡◌, refl, ap, ◌∙◌, Option, none, some, List, [], ◌∷◌, arith, All, ok,
}
use rust_data_broker.Dict
use rust_data_broker.Dict.{Dict}
use rust_data_broker.Server.State.{Name, Name-discrete}
use rust_data_broker.Config.{
  codes, Config, Capture, get, get_limit, fill_config, parse_config, or_else, read_captures,
}
use rust_data_broker.Config.Numerals.{IsNumeral, parse_u64-numeral}
use rust_data_broker.Config.Names.{join, IsName, split-join}

-- A match that assigns `value` to `key`.
pub record IsAssignment (pair : Capture) : Type 0 where
  pub key : Name
  pub value : Name
  pub has_key : pair.key ≡ some key
  pub has_value : or_else pair.quoted pair.bare ≡ some value

-- The value of the last match with the key, or else `before`.
unfoldable pub last_value :
    Name → Option Name → (captures : List Capture) → All IsAssignment captures → Option Name
last_value key before [] v = before
last_value key before (pair ∷ captures) v =
    last_value key (ite (Name-discrete v.0.key key) (some v.0.value) before) captures v.1

lookup-insert :
    (k j : Name) (v : Name) (m : Dict Name Name)
    → Dict.lookup Name-discrete j (Dict.insert Name-discrete k v m)
      ≡ ite (Name-discrete k j) (some v) (Dict.lookup Name-discrete j m)
lookup-insert k j v m = ground (
  arith,
  Dict.lookup-insert_self Name-discrete k v m,
  Dict.lookup-insert_ne Name-discrete k j v m,
)

pub read_captures_some :
    (m : Dict Name Name) (captures : List Capture) (v : All IsAssignment captures)
    → (d : Dict Name Name) × (read_captures m captures ≡ ok d)
      × ((key : Name) → get d key ≡ last_value key (get m key) captures v)
unfolding read_captures last_value
read_captures_some m [] v = (m, refl, λ key. refl)
read_captures_some m (pair ∷ captures) v =
    let (d, e, h) =
      read_captures_some (Dict.insert Name-discrete v.0.key v.0.value m) captures v.1 in
    (
      d,
      rw (v.0.has_key, v.0.has_value) e,
      λ key.
          h key ∙ ap (λ o. last_value key o captures v.1) (lookup-insert v.0.key key v.0.value m),
    )

abbrev pub assigned : (captures : List Capture) → All IsAssignment captures → Name → Option Name
assigned captures v key = last_value key none captures v

-- The last value of the key is a numeral for `n`.
abbrev pub SaysLimit : Option Name → ℕ → Type 0
SaysLimit value n = (cs : Name) × (value ≡ some cs) × IsNumeral cs n

-- What the last assignments to the keys say.
pub record Says (captures : List Capture) (v : All IsAssignment captures) (c : Config)
    : Type 0 where
  pub threads_limit : SaysLimit (assigned captures v (codes "THREADS_LIMIT")) c.threads_limit
  pub proc_limit : SaysLimit (assigned captures v (codes "PROC_LIMIT")) c.proc_limit
  pub wait_limit : SaysLimit (assigned captures v (codes "WAIT_LIMIT")) c.wait_limit
  pub memory_limit : SaysLimit (assigned captures v (codes "MEMORY_LIMIT")) c.memory_limit
  pub server_addr : assigned captures v (codes "SERVER_ADDR") ≡ some c.server_addr
  pub server_port : assigned captures v (codes "SERVER_PORT") ≡ some c.server_port
  pub queue_names : assigned captures v (codes "QUEUE_NAMES") ≡ some (join c.queue_names)
  pub names : All IsName c.queue_names

get_limit-numeral :
    (d : Dict Name Name) (key : Name) (n : ℕ) → SaysLimit (get d key) n → get_limit d key ≡ ok n
unfolding get_limit
get_limit-numeral d key n (cs, e, i) = rw e (parse_u64-numeral cs n i)

fill_config-ok :
    (d : Dict Name Name) (c : Config)
    → SaysLimit (get d (codes "THREADS_LIMIT")) c.threads_limit
    → SaysLimit (get d (codes "PROC_LIMIT")) c.proc_limit
    → SaysLimit (get d (codes "WAIT_LIMIT")) c.wait_limit
    → SaysLimit (get d (codes "MEMORY_LIMIT")) c.memory_limit
    → get d (codes "SERVER_ADDR") ≡ some c.server_addr
    → get d (codes "SERVER_PORT") ≡ some c.server_port
    → get d (codes "QUEUE_NAMES") ≡ some (join c.queue_names)
    → All IsName c.queue_names
    → fill_config d ≡ ok c
unfolding fill_config
fill_config-ok d c t p w m a o q names =
    rw
      (
        get_limit-numeral d (codes "THREADS_LIMIT") c.threads_limit t,
        get_limit-numeral d (codes "PROC_LIMIT") c.proc_limit p,
        get_limit-numeral d (codes "WAIT_LIMIT") c.wait_limit w,
        get_limit-numeral d (codes "MEMORY_LIMIT") c.memory_limit m,
        a,
        o,
        q,
        split-join c.queue_names names,
      )
      refl

-- Where every match of the regular expression has a key and a value, and the last values of the
-- seven keys are numerals below 2 ^ 64 for the limits, the address, the port and the names of the
-- queues with commas between them, names that are not empty and have no comma, `parse_config` gives
-- the configuration of these, whatever the order of the assignments and the other keys are.
pub parse_config-Says :
    (captures_iter : Name → List Capture) (text : Name) (c : Config)
    (v : All IsAssignment (captures_iter text))
    → Says (captures_iter text) v c
    → parse_config captures_iter (some text) ≡ ok c
unfolding parse_config Dict.lookup
parse_config-Says captures_iter text c v s =
    let (d, e, h) = read_captures_some [] (captures_iter text) v in
    rw e (
      fill_config-ok d c (rw (h (codes "THREADS_LIMIT")) s.threads_limit)
        (rw (h (codes "PROC_LIMIT")) s.proc_limit) (rw (h (codes "WAIT_LIMIT")) s.wait_limit)
        (rw (h (codes "MEMORY_LIMIT")) s.memory_limit) (h (codes "SERVER_ADDR") ∙ s.server_addr)
        (h (codes "SERVER_PORT") ∙ s.server_port) (h (codes "QUEUE_NAMES") ∙ s.queue_names) s.names)
