-- ===== src/Lifecycle/Launch.antt =====
-- main.rs and net/server.rs: `main` up to the loop, with `Addr::new` and `start_server`. The path of
-- the file of settings is left out: its text is an argument, as for `parse_config`.
use rust_data_broker.Prelude.{
  ℕ, Bool, true, ◌&&◌, Option, none, some, List, [], ◌∷◌, ◌==◌, leb, if◌then◌else◌, length, Outcome,
  ok, err, panic, ◌>>=◌,
}
use rust_data_broker.Server.State.{Name}
use rust_data_broker.Memory.Arena.{Arena, uninitialised}
use rust_data_broker.Memory.Alloc.{Platform, init}
use rust_data_broker.Config.{
  Config, Capture, ConfigError, parse_digits, parse_u64, split, parse_config,
}
use rust_data_broker.Lifecycle.{Broker, start}

-- `SocketAddrV4`
pub record Addr : Type 0 where
  pub octets : List ℕ
  pub port : ℕ

pub data LaunchError : Type 0 where
  config : ConfigError → LaunchError
  invalid_input : LaunchError

-- The number of an octet: three digits at most, and no 0 before others.
unfoldable pub read_octet : Name → Option ℕ
unfolding parse_digits
read_octet [] = none
read_octet (c ∷ cs) =
    if leb (length cs) 2 && (if c == 48 then length cs == 0 else true)
    then elim (parse_digits 0 (c ∷ cs)) [
      | ok n ↦ if leb n 255 then some n else none
      | err e ↦ none
      | panic ↦ none
    ]
    else none

unfoldable pub read_octets : List Name → Option (List ℕ)
unfolding read_octet
read_octets [] = some []
read_octets (p ∷ ps) = elim (read_octet p) [
  | none ↦ none
  | some n ↦ elim (read_octets ps) [ none ↦ none | some ns ↦ some (n ∷ ns) ]
]

-- `str::parse::<Ipv4Addr>`
unfoldable pub parse_ipv4 : Name → Option (List ℕ)
unfolding split read_octets
parse_ipv4 addr = if length (split 46 addr) == 4 then read_octets (split 46 addr) else none

-- `str::parse::<u16>`
unfoldable pub parse_u16 : Name → Option ℕ
unfolding parse_u64
parse_u16 port = elim (parse_u64 port) [
  | ok n ↦ if leb n 65535 then some n else none
  | err e ↦ none
  | panic ↦ none
]

-- `Addr::new`
unfoldable pub new_addr : Name → Name → Outcome LaunchError Addr
unfolding parse_ipv4 parse_u16
new_addr addr port = elim (parse_ipv4 addr) [
  | none ↦ err invalid_input
  | some octets ↦ elim (parse_u16 port) [
    | none ↦ err invalid_input
    | some n ↦ ok (record { octets = octets; port = n })
  ]
]

unfoldable pub start_server : Config → Outcome LaunchError (Addr × Broker)
unfolding new_addr
start_server c = do addr ← new_addr c.server_addr c.server_port; ok (addr, start)

abbrev pub box_config : {A : Type 0} → Outcome ConfigError A → Outcome LaunchError A
box_config (ok a) = ok a
box_config (err e) = err (config e)
box_config panic = panic

abbrev pub after_init : {A : Type 0} → Outcome Bool A → Outcome LaunchError A
after_init (ok a) = ok a
after_init (err e) = panic
after_init panic = panic

-- `mapped` is the address of the arena.
unfoldable pub launch :
    Platform
    → (captures_iter : Name → List Capture) (text : Option Name) (mapped : Option ℕ)
    → Outcome LaunchError (Arena × (Addr × Broker))
unfolding parse_config init start_server
launch platform captures_iter text mapped = do
  c ← box_config (parse_config captures_iter text)
  a ← after_init (init platform uninitialised c.memory_limit mapped)
  s ← start_server c
  ok (a, s)
