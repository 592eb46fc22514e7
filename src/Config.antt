-- ===== src/Config.antt =====
-- config.rs: `parse_config`. The text of the file, or its absence, and the matches of the regular
-- expression in it are arguments.
pub mod Numerals
pub mod Names
pub mod Values
use Prim.Native.Char.{code}
use Prim.Native.String.{String}
use rust_data_broker.Prelude.{
  ℕ, ◌+◌, ◌-◌, ◌*◌, ◌^◌, Bool, true, false, ◌&&◌, Option, none, some, List, [], ◌∷◌, ◌++◌, ◌==◌,
  ltb, leb, if◌then◌else◌, is_empty, Outcome, ok, err, panic, ◌>>=◌,
}
use rust_data_broker.Dict
use rust_data_broker.Dict.{Dict}
use rust_data_broker.Server.State.{Name, Name-discrete}

abbrev pub codes : String → Name
codes String.[] = []
codes (String.◌∷◌ c s) = code c ∷ codes s

pub record Config : Type 0 where
  pub threads_limit : ℕ
  pub proc_limit : ℕ
  pub wait_limit : ℕ
  pub memory_limit : ℕ
  pub server_addr : Name
  pub server_port : Name
  pub queue_names : List Name

-- The groups 1, 2 and 3 of a match: the key, a value in quotes, a value without quotes.
pub record Capture : Type 0 where
  pub key : Option Name
  pub quoted : Option Name
  pub bare : Option Name

pub data ParseIntError : Type 0 where
  empty : ParseIntError
  invalid_digit : ParseIntError
  pos_overflow : ParseIntError

-- The errors that are boxed: of the file, of `ok_or` with its text, and of `parse`.
pub data ConfigError : Type 0 where
  unreadable : ConfigError
  message : Name → ConfigError
  parse_int : ParseIntError → ConfigError

abbrev pub is_digit : ℕ → Bool
is_digit c = leb 48 c && leb c 57

-- `str::parse::<u64>`: the digits behind the sign.
unfoldable pub parse_digits : ℕ → List ℕ → Outcome ConfigError ℕ
parse_digits acc [] = ok acc
parse_digits acc (c ∷ cs) =
    let rest = parse_digits (acc * 10 + (c - 48)) cs in
    if is_digit c
    then (if ltb (2 ^ 64 - 1) (acc * 10 + (c - 48)) then err (parse_int pos_overflow) else rest)
    else err (parse_int invalid_digit)

unfoldable pub parse_u64 : List ℕ → Outcome ConfigError ℕ
unfolding parse_digits
parse_u64 [] = err (parse_int empty)
parse_u64 (c ∷ []) = parse_digits 0 (c ∷ [])
parse_u64 (c ∷ d ∷ cs) = if c == 43 then parse_digits 0 (d ∷ cs) else parse_digits 0 (c ∷ d ∷ cs)

-- A letter before the first of the pieces.
abbrev pub put_first : ℕ → List Name → List Name
put_first c [] = (c ∷ []) ∷ []
put_first c (p ∷ ps) = (c ∷ p) ∷ ps

unfoldable pub split : ℕ → Name → List Name
split sep [] = [] ∷ []
split sep (c ∷ cs) = let rest = split sep cs in if c == sep then [] ∷ rest else put_first c rest

unfoldable pub filter_not_empty : List Name → List Name
filter_not_empty [] = []
filter_not_empty (p ∷ ps) = let rest = filter_not_empty ps in if is_empty p then rest else p ∷ rest

abbrev pub unwrap : {A : Type 0} → Option A → Outcome ConfigError A
unwrap none = panic
unwrap (some a) = ok a

abbrev pub ok_or : {A : Type 0} → Option A → Name → Outcome ConfigError A
ok_or none text = err (message text)
ok_or (some a) text = ok a

abbrev pub or_else : {A : Type 0} → Option A → Option A → Option A
or_else none o = o
or_else (some a) o = some a

-- The loop over the matches; a later assignment replaces an earlier one.
unfoldable pub read_captures : Dict Name Name → List Capture → Outcome ConfigError (Dict Name Name)
read_captures data_map [] = ok data_map
read_captures data_map (pair ∷ captures) = do
  key ← unwrap pair.key
  value ← unwrap (or_else pair.quoted pair.bare)
  read_captures (Dict.insert Name-discrete key value data_map) captures

abbrev pub get : Dict Name Name → Name → Option Name
get data_map key = Dict.lookup Name-discrete key data_map

unfoldable pub get_limit : Dict Name Name → Name → Outcome ConfigError ℕ
unfolding parse_u64
get_limit data_map key = do
  value ← ok_or (get data_map key) (codes "missing " ++ key)
  parse_u64 value

unfoldable pub fill_config : Dict Name Name → Outcome ConfigError Config
unfolding get_limit split filter_not_empty
fill_config data_map = do
  threads_limit ← get_limit data_map (codes "THREADS_LIMIT")
  proc_limit ← get_limit data_map (codes "PROC_LIMIT")
  wait_limit ← get_limit data_map (codes "WAIT_LIMIT")
  memory_limit ← get_limit data_map (codes "MEMORY_LIMIT")
  server_addr ← ok_or (get data_map (codes "SERVER_ADDR")) (codes "missing SERVER_ADDR")
  server_port ← ok_or (get data_map (codes "SERVER_PORT")) (codes "missing SERVER_PORT")
  queue_names ← ok_or (get data_map (codes "QUEUE_NAMES")) []
  ok (record {
    threads_limit = threads_limit;
    proc_limit = proc_limit;
    wait_limit = wait_limit;
    memory_limit = memory_limit;
    server_addr = server_addr;
    server_port = server_port;
    queue_names = filter_not_empty (split 44 queue_names);
  })

unfoldable pub parse_config : (Name → List Capture) → Option Name → Outcome ConfigError Config
unfolding read_captures fill_config
parse_config captures_iter none = err unreadable
parse_config captures_iter (some text) = read_captures [] (captures_iter text) >>= fill_config
