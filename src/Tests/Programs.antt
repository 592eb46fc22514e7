-- ===== src/Tests/Programs.antt =====
-- The configuration, the pool and the shutdown at concrete inputs.
use native.Mathlib.Decide.{ℕ_discrete}
use rust_data_broker.Prelude.{
  ℕ, ◌<◌, ◌^◌, ◌≡◌, ◌≢◌, refl, true, false, none, some, List, [], ◌∷◌, arith, All, ok, err,
}
use rust_data_broker.Dict
use rust_data_broker.Dict.{Dict}
use rust_data_broker.Server.State.{Name, Name-discrete}
use rust_data_broker.Config.{
  codes, is_digit, Config, Capture, ConfigError, parse_int, pos_overflow, invalid_digit,
  parse_digits, parse_u64, parse_config,
}
use rust_data_broker.Config.Numerals.{numeral, IsNumeral}
use rust_data_broker.Config.Names.{join}
use rust_data_broker.Config.Values.{IsAssignment, last_value, Says, parse_config-Says}
use rust_data_broker.Prelude.{zero, suc, map, ◌++◌}
use rust_data_broker.Server.Frame.{read_frames, read_frame, split_frame}
use rust_data_broker.Server.Connection.{receives, stops, reading, stopped, after_batch, read_buffer}
use rust_data_broker.Server.Connection.Chunks.{concat, read_buffer-chunks}
use rust_data_broker.Lifecycle.{
  sig_hup, sig_term, env_args, collect_args, split_arg, Broker, start, shutdown, on_reason,
  finish_shutdown, begin_connection, Reached, here, next, binds, accepts, begins, stops_accepting,
  accepting, draining, stopped, is_drained, receives, hears_drained,
}
use rust_data_broker.Memory.Arena.{uninitialised}
use rust_data_broker.Memory.Alloc.{unix, init}
use rust_data_broker.Memory.Run.{mapped_arena}
use rust_data_broker.Config.{split}
use rust_data_broker.Prelude.{panic}
use rust_data_broker.Lifecycle.Launch.{
  read_octet, read_octets, parse_ipv4, parse_u16, new_addr, start_server, launch,
}
use rust_data_broker.Lifecycle.Shutdown.{IsOrderly, Reached-IsOrderly}
use rust_data_broker.Errors.{fmt, queue_is_empty}
use rust_data_broker.Pool.{
  Pool, add_workers, new_pool, min_by_key, least_worker, send_job, spawn_to, spawn, receive,
  finish_job,
}

abbrev bare : Name → Name → Capture
bare k v = record { key = some k; quoted = none; bare = some v }

abbrev in_quotes : Name → Name → Capture
in_quotes k v = record { key = some k; quoted = some v; bare = none }

-- The matches in a file that sets the port twice.
abbrev settings : List Capture
settings =
    bare (codes "SERVER_PORT") (codes "1")
    ∷ bare (codes "THREADS_LIMIT") (codes "4")
    ∷ bare (codes "PROC_LIMIT") (codes "16")
    ∷ bare (codes "WAIT_LIMIT") (codes "08")
    ∷ bare (codes "MEMORY_LIMIT") (codes "8589934592")
    ∷ in_quotes (codes "SERVER_ADDR") (codes "127.0.0.1")
    ∷ in_quotes (codes "SERVER_PORT") (codes "8080")
    ∷ in_quotes (codes "QUEUE_NAMES") (codes "ab,c")
    ∷ []

abbrev config : Config
config = record {
  threads_limit = 4;
  proc_limit = 16;
  wait_limit = 8;
  memory_limit = 8589934592;
  server_addr = codes "127.0.0.1";
  server_port = codes "8080";
  queue_names = codes "ab" ∷ codes "c" ∷ [];
}

numeral_of :
    (cs : Name) (n : ℕ)
    → cs ≢ []
    → All (λ c. is_digit c ≡ true) cs
    → numeral 0 cs ≡ n
    → n < 2 ^ 64
    → IsNumeral cs n
numeral_of cs n a b c d = record { nonempty = a; digits = b; stands = c; fits = d }

bare-IsAssignment : (k v : Name) → IsAssignment (bare k v)
bare-IsAssignment k v = record { key = k; value = v; has_key = refl; has_value = refl }

quoted-IsAssignment : (k v : Name) → IsAssignment (in_quotes k v)
quoted-IsAssignment k v = record { key = k; value = v; has_key = refl; has_value = refl }

abbrev assignments : All IsAssignment settings
assignments = (
  bare-IsAssignment _ _,
  (
    bare-IsAssignment _ _,
    (
      bare-IsAssignment _ _,
      (
        bare-IsAssignment _ _,
        (
          bare-IsAssignment _ _,
          (quoted-IsAssignment _ _, (quoted-IsAssignment _ _, (quoted-IsAssignment _ _, tt))),
        ),
      ),
    ),
  ),
)

config_said : Says settings assignments config
unfolding last_value Name-discrete ℕ_discrete bare-IsAssignment quoted-IsAssignment numeral join
config_said = record {
  threads_limit = (codes "4", refl, numeral_of _ 4 (λ e. cc) (refl, tt) refl (ground arith));
  proc_limit = (codes "16", refl, numeral_of _ 16 (λ e. cc) (refl, (refl, tt)) refl (ground arith));
  wait_limit = (codes "08", refl, numeral_of _ 8 (λ e. cc) (refl, (refl, tt)) refl (ground arith));
  memory_limit = (
    codes "8589934592",
    refl,
    numeral_of _ 8589934592 (λ e. cc)
        (refl, (refl, (refl, (refl, (refl, (refl, (refl, (refl, (refl, (refl, tt)))))))))) refl
        (ground arith),
  );
  server_addr = refl;
  server_port = refl;
  queue_names = refl;
  names = ((refl, (refl, (refl, tt))), ((refl, (refl, tt)), tt));
}

parse_config-Says_example : parse_config (λ text. settings) (some []) ≡ ok config
parse_config-Says_example = parse_config-Says (λ text. settings) [] config assignments config_said

-- A file without the last key.
no_names : parse_config (λ text. settings) none ≡ err ConfigError.unreadable
unfolding parse_config
no_names = refl

limits :
    (parse_u64 (codes "18446744073709551615") ≡ ok 18446744073709551615)
    × (parse_u64 (codes "18446744073709551616") ≡ err (parse_int pos_overflow))
    × (parse_u64 (codes "+7") ≡ ok 7)
    × (parse_u64 (codes "-7") ≡ err (parse_int invalid_digit))
unfolding parse_u64 parse_digits
limits = (refl, refl, refl, refl)

-- The shutdown with a timeout of 0: a connection is served, and the wait of 30 seconds ends in time.
abbrev args : Dict Name Name
args = (codes "--shutdown_timeout", codes "0") ∷ []

args_read : env_args (codes "broker" ∷ codes "x" ∷ codes "--shutdown_timeout=0" ∷ []) ≡ args
unfolding env_args collect_args split_arg Dict.insert
args_read = refl

abbrev waits : Broker
waits = record start { run = accepting; accepted = 1 }

abbrev told : Broker
told = on_reason args sig_term waits

abbrev over : Broker
over = finish_shutdown true (record told { run = stopped; drained = 1 })

-- A connection that is accepted and whose job has not begun is not waited for.
overlooked : Reached args (begin_connection (record over { accepted = 0 }))
unfolding start on_reason shutdown finish_shutdown Dict.lookup Name-discrete ℕ_discrete parse_u64
    parse_digits
overlooked =
    next
      (next
        (next
          (next
            (next
              (next
                (next (next here (binds start refl))
                  (accepts (record start { run = accepting }) refl))
                (receives waits sig_hup refl))
              (receives waits sig_term refl))
            (stops_accepting told refl (ground arith)))
          (is_drained (record told { run = draining }) refl refl))
        (hears_drained (record told { run = stopped; drained = 1 }) 30 refl (ground arith)))
      (begins over 0 refl)

Reached-IsOrderly_example : IsOrderly (begin_connection (record over { accepted = 0 }))
Reached-IsOrderly_example =
    Reached-IsOrderly args (begin_connection (record over { accepted = 0 })) overlooked

-- Five jobs for two workers.
abbrev jobs : List ℕ
jobs = 10 ∷ 11 ∷ 12 ∷ 13 ∷ 14 ∷ []

abbrev zeroes : ℕ → List ℕ
zeroes zero = []
zeroes (suc n) = 0 ∷ zeroes n

-- An Enqueue of nothing, cut behind two bytes, and the first byte of another request.
abbrev cuts : List (List ℕ)
cuts = (1 ∷ 0 ∷ []) ∷ (0 ∷ zeroes 86) ∷ (2 ∷ []) ∷ []

read_buffer-chunks_example :
    read_buffer [] (map (receives 1000) cuts)
    ≡ after_batch (read_frames 91 1000 (concat cuts)) ([], reading)
unfolding concat
read_buffer-chunks_example = read_buffer-chunks 1000 cuts ((λ e. cc), ((λ e. cc), ((λ e. cc), tt)))

-- The request is started, and the connection ends without the other one.
cut_off : (read_buffer [] (map (receives 1000) cuts ++ stops ∷ [])).1 ≡ stopped
unfolding read_buffer after_batch read_frames read_frame split_frame
    rust_data_broker.Server.Wire.request_from_u8 rust_data_broker.Bytes.from_be_bytes
cut_off = refl

-- The worker takes the job, and is free again when it is done.
job_done :
    (p : Pool ℕ) × (receive 0 (spawn (λ i. false) (new_pool 1 1) 10).0 ≡ some (p, 10))
    × ((finish_job 0 p).pressure ≡ 0 ∷ [])
unfolding new_pool add_workers spawn spawn_to send_job least_worker min_by_key receive finish_job
    Dict.lookup Dict.insert ℕ_discrete
job_done = (record { map = (0, []) ∷ []; pressure = 1 ∷ []; capacity = 1 }, refl, refl)

text_of : fmt queue_is_empty ≡ "Queue is empty"
unfolding fmt
text_of = refl

-- The program starts with the settings, and panics where no arena is mapped.
launched :
    launch unix (λ text. settings) (some []) (some 4096)
    ≡ ok (
      mapped_arena 4096 8589934592,
      (record { octets = 127 ∷ 0 ∷ 0 ∷ 1 ∷ []; port = 8080 }, start),
    )
unfolding launch init uninitialised start_server new_addr parse_ipv4 read_octets read_octet
    parse_u16 parse_u64 parse_digits split
launched = rw (parse_config-Says (λ text. settings) [] config assignments config_said, launch) refl

not_mapped : launch unix (λ text. settings) (some []) none ≡ panic
unfolding launch init uninitialised
not_mapped =
    rw (parse_config-Says (λ text. settings) [] config assignments config_said, launch) refl

addresses :
    (parse_ipv4 (codes "10.0.0.256") ≡ none)
    × (parse_ipv4 (codes "10.0.01.2") ≡ none)
    × (parse_ipv4 (codes "10.0.2") ≡ none)
    × (parse_u16 (codes "65536") ≡ none)
unfolding parse_ipv4 read_octets read_octet parse_u16 parse_u64 parse_digits split
addresses = (refl, refl, refl, refl)
