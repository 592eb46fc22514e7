-- ===== src/Lifecycle.antt =====
-- main.rs and net/server.rs: from the arguments of the program and the start of the server to the
-- shutdown. A connection is a number in a count. Of `tokio::sync::Notify` only this is used, that
-- nobody who waits wakes before a notification; whether and when it wakes is left open.
pub mod Shutdown
pub mod Launch
use rust_data_broker.Prelude.{
  ℕ, suc, ◌+◌, ◌<◌, ◌≡◌, Bool, true, false, Option, none, some, List, [], ◌∷◌, ◌==◌, if◌then◌else◌,
  Outcome, ok, err, panic, drop,
}
use rust_data_broker.Dict
use rust_data_broker.Dict.{Dict}
use rust_data_broker.Server.State.{Name, Name-discrete}
use rust_data_broker.Config.{codes, ConfigError, parse_u64}
use rust_data_broker.Memory.Alloc.{fetch_add, fetch_sub}

-- `splitn(2, '=')`: what is before the first `=`, and what is behind it.
unfoldable pub split_arg : Name → Option (Name × Name)
split_arg [] = none
split_arg (c ∷ cs) =
    let rest = split_arg cs in
    if c == 61
    then some ([], cs)
    else elim rest [ none ↦ none | some (key, value) ↦ some (c ∷ key, value) ]

unfoldable pub collect_args : Dict Name Name → List Name → Dict Name Name
unfolding split_arg
collect_args m [] = m
collect_args m (arg ∷ args) = elim (split_arg arg) [
  | none ↦ collect_args m args
  | some (key, value) ↦ collect_args (Dict.insert Name-discrete key value m) args
]

-- The first argument is the name of the program.
unfoldable pub env_args : List Name → Dict Name Name
unfolding collect_args
env_args args = collect_args [] (drop 1 args)

pub data ShutdownReason : Type 0 where
  ctrl_c : ShutdownReason
  sig_term : ShutdownReason
  sig_hup : ShutdownReason

-- Where `main` is: in the loop, in the wait of `shutdown` for so many seconds, or at its end.
pub data Main : Type 0 where
  waiting : Main
  shutting_down : (duration : ℕ) → Main
  finished : Main
  failed : ConfigError → Main
  panicked : Main

-- Where `run` is: before `bind`, in the loop that accepts, in the loop that waits for the
-- connections, or at its end, with or without an error of `bind`.
pub data Run : Type 0 where
  starting : Run
  accepting : Run
  draining : Run
  stopped : Run
  not_bound : Run

-- `accepted` is the number of connections whose job has not begun, and `serving` of those in
-- `handle_connection`. The last three are the numbers of notifications sent.
pub record Broker : Type 0 where
  pub main : Main
  pub run : Run
  pub accepted : ℕ
  pub serving : ℕ
  pub active_connections : ℕ
  pub stop_accepting : ℕ
  pub stop_word : ℕ
  pub drained : ℕ

-- `start_server`, with `Server::new`, and the call of `run_shutdown_loop`.
unfoldable pub start : Broker
start = record {
  main = waiting;
  run = starting;
  accepted = 0;
  serving = 0;
  active_connections = 0;
  stop_accepting = 0;
  stop_word = 0;
  drained = 0;
}

-- `shutdown` up to the wait for `drained`, or to its end where there is no wait.
unfoldable pub shutdown : Dict Name Name → Broker → Broker
shutdown env s =
    let told = record s { stop_accepting = s.stop_accepting + 1 } in
    elim (Dict.lookup Name-discrete (codes "--shutdown_timeout") env) [
      | none ↦ record told { stop_word = s.stop_word + 1; main = finished }
      | some value ↦ elim (parse_u64 value) [
        | ok duration ↦ record told {
          main = shutting_down (if duration == 0 then 30 else duration);
        }
        | err e ↦ record told { main = failed e }
        | panic ↦ record told { main = panicked }
      ]
    ]

-- The end of `shutdown` behind the wait, in time or not.
unfoldable pub finish_shutdown : (in_time : Bool) → Broker → Broker
finish_shutdown true s = record s { stop_word = s.stop_word + 1; main = finished }
finish_shutdown false s = record s { stop_word = s.stop_word + 1 + 1; main = finished }

-- A round of `run_shutdown_loop`.
unfoldable pub on_reason : Dict Name Name → ShutdownReason → Broker → Broker
unfolding shutdown
on_reason env ctrl_c s = shutdown env s
on_reason env sig_term s = shutdown env s
on_reason env sig_hup s = s

-- `handle_connection` begins and ends.
unfoldable pub begin_connection : Broker → Broker
begin_connection s = record s {
  serving = s.serving + 1;
  active_connections = fetch_add s.active_connections 1;
}

unfoldable pub end_connection : Broker → Broker
end_connection s = record s { active_connections = fetch_sub s.active_connections 1 }

-- A step of a task of the program, with its arguments.
pub data Step (env : Dict Name Name) : Broker → Broker → Type 0 where
  binds : (s : Broker) → s.run ≡ starting → Step env s (record s { run = accepting })
  does_not_bind : (s : Broker) → s.run ≡ starting → Step env s (record s { run = not_bound })
  accepts : (s : Broker) → s.run ≡ accepting → Step env s (record s { accepted = s.accepted + 1 })
  -- a job of the pool, or an error of `spawn`
  begins :
      (s : Broker) (n : ℕ)
      → s.accepted ≡ suc n
      → Step env s (begin_connection (record s { accepted = n }))
  is_refused : (s : Broker) (n : ℕ) → s.accepted ≡ suc n → Step env s (record s { accepted = n })
  ends :
      (s : Broker) (n : ℕ)
      → s.serving ≡ suc n
      → Step env s (end_connection (record s { serving = n }))
  stops_accepting :
      (s : Broker)
      → s.run ≡ accepting
      → 0 < s.stop_accepting
      → Step env s (record s { run = draining })
  is_drained :
      (s : Broker)
      → s.run ≡ draining
      → s.active_connections ≡ 0
      → Step env s (record s { run = stopped; drained = s.drained + 1 })
  receives :
      (s : Broker) (reason : ShutdownReason)
      → s.main ≡ waiting
      → Step env s (on_reason env reason s)
  is_stopped :
      (s : Broker) → s.main ≡ waiting → 0 < s.stop_word → Step env s (record s { main = finished })
  hears_drained :
      (s : Broker) (duration : ℕ)
      → s.main ≡ shutting_down duration
      → 0 < s.drained
      → Step env s (finish_shutdown true s)
  times_out :
      (s : Broker) (duration : ℕ)
      → s.main ≡ shutting_down duration
      → Step env s (finish_shutdown false s)

-- What a run of the program from its start reaches.
pub data Reached (env : Dict Name Name) : Broker → Type 0 where
  here : Reached env start
  next : {s t : Broker} → Reached env s → Step env s t → Reached env t
