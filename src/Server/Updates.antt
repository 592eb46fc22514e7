-- ===== src/Server/Updates.antt =====
-- net/server.rs: the tasks of Requeue, UpdateM, UpdateQ and NetStats in `read_buffer`.
use native.Mathlib.Decide.{ℕ_discrete}
use rust_data_broker.Prelude.{
  ℕ, Bool, Option, none, some, List, [], ◌∷◌, Outcome, ok, err, panic, ltb, if◌then◌else◌, drop,
}
use rust_data_broker.Dict
use rust_data_broker.Dict.{Dict}
use rust_data_broker.Errors
use rust_data_broker.Queue.Config.{NetQueueConfig, ConfigError, net_config_from_be_bytes}
use rust_data_broker.Queue.State.{Queue}
use rust_data_broker.Queue.Locks
use rust_data_broker.Queue.Sizes.{Capacities}
use rust_data_broker.NetStats.{StatMessage, new_stat, watcher_to_bytes}
use rust_data_broker.Server.State.{Server, Name, succeeded, failed, silent, put_queue}
use rust_data_broker.Server.Handlers.{Handled, on_queue, reply, message_id_of}

unfoldable pub handle_requeue : Server → Name → ℕ → ℕ → List ℕ → ℕ → Handled
handle_requeue s queue_name client_id payload_size payload now = on_queue s queue_name λ hash q.
    if ltb payload_size 16
    then (s, failed Errors.payload_missing_message_id)
    else reply s hash Errors.message_not_in_queue
        (Locks.requeue q client_id (message_id_of payload) now)

-- Here the payload is looked at first.
unfoldable pub handle_update_m : Server → Name → ℕ → List ℕ → Handled
handle_update_m s queue_name payload_size payload =
    if ltb payload_size 16
    then (s, failed Errors.payload_missing_message_id)
    else on_queue s queue_name λ hash q.
      reply s hash Errors.message_not_in_queue
        (Locks.update_message q (message_id_of payload) (drop 16 payload))

abbrev pub set_auto_fail_if : Option Bool → Queue → Queue
set_auto_fail_if none q = q
set_auto_fail_if (some b) q = Locks.update_config_auto_fail q b

abbrev pub set_fail_timeout_if : Option ℕ → Queue → Queue
set_fail_timeout_if none q = q
set_fail_timeout_if (some t) q = Locks.update_config_fail_timeout q t

unfoldable pub apply_config : NetQueueConfig → Queue → Queue
apply_config c q = set_fail_timeout_if c.fail_timeout (set_auto_fail_if c.auto_fail q)

unfoldable pub configure : Server → ℕ → Queue → Outcome ConfigError (NetQueueConfig × ℕ) → Handled
unfolding apply_config
configure s hash q (ok (config, size)) = (put_queue s hash (apply_config config q), succeeded [])
configure s hash q (err e) = (s, failed Errors.config_bytes_empty)
configure s hash q panic = (s, silent)

unfoldable pub handle_update_q : Server → Name → ℕ → List ℕ → Handled
unfolding configure
handle_update_q s queue_name payload_size payload = on_queue s queue_name λ hash q.
    if ltb payload_size 1
    then (s, failed Errors.invalid_config_payload_size)
    else configure s hash q (net_config_from_be_bytes payload)

-- One entry for each name whose queue is in the map; `k` gives the capacities of a queue.
unfoldable pub collect_stats :
    (ℕ → Capacities) → Dict ℕ Queue → Dict Name ℕ → List StatMessage → List StatMessage
collect_stats k queues [] stats = stats
collect_stats k queues ((name, hash) ∷ names) stats =
    collect_stats k queues names (elim (Dict.lookup ℕ_discrete hash queues) [
      | none ↦ stats
      | some q ↦ new_stat stats name (k hash) q
    ])

unfoldable pub handle_net_stats : Server → (ℕ → Capacities) → Handled
unfolding collect_stats
handle_net_stats s k = (s, succeeded (watcher_to_bytes (collect_stats k s.queue s.queue_names [])))
