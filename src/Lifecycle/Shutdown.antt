-- ===== src/Lifecycle/Shutdown.antt =====
-- main.rs and net/server.rs: the order of the notifications, and the count of the connections.
use rust_data_broker.Prelude.{
  ℕ, ◌+◌, ◌%◌, ◌^◌, ◌<◌, ◌≡◌, ◌≢◌, ◌⊎◌, refl, subst, inl, inr, Bool, true, false, arith, ◌==◌,
  if◌then◌else◌, Option-cases, Outcome, ok, err, panic,
}
use rust_data_broker.Dict
use rust_data_broker.Dict.{Dict}
use rust_data_broker.Server.State.{Name, Name-discrete}
use rust_data_broker.Config.{codes, ConfigError, parse_u64}
use rust_data_broker.Config.Numerals.{parse_u64_total}
use rust_data_broker.Lifecycle.{
  ctrl_c, sig_term, sig_hup, Main, waiting, shutting_down, finished, failed, panicked, Run,
  starting, accepting, draining, stopped, not_bound, Broker, start, shutdown, finish_shutdown,
  on_reason, begin_connection, end_connection, Step, Reached, binds, does_not_bind, accepts, begins,
  is_refused, ends, stops_accepting, is_drained, receives, is_stopped, hears_drained, times_out,
  here, next,
}

-- What `main` has sent: nothing in the loop; `stop_accepting` alone in the wait, which is of a
-- second at least, and after an error; both at the end. It does not panic.
abbrev pub MainSays : Main → (stop_accepting stop_word : ℕ) → Type 0
MainSays waiting a w = (a ≡ 0) × (w ≡ 0)
MainSays (shutting_down duration) a w = (0 < duration) × (a ≡ 1) × (w ≡ 0)
MainSays finished a w = (a ≡ 1) × (0 < w)
MainSays (failed e) a w = (a ≡ 1) × (w ≡ 0)
MainSays panicked a w = ⊥

-- What `run` has heard and sent: it leaves the loop that accepts when it is told to, and sends
-- `drained` once, at its end.
abbrev pub RunSays : Run → (stop_accepting drained : ℕ) → Type 0
RunSays starting a d = d ≡ 0
RunSays accepting a d = d ≡ 0
RunSays draining a d = (0 < a) × (d ≡ 0)
RunSays stopped a d = (0 < a) × (d ≡ 1)
RunSays not_bound a d = d ≡ 0

pub record IsOrderly (s : Broker) : Type 0 where
  pub main : MainSays s.main s.stop_accepting s.stop_word
  pub run : RunSays s.run s.stop_accepting s.drained
  pub counted : s.active_connections ≡ s.serving % 2 ^ 64

Outcome-cases :
    (r : Outcome ConfigError ℕ)
    → r ≢ panic
    → ((n : ℕ) × (r ≡ ok n)) ⊎ ((e : ConfigError) × (r ≡ err e))
Outcome-cases (ok n) h = inl (n, refl)
Outcome-cases (err e) h = inr (e, refl)
Outcome-cases panic h = absurd (h refl)

-- What the invariant says where `main` or `run` is known.
main_says :
    (s : Broker) (m : Main) → IsOrderly s → s.main ≡ m → MainSays m s.stop_accepting s.stop_word
main_says s m i e = subst (λ k. MainSays k s.stop_accepting s.stop_word) e i.main

run_says : (s : Broker) (r : Run) → IsOrderly s → s.run ≡ r → RunSays r s.stop_accepting s.drained
run_says s r i e = subst (λ k. RunSays k s.stop_accepting s.drained) e i.run

-- More calls to stop are no harm to what `run` has heard.
told_more : (r : Run) (a d : ℕ) → RunSays r a d → RunSays r (a + 1) d
told_more starting a d h = h
told_more accepting a d h = h
told_more draining a d h = (omega arith, h.1)
told_more stopped a d h = (omega arith, h.1)
told_more not_bound a d h = h

shutdown-IsOrderly :
    (env : Dict Name Name) (s : Broker)
    → IsOrderly s
    → s.main ≡ waiting
    → IsOrderly (shutdown env s)
unfolding shutdown
shutdown-IsOrderly env s i m =
    let (a, w) = main_says s _ i m in
    let told = told_more s.run s.stop_accepting s.drained i.run in
    elim (Option-cases (Dict.lookup Name-discrete (codes "--shutdown_timeout") env)) [
      | inl e ↦
          rw (e, shutdown)
            (record { main = (omega arith, omega arith); run = told; counted = i.counted })
      | inr (value, e) ↦ elim (Outcome-cases (parse_u64 value) (parse_u64_total value)) [
        | inl (n, p) ↦
            rw (e, p, shutdown)
              (record { main = (seconds n, omega arith, w); run = told; counted = i.counted })
        | inr (k, p) ↦
            rw (e, p, shutdown)
              (record { main = (omega arith, w); run = told; counted = i.counted })
      ]
    ]
  where
    seconds : (n : ℕ) → 0 < (if n == 0 then 30 else n)
    seconds n = ground arith

finish_shutdown-IsOrderly :
    (in_time : Bool) (s : Broker) (duration : ℕ)
    → IsOrderly s
    → s.main ≡ shutting_down duration
    → IsOrderly (finish_shutdown in_time s)
unfolding finish_shutdown
finish_shutdown-IsOrderly true s d i m =
    let (_, a, w) = main_says s _ i m in
    record { main = (a, omega arith); run = i.run; counted = i.counted }
finish_shutdown-IsOrderly false s d i m =
    let (_, a, w) = main_says s _ i m in
    record { main = (a, omega arith); run = i.run; counted = i.counted }

Step-IsOrderly : (env : Dict Name Name) {s t : Broker} → Step env s t → IsOrderly s → IsOrderly t
unfolding begin_connection end_connection on_reason
Step-IsOrderly env (binds s r) i = record {
  main = i.main;
  run = run_says s _ i r;
  counted = i.counted;
}
Step-IsOrderly env (does_not_bind s r) i = record {
  main = i.main;
  run = run_says s _ i r;
  counted = i.counted;
}
Step-IsOrderly env (accepts s r) i = record { main = i.main; run = i.run; counted = i.counted }
Step-IsOrderly env (begins s n e) i = record {
  main = i.main;
  run = i.run;
  counted = omega (arith, i.counted);
}
Step-IsOrderly env (is_refused s n e) i = record { main = i.main; run = i.run; counted = i.counted }
Step-IsOrderly env (ends s n e) i = record {
  main = i.main;
  run = i.run;
  counted = omega (arith, i.counted);
}
Step-IsOrderly env (stops_accepting s r h) i = record {
  main = i.main;
  run = (h, run_says s _ i r);
  counted = i.counted;
}
Step-IsOrderly env (is_drained s r z) i =
    let (told, none_sent) = run_says s _ i r in
    record { main = i.main; run = (told, omega arith); counted = i.counted }
Step-IsOrderly env (receives s ctrl_c m) i = shutdown-IsOrderly env s i m
Step-IsOrderly env (receives s sig_term m) i = shutdown-IsOrderly env s i m
Step-IsOrderly env (receives s sig_hup m) i = i
Step-IsOrderly env (is_stopped s m h) i = let (a, w) = main_says s _ i m in absurd (omega arith)
Step-IsOrderly env (hears_drained s d m h) i = finish_shutdown-IsOrderly true s d i m
Step-IsOrderly env (times_out s d m) i = finish_shutdown-IsOrderly false s d i m

-- In everything that a run of the program reaches, whatever the signals and the connections do and
-- however late a notification is heard, `main` has sent nothing before a signal to stop, has then
-- told to stop accepting once, and tells the connections to stop if and only if it ends without an
-- error; a wait is of a second at least; `run` leaves the loop that accepts only when it is told to,
-- and sends `drained` once, at its end; `active_connections` is the number of the connections in
-- `handle_connection`, modulo 2 ^ 64.
pub Reached-IsOrderly : (env : Dict Name Name) (s : Broker) → Reached env s → IsOrderly s
unfolding start
Reached-IsOrderly env _ here = record { main = (refl, refl); run = refl; counted = refl }
Reached-IsOrderly env t (next r step) = Step-IsOrderly env step (Reached-IsOrderly env _ r)
