-- ===== src/Server/Locks/Order.antt =====
-- net/server.rs: the order in which the locks are taken.
use rust_data_broker.Prelude.{
  ℕ, ◌≡◌, refl, Bool, true, false, ◌&&◌, none, Option, some, List, [], ◌∷◌, ◌++◌, ltb,
  if◌then◌else◌,
}
use rust_data_broker.Server.Wire.{
  Request, enqueue, dequeue, create_q, delete_q, list_m, delete_m, succeeded, failed, requeue,
  update_m, update_q, net_stats,
}
use rust_data_broker.Server.Locks.{
  Lock, names, queues, one_queue, writer, Mode, shared, exclusive, Action, take, give, Plan, send,
  under_queues, visit, visit_all, on_queue, dequeue_actions, succeeded_actions, list_m_actions,
  net_stats_actions, write_both, guarded, actions_of, Job, request, answer, job_actions, program,
}

-- A lock that a task holds, in its mode.
abbrev pub Hold : Type 0
Hold = Lock × Mode

-- The requests that run at a time: those that leave the two maps as they are, or those that take
-- the lock of the names first.
pub data Load : Type 0 where
  steady : Load
  naming : Load

unfoldable pub fits : Load → Request → Bool
fits steady create_q = false
fits steady delete_q = false
fits steady _ = true
fits naming create_q = true
fits naming delete_q = true
fits naming list_m = true
fits naming net_stats = true
fits naming _ = false

unfoldable pub job_fits : Load → Job → Bool
job_fits load (request p) = fits load p.command
job_fits load (answer connection) = true

unfoldable pub rank : Lock → ℕ
rank names = 0
rank queues = 1
rank (one_queue hash) = 2
rank (writer connection) = 3

unfoldable pub is_shared : Mode → Bool
is_shared shared = true
is_shared exclusive = false

-- The lock ranks above every lock held.
unfoldable pub above : List Hold → Lock → Bool
above [] l = true
above (h ∷ held) l = ltb (rank h.0) (rank l) && above held l

-- In a steady load the maps are only read, in any order; any other lock is taken upwards.
unfoldable pub allowed : Load → List Hold → Lock → Mode → Bool
allowed steady held names m = is_shared m
allowed steady held queues m = is_shared m
allowed steady held (one_queue hash) m = above held (one_queue hash)
allowed steady held (writer connection) m = above held (writer connection)
allowed naming held l m = above held l

-- Every take is allowed, and at the end every lock is given back.
unfoldable pub ordered : Load → List Hold → List Action → Bool
ordered load [] [] = true
ordered load (h ∷ held) [] = false
ordered load [] (give ∷ rest) = false
ordered load (h ∷ held) (give ∷ rest) = ordered load held rest
ordered load held (take l m ∷ rest) = allowed load held l m && ordered load ((l, m) ∷ held) rest

&&-intro : (a b : Bool) → a ≡ true → b ≡ true → (a && b) ≡ true
&&-intro true b h k = k
&&-intro false b h k = h

pub &&-left : (a b : Bool) → (a && b) ≡ true → a ≡ true
&&-left true b h = refl
&&-left false b h = h

pub &&-right : (a b : Bool) → (a && b) ≡ true → b ≡ true
&&-right true b h = h
&&-right false b h = cc

ordered-append :
    (load : Load) (held : List Hold) (a b : List Action)
    → ordered load held a ≡ true
    → ordered load [] b ≡ true
    → ordered load held (a ++ b) ≡ true
unfolding ordered
ordered-append load [] [] b h k = k
ordered-append load (x ∷ held) [] b h k = cc
ordered-append load [] (give ∷ a) b h k = cc
ordered-append load (x ∷ held) (give ∷ a) b h k = ordered-append load held a b h k
ordered-append load held (take l m ∷ a) b h k =
    &&-intro _ _ (&&-left _ _ h)
      (ordered-append load ((l, m) ∷ held) a b (&&-right (allowed load held l m) _ h) k)

-- Visits to queues, under any locks on which a queue may be taken.
visit_all-ordered :
    (load : Load) (held : List Hold) (hashes : List ℕ) (rest : List Action)
    → ((hash : ℕ) → allowed load held (one_queue hash) exclusive ≡ true)
    → ordered load held rest ≡ true
    → ordered load held (visit_all hashes ++ rest) ≡ true
unfolding visit_all ordered
visit_all-ordered load held [] rest free h = h
visit_all-ordered load held (hash ∷ hashes) rest free h =
    &&-intro _ _ (free hash) (visit_all-ordered load held hashes rest free h)

send-ordered : (load : Load) (connection : ℕ) → ordered load [] (send connection) ≡ true
unfolding send ordered allowed above
send-ordered steady connection = refl
send-ordered naming connection = refl

on_queue-ordered :
    (found : Option ℕ) (connection : ℕ) → ordered steady [] (on_queue found connection) ≡ true
unfolding on_queue under_queues send ordered allowed above rank is_shared
on_queue-ordered none connection = refl
on_queue-ordered (some hash) connection = refl

if-ordered :
    (load : Load) (test : Bool) (a b : List Action)
    → ordered load [] a ≡ true
    → ordered load [] b ≡ true
    → ordered load [] (if test then a else b) ≡ true
if-ordered load true a b h k = h
if-ordered load false a b h k = k

guarded-ordered : (p : Plan) → ordered steady [] (guarded p) ≡ true
unfolding guarded on_queue
guarded-ordered p = if-ordered steady _ _ _ (send-ordered steady p.connection) (
    if-ordered steady _ _ _ (on_queue-ordered p.found p.connection)
      (on_queue-ordered none p.connection))

dequeue_actions-ordered :
    (found : Option ℕ) (is_read is_written timer : Bool) (connection : ℕ)
    → ordered steady [] (dequeue_actions found is_read is_written timer connection) ≡ true
unfolding dequeue_actions under_queues visit send ordered allowed above rank is_shared
dequeue_actions-ordered none is_read is_written timer connection = refl
dequeue_actions-ordered (some hash) false is_written timer connection = refl
dequeue_actions-ordered (some hash) true false timer connection = refl
dequeue_actions-ordered (some hash) true true false connection = refl
dequeue_actions-ordered (some hash) true true true connection = refl

succeeded_actions-ordered :
    (found : Option ℕ) (connection : ℕ)
    → ordered steady [] (succeeded_actions found connection) ≡ true
unfolding succeeded_actions under_queues visit send ordered allowed above rank is_shared
succeeded_actions-ordered none connection = refl
succeeded_actions-ordered (some hash) connection = refl

list_m_actions-ordered :
    (load : Load) (named : Bool) (found : Option ℕ) (connection : ℕ)
    → ordered load [] (list_m_actions named found connection) ≡ true
unfolding list_m_actions visit send ordered allowed above rank is_shared
list_m_actions-ordered steady false found connection = refl
list_m_actions-ordered steady true none connection = refl
list_m_actions-ordered steady true (some hash) connection = refl
list_m_actions-ordered naming false found connection = refl
list_m_actions-ordered naming true none connection = refl
list_m_actions-ordered naming true (some hash) connection = refl

net_stats_actions-ordered :
    (load : Load) (hashes : List ℕ) (connection : ℕ)
    → ordered load [] (net_stats_actions hashes connection) ≡ true
unfolding net_stats_actions send ordered allowed above rank is_shared
net_stats_actions-ordered steady hashes connection =
    visit_all-ordered steady _ hashes _ (λ hash. refl) refl
net_stats_actions-ordered naming hashes connection =
    visit_all-ordered naming _ hashes _ (λ hash. refl) refl

write_both-ordered : ordered naming [] write_both ≡ true
unfolding write_both ordered allowed above rank
write_both-ordered = refl

actions_of-ordered :
    (load : Load) (r : Request) (p : Plan)
    → fits load r ≡ true
    → ordered load [] (actions_of r p) ≡ true
unfolding fits actions_of
actions_of-ordered steady enqueue p h =
    if-ordered steady _ _ _ (on_queue-ordered p.found p.connection)
      (send-ordered steady p.connection)
actions_of-ordered steady dequeue p h =
    dequeue_actions-ordered p.found p.is_read p.is_written p.timer p.connection
actions_of-ordered steady create_q p h = cc
actions_of-ordered steady delete_q p h = cc
actions_of-ordered steady list_m p h = list_m_actions-ordered steady p.named p.found p.connection
actions_of-ordered steady delete_m p h = guarded-ordered p
actions_of-ordered steady succeeded p h = succeeded_actions-ordered p.found p.connection
actions_of-ordered steady failed p h = on_queue-ordered p.found p.connection
actions_of-ordered steady requeue p h = guarded-ordered p
actions_of-ordered steady update_m p h =
    if-ordered steady _ _ _ (on_queue-ordered p.found p.connection)
      (send-ordered steady p.connection)
actions_of-ordered steady update_q p h = guarded-ordered p
actions_of-ordered steady net_stats p h = net_stats_actions-ordered steady p.hashes p.connection
actions_of-ordered naming create_q p h = write_both-ordered
actions_of-ordered naming delete_q p h = write_both-ordered
actions_of-ordered naming list_m p h = list_m_actions-ordered naming p.named p.found p.connection
actions_of-ordered naming net_stats p h = net_stats_actions-ordered naming p.hashes p.connection
actions_of-ordered naming enqueue p h = cc
actions_of-ordered naming dequeue p h = cc
actions_of-ordered naming delete_m p h = cc
actions_of-ordered naming succeeded p h = cc
actions_of-ordered naming failed p h = cc
actions_of-ordered naming requeue p h = cc
actions_of-ordered naming update_m p h = cc
actions_of-ordered naming update_q p h = cc

job_actions-ordered :
    (load : Load) (job : Job) → job_fits load job ≡ true → ordered load [] (job_actions job) ≡ true
unfolding job_fits job_actions
job_actions-ordered load (request p) h = actions_of-ordered load p.command p h
job_actions-ordered load (answer connection) h = send-ordered load connection

unfoldable pub jobs_fit : Load → List Job → Bool
jobs_fit load [] = true
jobs_fit load (job ∷ jobs) = job_fits load job && jobs_fit load jobs

pub program-ordered :
    (load : Load) (jobs : List Job)
    → jobs_fit load jobs ≡ true
    → ordered load [] (program jobs) ≡ true
unfolding jobs_fit program ordered
program-ordered load [] h = refl
program-ordered load (job ∷ jobs) h =
    ordered-append load [] (job_actions job) (program jobs)
      (job_actions-ordered load job (&&-left _ _ h))
      (program-ordered load jobs (&&-right (job_fits load job) _ h))
