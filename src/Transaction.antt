-- ===== src/Transaction.antt =====
-- src/tree/transaction.c: the transaction manager, a state machine that the event loop, the
-- layout code and the views drive. An assertion that fails, or a NULL timer that is used, is
-- `none`. What the listeners of a signal do to the manager while it is emitted is an argument, a
-- list of requests; so are the debug flags and whether a timer could be made. `emitted` records
-- the signals, the newest first. The profiler's timestamps and the log are left out.
pub mod Requests
pub mod Invariant
pub mod Events
use hayward.Common.{
  ℕ, zero, suc, ◌+◌, ◌-◌, List, [], ◌∷◌, Option, none, some, Bool, true, false, not, ◌&&◌, ltb,
  ◌==◌, if◌then◌else◌,
}

pub data Phase : Type 0 where
  idle before_commit commit waiting_confirm apply after_apply : Phase

-- An event source of the event loop: a timer that runs, or one that does not.
pub data Timer : Type 0 where
  unset armed disarmed : Timer

pub record Manager : Type 0 where
  pub depth : ℕ
  pub queued : Bool
  pub phase : Phase
  pub idle_source : Bool
  pub timer : Timer
  pub num_configures : ℕ
  pub num_waiting : ℕ
  pub emitted : List Phase

-- What a listener may ask of the manager while a signal is emitted.
pub data Request : Type 0 where
  queue acquire : Request

-- The world outside: what the listeners of the four signals do, debug.noatomic, debug.txn_wait,
-- and whether wl_event_loop_add_timer succeeds.
pub record Env : Type 0 where
  pub on_before_commit : List Request
  pub on_commit : List Request
  pub on_apply : List Request
  pub on_after_apply : List Request
  pub noatomic : Bool
  pub txn_wait : Bool
  pub timer_made : Bool

infixl 5 ◌>>=◌
abbrev pub ◌>>=◌ {ℓ κ} : {A : Type ℓ} {B : Type κ} → Option A → (A → Option B) → Option B
none >>= f = none
some a >>= f = f a

abbrev pub is_idle : Phase → Bool
is_idle idle = true
is_idle _ = false

abbrev pub is_commit : Phase → Bool
is_commit commit = true
is_commit _ = false

abbrev pub is_waiting : Phase → Bool
is_waiting waiting_confirm = true
is_waiting _ = false

-- `assert`
abbrev pub assert : Bool → Manager → Option Manager
assert true m = some m
assert false m = none

unfoldable pub hwd_transaction_manager_create : Manager
hwd_transaction_manager_create = record {
  depth = 0;
  queued = false;
  phase = idle;
  idle_source = false;
  timer = unset;
  num_configures = 0;
  num_waiting = 0;
  emitted = [];
}

unfoldable pub hwd_transaction_manager_ensure_queued : Manager → Manager
hwd_transaction_manager_ensure_queued m = record m {
  queued = true;
  idle_source = if is_idle m.phase && not m.idle_source then true else m.idle_source;
}

unfoldable pub hwd_transaction_manager_acquire_commit_lock : Manager → Option Manager
hwd_transaction_manager_acquire_commit_lock m = do
  m ← assert (is_commit m.phase) m
  some (record m { num_waiting = m.num_waiting + 1 })

-- The listeners of a signal, one after the other.
unfoldable pub run_requests : List Request → Manager → Option Manager
unfolding hwd_transaction_manager_ensure_queued hwd_transaction_manager_acquire_commit_lock
run_requests [] m = some m
run_requests (queue ∷ rs) m = run_requests rs (hwd_transaction_manager_ensure_queued m)
run_requests (acquire ∷ rs) m = do
  m ← hwd_transaction_manager_acquire_commit_lock m
  run_requests rs m

-- wl_signal_emit_mutable in the phase of that name.
unfoldable pub emit : Phase → List Request → Manager → Option Manager
unfolding run_requests
emit phase requests m =
    run_requests requests (record m { phase = phase; emitted = phase ∷ m.emitted })

-- The end of transaction_progress: back to idle, with the next transaction scheduled if one is
-- queued.
unfoldable pub finish : Manager → Manager
finish m = record m {
  phase = idle;
  idle_source = if m.queued && not m.idle_source then true else m.idle_source;
}

-- transaction_progress once nobody is waited for.
unfoldable pub apply_transaction : Env → Manager → Option Manager
unfolding emit finish
apply_transaction env m = do
  m ← emit apply env.on_apply (record m { num_configures = 0 })
  m ← emit after_apply env.on_after_apply m
  some (finish m)

unfoldable pub transaction_progress : Env → Manager → Option Manager
transaction_progress env m = do
  m ← assert (is_waiting m.phase) m
  let rest = apply_transaction env m
  if ltb 0 m.num_waiting then some m else rest

-- The locks that the commit took, with the debug flags.
unfoldable pub adjust_waiting : Env → Manager → Manager
adjust_waiting env m =
    if env.noatomic
    then record m { num_waiting = 0 }
    else if env.txn_wait
    then record m { num_waiting = m.num_waiting + 1000000 }
    else m

unfoldable pub start_timer : Env → Manager → Manager
start_timer env m =
    if ltb 0 m.num_waiting
    then (if env.timer_made
        then record m { timer = armed }
        else record m { timer = unset; num_waiting = 0 })
    else m

unfoldable pub handle_commit : Env → Manager → Option Manager
unfolding emit
handle_commit env m = do
  m ← assert (m.depth == 0) (record m { idle_source = false })
  m ← emit before_commit env.on_before_commit m
  m ← emit commit env.on_commit (record m { queued = false })
  let waiting = record m { phase = waiting_confirm; num_configures = m.num_waiting }
  transaction_progress env (start_timer env (adjust_waiting env waiting))

-- A timer runs out once, and is then disarmed.
unfoldable pub handle_timeout : Env → Manager → Option Manager
handle_timeout env m = transaction_progress env (record m { timer = disarmed; num_waiting = 0 })

-- wl_event_source_timer_update(timer, 0)
unfoldable pub disarm : Manager → Option Manager
disarm m = elim m.timer [ unset ↦ none | _ ↦ some (record m { timer = disarmed }) ]

unfoldable pub hwd_transaction_manager_release_commit_lock : Env → Manager → Option Manager
unfolding disarm
hwd_transaction_manager_release_commit_lock env m = do
  m ← assert (is_waiting m.phase) m
  m ← assert (ltb 0 m.num_waiting) m
  let fewer = record m { num_waiting = m.num_waiting - 1 }
  m ← if fewer.num_waiting == 0 then disarm fewer else some fewer
  transaction_progress env m
