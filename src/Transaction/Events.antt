-- ===== src/Transaction/Events.antt =====
-- The transaction manager under the event loop: any order of layout requests, idle callbacks,
-- timeouts and views that give back their locks, with any listeners.
use hayward.Common.{
  ℕ, zero, suc, ◌-◌, ◌<◌, ◌≡◌, refl, subst, ◌∙◌, inl, inr, Option, some, true, arith,
}
use hayward.Transaction.{
  idle, waiting_confirm, Manager, Env, armed, disarmed, ◌>>=◌, handle_commit, handle_timeout,
  hwd_transaction_manager_create, hwd_transaction_manager_ensure_queued,
  hwd_transaction_manager_release_commit_lock,
}
use hayward.Transaction.Requests.{IsLegit, applied, progress_done, progress_waits}
use hayward.Transaction.Invariant.{
  Inv, IsQuiet, IsPending, none_yet, released, handle_commit-Inv, handle_timeout-IsQuiet,
  release-Inv, ensure_queued-Inv, release_lem, applied-IsQuiet, released-IsStopped,
}

pub data Step (m : Manager) : Manager → Type 0 where
  asked : Step m (hwd_transaction_manager_ensure_queued m)
  idle_callback :
      {n : Manager} (env : Env)
      → IsLegit env
      → m.idle_source ≡ true
      → handle_commit env m ≡ some n
      → Step m n
  timed_out :
      {n : Manager} (env : Env)
      → IsLegit env
      → m.timer ≡ armed
      → handle_timeout env m ≡ some n
      → Step m n
  given_back :
      {n : Manager} (env : Env)
      → IsLegit env
      → m.phase ≡ waiting_confirm
      → hwd_transaction_manager_release_commit_lock env m ≡ some n
      → Step m n

pub data Reach : Manager → Type 0 where
  start : Reach hwd_transaction_manager_create
  next : {m n : Manager} → Reach m → Step m n → Reach n

start-IsQuiet : IsQuiet hwd_transaction_manager_create
unfolding hwd_transaction_manager_create
start-IsQuiet = record {
  is_quiet = refl;
  none_waiting = refl;
  no_timer = λ e. cc;
  scheduled = refl;
  depth_zero = refl;
  all_whole = none_yet;
}

-- The idle source is set, a timer runs or views are waited for only in one of the two states.
scheduled-IsQuiet : (m : Manager) → Inv m → m.idle_source ≡ true → IsQuiet m
scheduled-IsQuiet m (inl q) h = q
scheduled-IsQuiet m (inr p) h = absurd (cc (p.unscheduled))

armed-IsPending : (m : Manager) → Inv m → m.timer ≡ armed → IsPending m
armed-IsPending m (inl q) h = absurd (q.no_timer h)
armed-IsPending m (inr p) h = p

waiting-IsPending : (m : Manager) → Inv m → m.phase ≡ waiting_confirm → IsPending m
waiting-IsPending m (inl q) h = absurd (cc (q.is_quiet))
waiting-IsPending m (inr p) h = p

one_result : {o : Option Manager} {m n : Manager} → o ≡ some m → o ≡ some n → m ≡ n
one_result e f = cc

Step-Inv : {m n : Manager} → Step m n → Inv m → Inv n
Step-Inv {m} asked v = ensure_queued-Inv m v
Step-Inv {m} (idle_callback env legit h e) v =
    let (n', e', v') = handle_commit-Inv env m legit (scheduled-IsQuiet m v h) in
    subst Inv (one_result e' e) v'
Step-Inv {m} (timed_out env legit h e) v =
    let (n', e', v') = handle_timeout-IsQuiet env m legit (armed-IsPending m v h) in
    subst Inv (one_result e' e) (inl v')
Step-Inv {m} (given_back env legit h e) v =
    let (n', e', v') = release-Inv env m legit (waiting-IsPending m v h) in
    subst Inv (one_result e' e) v'

-- At every moment the manager is idle with nothing waited for, no timer running and the idle
-- source set exactly if a transaction is queued, or it waits for at least one view with a timer
-- running; the signals emitted are whole transactions, before_commit, commit, apply and
-- after_apply in that order, and in the second case the first two of one more.
pub Reach-Inv : {m : Manager} → Reach m → Inv m
Reach-Inv start = inl start-IsQuiet
Reach-Inv (next r s) = Step-Inv s (Reach-Inv r)

-- The idle callback returns in every state in which it is reached: no assertion fails in the whole
-- commit, whatever the listeners, and the state is one that can be reached.
pub handle_commit-returns :
    (m : Manager) (env : Env)
    → Reach m
    → IsLegit env
    → m.idle_source ≡ true
    → (n : Manager) × (handle_commit env m ≡ some n) × Reach n
handle_commit-returns m env r legit h =
    let (n, e, _) = handle_commit-Inv env m legit (scheduled-IsQuiet m (Reach-Inv r) h) in
    (n, e, next r (idle_callback env legit h e))

-- The timeout returns in every reachable state with a running timer, and leaves the manager idle.
pub handle_timeout-returns :
    (m : Manager) (env : Env)
    → Reach m
    → IsLegit env
    → m.timer ≡ armed
    → (n : Manager) × (handle_timeout env m ≡ some n) × IsQuiet n × Reach n
handle_timeout-returns m env r legit h =
    let (n, e, q) = handle_timeout-IsQuiet env m legit (armed-IsPending m (Reach-Inv r) h) in
    (n, e, q, next r (timed_out env legit h e))

-- A view's release returns in every reachable state in which the manager waits: no assertion
-- fails, and no NULL timer is used.
pub release-returns :
    (m : Manager) (env : Env)
    → Reach m
    → IsLegit env
    → m.phase ≡ waiting_confirm
    → (n : Manager) × (hwd_transaction_manager_release_commit_lock env m ≡ some n) × Reach n
release-returns m env r legit h =
    let (n, e, _) = release-Inv env m legit (waiting-IsPending m (Reach-Inv r) h) in
    (n, e, next r (given_back env legit h e))

-- Several views give back their locks, one after the other.
pub release_times : ℕ → Env → Manager → Option Manager
release_times zero env m = some m
release_times (suc k) env m =
    hwd_transaction_manager_release_commit_lock env m >>= release_times k env

abbrev fewer : Manager → ℕ → Manager
fewer m j = record m { num_waiting = m.num_waiting - j }

fewer-IsPending : (m : Manager) (j : ℕ) → IsPending m → j < m.num_waiting → IsPending (fewer m j)
fewer-IsPending m j p h = record {
  is_pending = p.is_pending;
  some_waiting = omega arith;
  has_timer = p.has_timer;
  unscheduled = p.unscheduled;
  depth_none = p.depth_none;
  half_done = p.half_done;
}

release_one :
    (env : Env) (m : Manager)
    → IsPending m
    → 1 < m.num_waiting
    → hwd_transaction_manager_release_commit_lock env m ≡ some (fewer m 1)
unfolding released
release_one env m p h = release_lem env m p ∙ ground (arith, progress_waits env (fewer m 1))

release_some :
    (j : ℕ) (env : Env) (m : Manager)
    → IsPending m
    → j < m.num_waiting
    → release_times j env m ≡ some (fewer m j)
unfolding release_times
release_some zero env m p h = ground arith
release_some (suc j) env m p h = rw (release_one env m p (omega arith)) (
    release_some j env (fewer m 1) (fewer-IsPending m 1 p (omega arith)) (omega arith)
    ∙ ground arith)

release_all :
    (k : ℕ) (env : Env) (m : Manager)
    → IsLegit env
    → IsPending m
    → m.num_waiting ≡ suc k
    → (n : Manager) × (release_times (suc k) env m ≡ some n) × IsQuiet n
unfolding release_times released
release_all zero env m legit p e =
    let none_left : (released m).num_waiting ≡ 0 = omega arith in
    (
      applied env (released m),
      rw (release_lem env m p, progress_done env (released m) legit p.is_pending none_left),
      applied-IsQuiet env (released m) (released-IsStopped m p) none_left,
    )
release_all (suc k) env m legit p e =
    let (n, f, q) =
      release_all k env (fewer m 1) legit (fewer-IsPending m 1 p (omega arith)) (omega arith) in
    (n, rw (release_one env m p (omega arith)) f, q)

-- As long as a lock is held the releases only count down, and the layout that is shown stays: no
-- signal is emitted.
release_times-waits :
    (j : ℕ) (env : Env) (m : Manager)
    → Reach m
    → m.phase ≡ waiting_confirm
    → j < m.num_waiting
    → release_times j env m ≡ some (record m { num_waiting = m.num_waiting - j })
release_times-waits j env m r h lt = release_some j env m (waiting-IsPending m (Reach-Inv r) h) lt

-- As many releases as there are locks apply the transaction: the manager is idle again.
pub release_times-applies :
    (k : ℕ) (env : Env) (m : Manager)
    → Reach m
    → IsLegit env
    → m.phase ≡ waiting_confirm
    → m.num_waiting ≡ suc k
    → (n : Manager) × (release_times (suc k) env m ≡ some n) × IsQuiet n
release_times-applies k env m r legit h e =
    release_all k env m legit (waiting-IsPending m (Reach-Inv r) h) e

-- A transaction that is asked for while views are waited for is not lost: when the timer ends the
-- wait, the next commit is scheduled.
pub queued_survives :
    (env : Env) (m : Manager)
    → Reach m
    → IsLegit env
    → m.timer ≡ armed
    → (n : Manager) × (handle_timeout env (hwd_transaction_manager_ensure_queued m) ≡ some n)
      × (n.phase ≡ idle)
      × (n.idle_source ≡ true)
unfolding handle_timeout hwd_transaction_manager_ensure_queued applied
queued_survives env m r legit h =
    let p = armed-IsPending m (Reach-Inv r) h in
    (
      applied env
          (record (hwd_transaction_manager_ensure_queued m) { timer = disarmed; num_waiting = 0 }),
      progress_done env
          (record (hwd_transaction_manager_ensure_queued m) { timer = disarmed; num_waiting = 0 })
          legit p.is_pending refl,
      refl,
      ground (arith, p.unscheduled),
    )
