-- ===== src/Transaction/Invariant.antt =====
-- What holds of the transaction manager between two events, and that every event of the event
-- loop keeps it and trips no assertion.
use hayward.Common.{
  ◌-◌, ◌<◌, ◌≡◌, refl, sym, subst, ◌∙◌, ◌≢◌, ◌⊎◌, inl, inr, List, [], ◌∷◌, some, false, arith, ◌==◌,
  if◌then◌else◌,
}
use hayward.Transaction.{
  Phase, idle, before_commit, commit, waiting_confirm, apply, after_apply, armed, disarmed, Manager,
  Env, transaction_progress, adjust_waiting, start_timer, handle_commit, handle_timeout,
  hwd_transaction_manager_ensure_queued, hwd_transaction_manager_release_commit_lock,
}
use hayward.Transaction.Requests.{
  IsLegit, applied, committed, progress_done, progress_waits, handle_commit_lem,
}

-- Emitted so far: whole transactions, each of the four signals in order.
pub data AllWhole : List Phase → Type 0 where
  none_yet : AllWhole []
  whole :
      {t : List Phase} → AllWhole t → AllWhole (after_apply ∷ apply ∷ commit ∷ before_commit ∷ t)

-- Whole transactions, and the first half of one more.
pub data HalfDone : List Phase → Type 0 where
  half : {t : List Phase} → AllWhole t → HalfDone (commit ∷ before_commit ∷ t)

pub record IsQuiet (m : Manager) : Type 0 where
  pub is_quiet : m.phase ≡ idle
  pub none_waiting : m.num_waiting ≡ 0
  pub no_timer : m.timer ≢ armed
  pub scheduled : m.idle_source ≡ m.queued
  pub depth_zero : m.depth ≡ 0
  pub all_whole : AllWhole m.emitted

pub record IsPending (m : Manager) : Type 0 where
  pub is_pending : m.phase ≡ waiting_confirm
  pub some_waiting : 0 < m.num_waiting
  pub has_timer : m.timer ≡ armed
  pub unscheduled : m.idle_source ≡ false
  pub depth_none : m.depth ≡ 0
  pub half_done : HalfDone m.emitted

-- Between two events the manager is idle or waits for views, never in one of the phases within.
abbrev pub Inv : Manager → Type 0
Inv m = IsQuiet m ⊎ IsPending m

HalfDone-whole : {t : List Phase} → HalfDone t → AllWhole (after_apply ∷ apply ∷ t)
HalfDone-whole (half w) = whole w

-- What is the same of every waiting manager, whether or not anything is still waited for.
pub record IsStopped (m : Manager) : Type 0 where
  pub stopped : m.phase ≡ waiting_confirm
  pub unscheduled : m.idle_source ≡ false
  pub depth_none : m.depth ≡ 0
  pub half_done : HalfDone m.emitted
  pub timed : (0 < m.num_waiting) × (m.timer ≡ armed) ⊎ (m.num_waiting ≡ 0) × (m.timer ≢ armed)

pub applied-IsQuiet :
    (env : Env) (m : Manager) → IsStopped m → m.num_waiting ≡ 0 → IsQuiet (applied env m)
unfolding applied
applied-IsQuiet env m s z = record {
  is_quiet = refl;
  none_waiting = z;
  no_timer = ground arith;
  scheduled = ground (arith, s.unscheduled);
  depth_zero = s.depth_none;
  all_whole = HalfDone-whole s.half_done;
}

-- The end of every handler: the transaction is applied if nothing is waited for.
pub transaction_progress-Inv :
    (env : Env) (m : Manager)
    → IsLegit env
    → IsStopped m
    → (n : Manager) × (transaction_progress env m ≡ some n) × Inv n
transaction_progress-Inv env m legit s = elim s.timed [
  | inl (w, t) ↦ (
    m,
    progress_waits env m s.stopped w,
    inr (record {
      is_pending = s.stopped;
      some_waiting = w;
      has_timer = t;
      unscheduled = s.unscheduled;
      depth_none = s.depth_none;
      half_done = s.half_done;
    }),
  )
  | inr (z, t) ↦
      (applied env m, progress_done env m legit s.stopped z, inl (applied-IsQuiet env m s z))
]

same_emitted :
    (env : Env) (m : Manager) → (start_timer env (adjust_waiting env m)).emitted ≡ m.emitted
unfolding start_timer adjust_waiting
same_emitted env m = ground arith

committed-IsStopped :
    (env : Env) (m : Manager)
    → IsQuiet m
    → IsStopped (start_timer env (adjust_waiting env (committed env m)))
unfolding start_timer adjust_waiting committed
committed-IsStopped env m q = record {
  stopped = ground arith;
  unscheduled = ground arith;
  depth_none = ground (arith, q.depth_zero);
  half_done = subst HalfDone (sym (same_emitted env (committed env m))) (half q.all_whole);
  timed = ground (arith, q.none_waiting, q.no_timer);
}

-- The idle source fires: the whole commit, with any listeners, flags and timers.
pub handle_commit-Inv :
    (env : Env) (m : Manager)
    → IsLegit env
    → IsQuiet m
    → (n : Manager) × (handle_commit env m ≡ some n) × Inv n
handle_commit-Inv env m legit q =
    let (n, e, v) = transaction_progress-Inv env _ legit (committed-IsStopped env m q) in
    (n, handle_commit_lem env m legit q.depth_zero ∙ e, v)

-- The timer runs out: the transaction is applied, whoever is still waited for.
pub handle_timeout-IsQuiet :
    (env : Env) (m : Manager)
    → IsLegit env
    → IsPending m
    → (n : Manager) × (handle_timeout env m ≡ some n) × IsQuiet n
unfolding handle_timeout
handle_timeout-IsQuiet env m legit p =
    let out = record m { timer = disarmed; num_waiting = 0 } in
    let stopped : IsStopped out = record {
      stopped = p.is_pending;
      unscheduled = p.unscheduled;
      depth_none = p.depth_none;
      half_done = p.half_done;
      timed = inr (refl, λ e. cc);
    } in
    (
      applied env out,
      progress_done env out legit p.is_pending refl,
      applied-IsQuiet env out stopped refl,
    )

-- The manager when a view has given back one lock.
unfoldable pub released : Manager → Manager
released m = record m {
  num_waiting = m.num_waiting - 1;
  timer = if m.num_waiting - 1 == 0 then disarmed else m.timer;
}

pub released-IsStopped : (m : Manager) → IsPending m → IsStopped (released m)
unfolding released
released-IsStopped m p = record {
  stopped = p.is_pending;
  unscheduled = p.unscheduled;
  depth_none = p.depth_none;
  half_done = p.half_done;
  timed = ground (arith, p.some_waiting, p.has_timer);
}

pub release_lem :
    (env : Env) (m : Manager)
    → IsPending m
    → hwd_transaction_manager_release_commit_lock env m ≡ transaction_progress env (released m)
unfolding hwd_transaction_manager_release_commit_lock released
release_lem env m p = ground (arith, p.is_pending, p.some_waiting, p.has_timer)

-- A view gives back its lock: no assertion fails.
pub release-Inv :
    (env : Env) (m : Manager)
    → IsLegit env
    → IsPending m
    → (n : Manager) × (hwd_transaction_manager_release_commit_lock env m ≡ some n) × Inv n
release-Inv env m legit p =
    let (n, e, v) = transaction_progress-Inv env _ legit (released-IsStopped m p) in
    (n, release_lem env m p ∙ e, v)

pub ensure_queued-Inv : (m : Manager) → Inv m → Inv (hwd_transaction_manager_ensure_queued m)
unfolding hwd_transaction_manager_ensure_queued
ensure_queued-Inv m (inl q) = inl (record {
  is_quiet = q.is_quiet;
  none_waiting = q.none_waiting;
  no_timer = q.no_timer;
  scheduled = ground arith;
  depth_zero = q.depth_zero;
  all_whole = q.all_whole;
})
ensure_queued-Inv m (inr p) = inr (record {
  is_pending = p.is_pending;
  some_waiting = p.some_waiting;
  has_timer = p.has_timer;
  unscheduled = ground arith;
  depth_none = p.depth_none;
  half_done = p.half_done;
})
