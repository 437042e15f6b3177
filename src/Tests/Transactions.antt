-- ===== src/Tests/Transactions.antt =====
-- A transaction in which two views are waited for.
use hayward.Common.{◌≡◌, refl, [], ◌∷◌, some, true, false}
use hayward.Transaction.{
  Manager, Env, queue, acquire, idle, waiting_confirm, armed, commit, before_commit, adjust_waiting,
  start_timer, transaction_progress, handle_commit, handle_timeout, hwd_transaction_manager_create,
  hwd_transaction_manager_ensure_queued,
}
use hayward.Transaction.Requests.{IsLegit}
use hayward.Transaction.Invariant.{Inv, IsQuiet}
use hayward.Transaction.Events.{
  Reach, start, next, asked, idle_callback, Reach-Inv, handle_commit-returns, release_times,
  release_times-applies, queued_survives,
}

-- Two views take locks while the transaction is committed.
abbrev two_views : Env
two_views = record {
  on_before_commit = queue ∷ [];
  on_commit = acquire ∷ acquire ∷ [];
  on_apply = [];
  on_after_apply = [];
  noatomic = false;
  txn_wait = false;
  timer_made = true;
}

two_views-IsLegit : IsLegit two_views
two_views-IsLegit = record {
  before_takes_none = refl;
  apply_takes_none = refl;
  after_takes_none = refl;
}

abbrev asked_once : Manager
asked_once = hwd_transaction_manager_ensure_queued hwd_transaction_manager_create

abbrev in_wait : Manager
in_wait = record {
  depth = 0;
  queued = false;
  phase = waiting_confirm;
  idle_source = false;
  timer = armed;
  num_configures = 2;
  num_waiting = 2;
  emitted = commit ∷ before_commit ∷ [];
}

asked_once-Reach : Reach asked_once
asked_once-Reach = next start asked

asked_once_scheduled : asked_once.idle_source ≡ true
unfolding hwd_transaction_manager_ensure_queued hwd_transaction_manager_create
asked_once_scheduled = refl

commit_waits : handle_commit two_views asked_once ≡ some in_wait
unfolding handle_commit hwd_transaction_manager_create transaction_progress start_timer
    adjust_waiting
commit_waits = refl

in_wait-Reach : Reach in_wait
in_wait-Reach =
    next asked_once-Reach
      (idle_callback two_views two_views-IsLegit asked_once_scheduled commit_waits)

Reach-Inv_example : Inv in_wait
Reach-Inv_example = Reach-Inv in_wait-Reach

handle_commit-returns_example :
    (n : Manager) × (handle_commit two_views asked_once ≡ some n) × Reach n
handle_commit-returns_example =
    handle_commit-returns asked_once two_views asked_once-Reach two_views-IsLegit
      asked_once_scheduled

release_times-applies_example :
    (n : Manager) × (release_times 2 two_views in_wait ≡ some n) × IsQuiet n
release_times-applies_example =
    release_times-applies 1 two_views in_wait in_wait-Reach two_views-IsLegit refl refl

queued_survives_example :
    (n : Manager) × (handle_timeout two_views (hwd_transaction_manager_ensure_queued in_wait)
      ≡ some n)
    × (n.phase ≡ idle)
    × (n.idle_source ≡ true)
queued_survives_example = queued_survives two_views in_wait in_wait-Reach two_views-IsLegit refl
