-- ===== src/Transaction/Requests.antt =====
-- What a signal does to the transaction manager, whatever its listeners ask for: the handlers of
-- transaction.c in closed form.
use hayward.Common.{
  ℕ, suc, ◌+◌, ◌<◌, ◌≡◌, refl, ◌⊎◌, List, [], ◌∷◌, some, Bool, true, false, not, ◌&&◌, ◌||◌, arith,
  if◌then◌else◌,
}
use hayward.Transaction.{
  idle, before_commit, commit, waiting_confirm, apply, after_apply, Manager, Request, queue,
  acquire, Env, is_idle, is_commit, run_requests, apply_transaction, transaction_progress,
  adjust_waiting, start_timer, handle_commit, hwd_transaction_manager_ensure_queued,
}

abbrev pub asks_queue : List Request → Bool
asks_queue [] = false
asks_queue (queue ∷ rs) = true
asks_queue (acquire ∷ rs) = asks_queue rs

abbrev pub locks : List Request → ℕ
locks [] = 0
locks (queue ∷ rs) = locks rs
locks (acquire ∷ rs) = suc (locks rs)

-- Listeners take locks during the commit signal only.
pub record IsLegit (env : Env) : Type 0 where
  pub before_takes_none : locks env.on_before_commit ≡ 0
  pub apply_takes_none : locks env.on_apply ≡ 0
  pub after_takes_none : locks env.on_after_apply ≡ 0

or_true : (b : Bool) → (b || true) ≡ true
or_true true = refl
or_true false = refl

-- What the listeners of a signal do, all of them together.
pub run_requests_lem :
    (rs : List Request) (m : Manager)
    → is_idle m.phase ≡ false
    → (is_commit m.phase ≡ true) ⊎ (locks rs ≡ 0)
    → run_requests rs m
      ≡ some
          (record m { queued = m.queued || asks_queue rs; num_waiting = m.num_waiting + locks rs })
unfolding run_requests
run_requests_lem [] m i c = ground arith
run_requests_lem (queue ∷ rs) m i c =
    ground (arith, run_requests_lem rs (hwd_transaction_manager_ensure_queued m), or_true m.queued)
run_requests_lem (acquire ∷ rs) m i c =
    ground (arith, run_requests_lem rs (record m { num_waiting = m.num_waiting + 1 }))

-- The manager after the apply and after_apply signals.
unfoldable pub applied : Env → Manager → Manager
applied env m =
    let q = (m.queued || asks_queue env.on_apply) || asks_queue env.on_after_apply in
    record m {
      queued = q;
      phase = idle;
      idle_source = if q && not m.idle_source then true else m.idle_source;
      num_configures = 0;
      emitted = after_apply ∷ apply ∷ m.emitted;
    }

pub apply_transaction_lem :
    (env : Env) (m : Manager) → IsLegit env → apply_transaction env m ≡ some (applied env m)
unfolding apply_transaction applied
apply_transaction_lem env m legit = ground (
  arith,
  run_requests_lem env.on_apply
      (record m { num_configures = 0; phase = apply; emitted = apply ∷ m.emitted }),
  run_requests_lem env.on_after_apply (record m {
    num_configures = 0;
    phase = after_apply;
    emitted = after_apply ∷ apply ∷ m.emitted;
    queued = m.queued || asks_queue env.on_apply;
  }),
)

pub progress_done :
    (env : Env) (m : Manager)
    → IsLegit env
    → m.phase ≡ waiting_confirm
    → m.num_waiting ≡ 0
    → transaction_progress env m ≡ some (applied env m)
unfolding transaction_progress
progress_done env m legit p z = ground (arith, apply_transaction_lem env m)

pub progress_waits :
    (env : Env) (m : Manager)
    → m.phase ≡ waiting_confirm
    → 0 < m.num_waiting
    → transaction_progress env m ≡ some m
unfolding transaction_progress
progress_waits env m p z = ground arith

-- The manager when the commit signal has been emitted.
unfoldable pub committed : Env → Manager → Manager
committed env m = record m {
  idle_source = false;
  queued = asks_queue env.on_commit;
  phase = waiting_confirm;
  num_configures = m.num_waiting + locks env.on_commit;
  num_waiting = m.num_waiting + locks env.on_commit;
  emitted = commit ∷ before_commit ∷ m.emitted;
}

pub handle_commit_lem :
    (env : Env) (m : Manager)
    → IsLegit env
    → m.depth ≡ 0
    → handle_commit env m
      ≡ transaction_progress env (start_timer env (adjust_waiting env (committed env m)))
unfolding handle_commit committed
handle_commit_lem env m legit d = ground (
  arith,
  run_requests_lem env.on_before_commit (record m {
    idle_source = false;
    phase = before_commit;
    emitted = before_commit ∷ m.emitted;
  }),
  run_requests_lem env.on_commit (record m {
    idle_source = false;
    queued = false;
    phase = commit;
    emitted = commit ∷ before_commit ∷ m.emitted;
  }),
)
