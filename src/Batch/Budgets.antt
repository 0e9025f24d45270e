-- ===== src/Batch/Budgets.antt =====
-- batch.py: the budget that a watcher gets, and the timeout that its child runs under.
use relops_bootstrap.Prelude.{arith, ◌<◌, ◌≡◌}
use relops_bootstrap.Settings.{Settings}
use relops_bootstrap.Batch.Commands.{
  quarantine_on_register, Options, filled, watch_seconds, default_timeout,
}

-- With no timeout given, the child of a `quarantine-on-register` batch is given more time than its
-- own watch budget, whatever the settings and whether or not a budget is given.
pub filled-watch_outlasted :
    (s : Settings) (o : Options)
    → o.per_host_timeout ≡ 0
    → (let p = filled s quarantine_on_register o in p.watch_max_wait_seconds < p.per_host_timeout)
unfolding filled watch_seconds default_timeout
filled-watch_outlasted s o e = ground (arith, e)
