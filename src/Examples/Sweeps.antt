-- ===== src/Examples/Sweeps.antt =====
-- A sweep over a database in which the lease of the one job has expired.
use content_automation.Base.{◌≡◌, refl}
use content_automation.Errors.{ok, assert_job_transition}
use content_automation.Base.Rows.{find_first, update_many, count_where}
use content_automation.Correlation.{parse_correlation_id}
use content_automation.Jobs.Recovery.{recover_expired_lease, write_recovery}
use content_automation.Jobs.Sweep.{
  SweepOptions, Tally, unsupported, reconcile_background_jobs, run_passes, settle_all, settle,
  candidates, settle_inspected, take_where,
}
use content_automation.Examples.Data.{started, correlation}

abbrev sweep : SweepOptions
sweep = record {
  batch_size = 50;
  correlation_id = correlation;
  now = 10_000_000;
  inspect_result = λ db job. unsupported;
  audit_id = λ job. "audit-9";
  outbox_id = λ job. "outbox-9";
}

abbrev tally : Tally
tally = record { flagged = 0; inspected = 2; repaired = 1 }

sweep_run : (reconcile_background_jobs sweep started).0 ≡ ok tally
unfolding reconcile_background_jobs run_passes settle_all settle candidates settle_inspected
    take_where find_first update_many parse_correlation_id recover_expired_lease write_recovery
    assert_job_transition count_where
sweep_run = refl
