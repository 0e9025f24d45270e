-- ===== src/Tests/Tart.antt =====
-- A Tart host whose first ssh is lost, with a VM in slot 1 and none in slot 2.
use relops_bootstrap.Prelude.{
  ◌+◌, ◌*◌, ◌≡◌, true, false, none, some, List, [], ◌∷◌, ◌++◌, Text, codes, partition, arith,
}
use relops_bootstrap.Health.Parsers.{etime_s}
use relops_bootstrap.Health.Collect.{
  Site, Event, Probe, host_probe, guest_probe, SshEnd, ended, timed_out,
}
use relops_bootstrap.Health.Slots.{collect_host}
use relops_bootstrap.Health.Uptimes.{minutes_text, hours_text, days_text, etime_s-ps}
use relops_bootstrap.Health.Reports.{IsReport, collect_host-IsReport}

abbrev lab_probe_text : Text
lab_probe_text =
    codes "slot1_vm=tester-1" ++ (10 ∷ codes "slot1_ip=192.168.64.2") ++ (10 ∷ codes "probe_key=1")

abbrev lab_answer : List Event → Text → Probe → SshEnd
lab_answer [] host p = timed_out
lab_answer (e ∷ l) host host_probe = ended lab_probe_text [] false 0
lab_answer (e ∷ l) host (guest_probe ip) = ended (codes "guest_up_s=86400") [] false 0

abbrev lab_site : Site
lab_site = record {
  run_probe = lab_answer;
  get_runs = λ l task. none;
  utc_now = λ l. 1700000000;
  openssl_date = λ s. none;
  workers = λ id. none;
}

abbrev lab_tart : Text
lab_tart = codes "m4-90.test.mozilla.com"

collect_host-IsReport_example :
    IsReport true
      (partition b'.' lab_tart).0
      (collect_host lab_tart true lab_site []).1
      (collect_host lab_tart true lab_site []).0
collect_host-IsReport_example = collect_host-IsReport lab_site lab_tart true []

etime_s-ps_example :
    (etime_s (minutes_text 4 59) ≡ some (4 * 60 + 59))
    × (etime_s (hours_text 3 4 59) ≡ some (3 * 3600 + 4 * 60 + 59))
    × (etime_s (days_text 12 3 4 59) ≡ some (12 * 86400 + 3 * 3600 + 4 * 60 + 59))
etime_s-ps_example = etime_s-ps 12 3 4 59 (omega arith) (omega arith) (omega arith)
