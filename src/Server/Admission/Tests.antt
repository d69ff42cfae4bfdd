-- ===== src/Server/Admission/Tests.antt =====
-- The theorems on a history in which one address reaches its cap.
use next_socks.Prelude.{some, [], ◌∷◌}
use next_socks.Net.{IpAddr, ip_v4}
use next_socks.Server.Admission.{Admission, new}
use next_socks.Server.Admission.History.{arrive, leave, run, Sound, run-Sound}

abbrev home : IpAddr
home = ip_v4 (127 ∷ 0 ∷ 0 ∷ 1 ∷ [])

abbrev capped : Admission
capped = record {
  max_total = some 3;
  max_per_ip = some 1;
  state = record { total = 0; per_ip = [] };
}

run-Sound_example :
    Sound
      (some 3)
      (some 1)
      (run (arrive home ∷ arrive home ∷ leave home ∷ []) (new (some 3) (some 1), []))
run-Sound_example = run-Sound (some 3) (some 1) (arrive home ∷ arrive home ∷ leave home ∷ [])
