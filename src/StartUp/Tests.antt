-- ===== src/StartUp/Tests.antt =====
-- Runs of `main` on concrete data, and the theorems at inputs that meet their hypotheses.
use smartmeter_gateway.Prelude.{◌≡◌, refl, true, false, none, some, arith, All, codes, bytes_eq}
use smartmeter_gateway.Prelude.Int.{pos}
use smartmeter_gateway.Real.Whole.{whole}
use smartmeter_gateway.SignalHandler.{init}
use smartmeter_gateway.Config.Tests.{config}
use smartmeter_gateway.Slave.Listener.{listening, construct, start_listener}
use smartmeter_gateway.Privileges.{find_user, target_gid, find_group, or_else, by_id}
use smartmeter_gateway.Privileges.Strtol.{c_str, numeric_id, number, signed}
use smartmeter_gateway.Privileges.Dropped.{IsDropped}
use smartmeter_gateway.Privileges.Tests.{Process, os, root, documented, permits, meter, dialout}
use smartmeter_gateway.StartUp.{World, main}
use smartmeter_gateway.StartUp.Ordered.{IsOrderly, main-IsOrderly}
use smartmeter_gateway.StartUp.Privileged.{IsPrivileged, main-IsPrivileged}
use smartmeter_gateway.StartUp.Succeeds.{all_started, main-all_started}

abbrev world : World
world = record {
  slave_answers = record { allocated = true; context_created = true; listen_result = listening 5 };
  mqtt_answers = record { client_created = true; loop_succeeds = true };
  signalled = some 15;
}

-- mosquitto gives no client.
abbrev no_client : World
no_client = record world { mqtt_answers = record { client_created = false; loop_succeeds = true } }

main-all_started_example :
    (p : Process) × IsDropped os documented (codes "1000") (codes "dialout") p
    × (main os whole (some config) world (codes "1000") (codes "dialout") root
        ≡ record { success = true; process = p; acts = all_started os documented permits root p })
unfolding construct start_listener init target_gid find_user find_group or_else by_id c_str
    numeric_id number signed bytes_eq
main-all_started_example =
    main-all_started os documented permits whole config
      (record {
        tcp = some (record { address = codes "0.0.0.0"; port = pos 502 });
        rtu = none;
        slave_id = pos 1;
        request_timeout = pos 5;
        idle_timeout = pos 60;
        use_float_model = false;
      })
      world (codes "1000") (codes "dialout") root meter meter 20 dialout refl refl refl refl refl
      refl refl refl (ground arith) refl refl

main-IsPrivileged_example :
    All
      (IsPrivileged os documented (codes "1000") (codes "dialout") root)
      (main os whole (some config) no_client (codes "1000") (codes "dialout") root).acts
main-IsPrivileged_example =
    (main-IsPrivileged os documented (codes "1000") (codes "dialout") root whole (some config)
      no_client refl).1

main-IsOrderly_example :
    IsOrderly (main os whole (some config) no_client (codes "1000") (codes "dialout") root).acts
main-IsOrderly_example =
    main-IsOrderly os whole (some config) no_client (codes "1000") (codes "dialout") root
