-- ===== src/Breaker/Tests.antt =====
-- The circuit breaker's theorems on concrete commands.
use novacex.Prelude.{◌≡◌, refl, inl, inr, true, false, none, some, [], arith}
use novacex.Prelude.Result.{Result, ok}
use novacex.Decimal.{trim, is_space}
use novacex.Decimal.Ops.{codes}
use novacex.Breaker.{
  system_active, halt_all, withdrawals, Breaker, Database, Node, BreakerError, Command, all_enabled,
  flags, get_state, cached, query_state, read_row, halted, resumed, write_state, halt, resume,
  is_subsystem_operational, remember,
}
use novacex.Breaker.Laws.{halt-is_subsystem_operational, resume-is_subsystem_operational}

abbrev database : Database
database = record {
  is_reachable = true;
  row = some (all_enabled true system_active none);
  audit = [];
}

abbrev fresh_node : Node
fresh_node = record { cached_state = none; cached_at = 0 }

abbrev incident : Command
incident = record {
  admin_user = 4;
  mode = halt_all;
  resume_all = true;
  reason = codes "incident";
  spot = none;
  futures = none;
  withdrawals_flag = none;
  deposits_flag = none;
}

run_command : Command → Result BreakerError Breaker × Database × Node
unfolding halt resume halted resumed write_state get_state cached query_state read_row trim is_space
run_command c = halt true 10000 c database fresh_node

abbrev stopped : Breaker
stopped = flags halt_all false false false false (some (codes "incident")) (some 4)

was_stopped : (halt true 10000 incident database fresh_node).0 ≡ ok stopped
unfolding run_command
was_stopped = refl

-- Another server, three seconds later, that cannot reach the database.
halt-is_subsystem_operational_example :
    is_subsystem_operational true 13000
      (record ((halt true 10000 incident database fresh_node).1) { is_reachable = false })
      (remember 9000 (all_enabled true system_active none))
      withdrawals
    ≡ false
halt-is_subsystem_operational_example =
    halt-is_subsystem_operational true 10000 incident database fresh_node stopped 13000 false
      (remember 9000 (all_enabled true system_active none)) withdrawals refl was_stopped
      (inr (omega arith))

abbrev running : Breaker
running = all_enabled true system_active none

was_resumed : (resume true 10000 incident database fresh_node).0 ≡ ok running
unfolding run_command
was_resumed = refl

resume-is_subsystem_operational_example :
    is_subsystem_operational true 10500
      (resume true 10000 incident database fresh_node).1
      (remember 10000 running)
      withdrawals
    ≡ true
resume-is_subsystem_operational_example =
    resume-is_subsystem_operational true 10000 incident database fresh_node running 10500
      (remember 10000 running) withdrawals refl was_resumed (inl refl)
