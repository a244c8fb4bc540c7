-- ===== src/Examples/Redis.antt =====
-- A line of `client list`, and the refresh of a configuration.
use cpp_client_rabbit_mq.Common.{
  ◌≡◌, ◌==◌, refl, true, false, ◌&&◌, not, Bytes, List, [], ◌∷◌, map, codes, is_empty, some, none,
  if◌then◌else◌,
}
use cpp_client_rabbit_mq.Tools.Step.{State, returned, aborted}
use cpp_client_rabbit_mq.Tools.Split.Laws.{join}
use cpp_client_rabbit_mq.Tools.RedisClient.Client.{cleared, read_client}
use cpp_client_rabbit_mq.Tools.RedisClient.Parsing.{field, assign_all, read_client-join}
use cpp_client_rabbit_mq.Tools.ConfigAgent
use cpp_client_rabbit_mq.Tools.ConfigAgent.{System, ConfigAgent, refresh}
use cpp_client_rabbit_mq.Tools.ConfigAgent.{bind_config, bind_scheduler}
use cpp_client_rabbit_mq.Tools.ConfigAgent.Delivery.{
  Operation, refreshes, binds, schedules, perform, run_all, deliveries, run_all-deliveries,
}
use cpp_client_rabbit_mq.Tools.ConfigAgent.Refresh.{
  load_script, reloads, scheduler_reload, refresh_lem,
}

abbrev fields : List (Bytes × Bytes)
fields =
    (codes "addr", codes "10.0.0.1:80") ∷ (codes "lib", codes "x") ∷ (codes "db", codes "0") ∷ []

read_client-join_example :
    let cl = assign_all ((codes "id", codes "7") ∷ fields) cleared in
    read_client (join b' ' (map field ((codes "id", codes "7") ∷ fields)))
    ≡ (if not (cl.id == 0) && not (is_empty cl.addr) then returned cl else aborted)
read_client-join_example = read_client-join (codes "id", codes "7") fields refl

-- A file that was written at the time 5.
abbrev present : System
present = record {
  exists_of = λ calls. true;
  time_of = λ calls. some 5;
  has_parse_error_of = λ calls. false;
  has_level_of = λ calls. some true;
}

abbrev agent : State ConfigAgent ConfigAgent.Call
agent = record {
  object = record {
    ptr_config = true;
    resources = 1 ∷ 2 ∷ [];
    resource_scheduler = some 3;
    last_refresh = 4;
  };
  calls = [];
}

refresh_lem_example :
    let c = agent.object in
    let asked = ConfigAgent.last_write_time ∷ ConfigAgent.exists ∷ agent.calls in
    let (loaded, tried) = load_script present asked in
    refresh present agent ≡ (
      if 5 == c.last_refresh then (returned tt, record agent { calls = asked }) else elim loaded [
        | none ↦ (aborted, record agent { calls = tried })
        | some false ↦ (returned tt, record agent { calls = tried })
        | some true ↦ (
          returned tt,
          record {
            object = record c { last_refresh = 5; resource_scheduler = none };
            calls = scheduler_reload c.resource_scheduler (reloads c.resources tried);
          },
        )
      ])
refresh_lem_example = refresh_lem present 5 agent refl refl

-- The waiting scheduler is told, and then bound again.
abbrev operations : List Operation
operations = refreshes ∷ binds (some 8) ∷ schedules (some 3) ∷ refreshes ∷ []

abbrev step : Operation → State ConfigAgent ConfigAgent.Call → State ConfigAgent ConfigAgent.Call
step o s = (perform present 3 o s).1

abbrev told_twice : State ConfigAgent ConfigAgent.Call
told_twice =
    step refreshes (step (schedules (some 3)) (step (binds (some 8)) (step refreshes agent)))

runs : run_all present 3 operations agent ≡ some told_twice
unfolding refresh bind_config bind_scheduler
runs = refl

run_all-deliveries_example : deliveries 3 told_twice ≡ 2
run_all-deliveries_example = run_all-deliveries present 3 operations agent told_twice refl refl runs
