-- ===== src/Tools/ConfigAgent/Refresh.antt =====
-- Whom a refresh tells of a new configuration, and when.
use cpp_client_rabbit_mq.Common.{
  ℕ, ◌==◌, ◌≡◌, refl, Bool, true, false, List, [], ◌∷◌, Option, some, none, arith, if◌then◌else◌,
  not,
}
use cpp_client_rabbit_mq.Tools.Step.{State, Ending, returned, aborted}
use cpp_client_rabbit_mq.Tools.ConfigAgent.{
  Call, History, System, ConfigAgent, load_config, has_level, reload_all, refresh,
}

-- Each resource is told once, in the order of their binding.
abbrev pub reloads : List ℕ → History → History
reloads [] calls = calls
reloads (r ∷ rs) calls = reloads rs (Call.reload r ∷ calls)

-- The waiting scheduler comes last.
abbrev pub scheduler_reload : Option ℕ → History → History
scheduler_reload none calls = calls
scheduler_reload (some r) calls = Call.reload r ∷ calls

module _ (system : System) where
  -- The calls of `loadConfig`, and what it returns; `none` is a failed assertion.
  abbrev pub load_script : History → Option Bool × History
  load_script calls =
      let asked = Call.exists ∷ calls in
      let loaded = Call.load_config_from_json ∷ asked in
      if not (system.exists_of asked)
      then (some false, asked)
      else if system.has_parse_error_of loaded
      then (some false, loaded)
      else elim (system.has_level_of loaded) [
        | none ↦ (none, loaded)
        | some true ↦ (some true, Call.set_rotate_logger ∷ Call.set_level_logger ∷ loaded)
        | some false ↦ (some true, loaded)
      ]

  abbrev pub ending_of : Option Bool → Ending Bool
  ending_of none = aborted
  ending_of (some b) = returned b

  pub load_config_lem :
      (s : State ConfigAgent Call)
      → load_config system s
        ≡ (ending_of (load_script s.calls).0, record s { calls = (load_script s.calls).1 })
  unfolding load_config has_level
  load_config_lem s = ground arith

  pub reload_all_lem :
      (rs : List ℕ) (s : State ConfigAgent Call)
      → reload_all system rs s ≡ (returned tt, record s { calls = reloads rs s.calls })
  unfolding reload_all
  reload_all_lem [] s = refl
  reload_all_lem (r ∷ rs) s = reload_all_lem rs (record s { calls = Call.reload r ∷ s.calls })

  -- A refresh for which there is a file with time `time`: if the time is that of the last refresh,
  -- nothing is done. Otherwise the configuration is loaded, and if that succeeds, all bound
  -- resources are told of it once, in order, and after them the waiting scheduler, which does not
  -- wait any more, and the time is kept. If there is no file any more or it cannot be parsed, nothing
  -- changes, and the next refresh tries again. If it is parsed and it, or its member `logger`, is no
  -- object, an assertion fails, and nobody is told.
  pub refresh_lem :
      (time : ℕ) (s : State ConfigAgent Call)
      → system.exists_of (Call.exists ∷ s.calls) ≡ true
      → system.time_of (Call.last_write_time ∷ Call.exists ∷ s.calls) ≡ some time
      → let c = s.object in
        let asked = Call.last_write_time ∷ Call.exists ∷ s.calls in
        let (loaded, tried) = load_script asked in
        refresh system s ≡ (
          if time == c.last_refresh
          then (returned tt, record s { calls = asked })
          else elim loaded [
            | none ↦ (aborted, record s { calls = tried })
            | some false ↦ (returned tt, record s { calls = tried })
            | some true ↦ (
              returned tt,
              record {
                object = record c { last_refresh = time; resource_scheduler = none };
                calls = scheduler_reload c.resource_scheduler (reloads c.resources tried);
              },
            )
          ])
  unfolding refresh
  refresh_lem time s h k =
      let asked : State ConfigAgent Call = record s {
        calls = Call.last_write_time ∷ Call.exists ∷ s.calls;
      } in
      let tried : State ConfigAgent Call = record s { calls = (load_script asked.calls).1 } in
      ground (arith, h, k, load_config_lem asked, reload_all_lem s.object.resources tried)
