-- ===== src/Tools/ConfigAgent.antt =====
-- The agent that loads the configuration again when its file changes.
-- (include/Tools/ConfigAgent.h, Modules/Tools/ConfigAgent.cpp; the log is left out)
pub mod Refresh
pub mod Delivery
use cpp_client_rabbit_mq.Common.{
  ℕ, zero, suc, ◌==◌, Bool, true, false, List, [], ◌∷◌, ◌++◌, codes, Option, some, none,
  if◌then◌else◌,
}
use cpp_client_rabbit_mq.Tools.Step.{
  Step, returned, aborted, pure, raise, invoke, run, this, put, assert, ◌>>=◌, ◌>>◌,
}

-- The calls of the file system, of the parser and of the logger, and of the bound resources, which
-- are numbered.
pub data Call : Type 0 where
  exists last_write_time load_config_from_json set_level_logger set_rotate_logger : Call
  reload : (resource : ℕ) → Call

abbrev pub History : Type 0
History = List Call

-- What is answered to the last of some calls: whether there is a file, when it was written (with no
-- answer where the function throws), and of the document that was loaded whether there was an error
-- and whether it sets the level of the log (with no answer where it, or its member `logger`, is no
-- object).
pub record System : Type 0 where
  pub exists_of : History → Bool
  pub time_of : History → Option ℕ
  pub has_parse_error_of : History → Bool
  pub has_level_of : History → Option Bool

-- The members of `ConfigAgent`: of the document, whether there is a pointer to it.
pub record ConfigAgent : Type 0 where
  pub ptr_config : Bool
  pub resources : List ℕ
  pub resource_scheduler : Option ℕ
  pub last_refresh : ℕ

abbrev is_null : Option ℕ → Bool
is_null none = true
is_null (some r) = false

module _ (system : System) where
  -- HAS_CONFIG( *ptr_config_, "logger", "level" ), of which an assertion fails where there is no object
  -- to look into.
  unfoldable pub has_level : Step ConfigAgent Call Bool
  has_level s = elim (system.has_level_of s.calls) [
    | none ↦ (aborted, s)
    | some level ↦ (returned level, s)
  ]

  unfoldable pub load_config : Step ConfigAgent Call Bool
  unfolding has_level
  load_config = do
    found ← invoke Call.exists (system.exists_of)
    if found
        then (do
          failed ← invoke Call.load_config_from_json (system.has_parse_error_of)
          if failed then pure false else (do
            level ← has_level
            if level then (do run Call.set_level_logger; run Call.set_rotate_logger) else pure tt
            pure true))
        else pure false

  -- ConfigAgent(ptr, path_file): what is loaded is dropped, and no time is kept.
  unfoldable pub construct : (ptr : Bool) → Step ConfigAgent Call (Unit {0})
  unfolding load_config has_level
  construct ptr = do
    put (record { ptr_config = ptr; resources = []; resource_scheduler = none; last_refresh = 0 })
    assert ptr
    load_config
    pure tt

  -- std::filesystem::last_write_time
  abbrev last_write : Step ConfigAgent Call ℕ
  last_write = do
    time ← invoke Call.last_write_time (system.time_of)
    elim time [ none ↦ raise (codes "std::filesystem::filesystem_error") | some t ↦ pure t ]

  -- for( const auto it : resources ) it->reload(ptr_config_)
  unfoldable pub reload_all : List ℕ → Step ConfigAgent Call (Unit {0})
  reload_all [] = pure tt
  reload_all (r ∷ rs) = do run (Call.reload r); reload_all rs

  -- if( resource_scheduler_ != nullptr )
  abbrev reload_scheduler : Step ConfigAgent Call (Unit {0})
  reload_scheduler = do
    c ← this
    elim c.resource_scheduler [
      | none ↦ pure tt
      | some r ↦ (do run (Call.reload r); put (record c { resource_scheduler = none }))
    ]

  unfoldable pub refresh : Step ConfigAgent Call (Unit {0})
  unfolding load_config reload_all has_level
  refresh = do
    found ← invoke Call.exists (system.exists_of)
    if found
        then (do
          last_write_file ← last_write
          c ← this
          if last_write_file == c.last_refresh then pure tt else (do
            loaded ← load_config
            if loaded
                then (do
                  reload_all c.resources
                  put (record c { last_refresh = last_write_file })
                  reload_scheduler)
                else pure tt))
        else pure tt

  -- The first rounds of `run`, without the pauses.
  unfoldable pub run_rounds : ℕ → Step ConfigAgent Call (Unit {0})
  unfolding refresh
  run_rounds zero = pure tt
  run_rounds (suc n) = do refresh; run_rounds n

  -- The argument is a pointer that may be null.
  unfoldable pub bind_config : Option ℕ → Step ConfigAgent Call (Unit {0})
  bind_config none = assert false
  bind_config (some r) = do
    c ← this
    put (record c { resources = c.resources ++ r ∷ [] })
    if c.ptr_config then run (Call.reload r) else pure tt

  unfoldable pub bind_scheduler : Option ℕ → Step ConfigAgent Call (Unit {0})
  bind_scheduler none = assert false
  bind_scheduler (some r) = do
    c ← this
    assert (is_null c.resource_scheduler)
    put (record c { resource_scheduler = some r })
    time ← last_write
    if time == c.last_refresh then reload_scheduler else pure tt
