-- ===== src/Examples/Election.antt =====
-- Two processes that ask for the lock of the master. (Modules/Tools/RedisClientStorage.cpp)
use cpp_client_rabbit_mq.Common.{
  length, ℕ, ◌≡◌, ◌≢◌, refl, Bool, true, false, Bytes, List, [], ◌∷◌, codes, ltb, Option, none,
  some, if◌then◌else◌, arith, bytes_eq,
}
use cpp_client_rabbit_mq.Tools.Step.{State, returned}
use cpp_client_rabbit_mq.Tools.RedisClient.{
  Call, Redis, RedisClientStorage, system_lock, sysmaster_lock,
}
use cpp_client_rabbit_mq.Tools.RedisClient.Election.{
  call_at, Server, System, fresh_system, act, ending, done, acts,
}
use cpp_client_rabbit_mq.Tools.RedisClient.Election.Among.{Leads, Leads-sysmaster_lock}
use cpp_client_rabbit_mq.Tools.RedisClient.Election.Among
use cpp_client_rabbit_mq.Tools.RedisClient.Election.Safety.{ReachesInTime, one_master}
use cpp_client_rabbit_mq.Tools.RedisClient.Election.Safety
use cpp_client_rabbit_mq.Tools.RedisClient.Election.Stopped.{
  Reaches, ReachesWithout, IsOutside, never_master,
}
use cpp_client_rabbit_mq.Tools.RedisClient.Election.Stopped
use cpp_client_rabbit_mq.Tools.RedisClient.Election.Lapses.{two_masters}

-- The lock with its holder, and whether it has an end.
abbrev Lock : Type 0
Lock = Option Bytes × Bool

abbrev apply : Call → Lock → Lock
apply (Call.setnx key id) (none, e) = (some id, false)
apply (Call.expire key n) (some m, e) = (some m, true)
apply _ l = l

setnx_free :
    (resource id : Bytes) (s : Lock)
    → s.0 ≡ none
    → ((apply (Call.setnx (system_lock resource) id) s).0 ≡ some id)
      × ((apply (Call.setnx (system_lock resource) id) s).1 ≡ false)
setnx_free resource id (none, e) h = (refl, refl)
setnx_free resource id (some m, e) h = cc

setnx_held :
    (resource id master : Bytes) (s : Lock)
    → s.0 ≡ some master
    → apply (Call.setnx (system_lock resource) id) s ≡ s
setnx_held resource id master (none, e) h = cc
setnx_held resource id master (some m, e) h = refl

expire_lem :
    (resource master : Bytes) (s : Lock)
    → s.0 ≡ some master
    → ((apply (Call.expire (system_lock resource) 10) s).0 ≡ some master)
      × ((apply (Call.expire (system_lock resource) 10) s).1 ≡ true)
expire_lem resource master (none, e) h = cc
expire_lem resource master (some m, e) h = (h, refl)

abbrev server : Server
server = record {
  Store = Lock;
  holder = λ l. l.0;
  has_end = λ l. l.1;
  apply = apply;
  get_lem = λ key s. refl;
  setnx_free = setnx_free;
  setnx_held = setnx_held;
  expire_lem = expire_lem;
  set_lem = λ resource id s. (refl, refl);
}

-- Processes 0 and 1 are on one host, and the others on another.
abbrev name : ℕ → Bytes
name i = if ltb i 2 then codes "a" else codes "b"

abbrev system : System server (codes "sys") name
system = fresh_system server (codes "sys") name (none, false)

abbrev turn : ℕ → System server (codes "sys") name → System server (codes "sys") name
turn = act server (codes "sys") name

-- Process 0 becomes the master, and process 1 then asks.
abbrev elected : System server (codes "sys") name
elected = turn 1 (turn 0 (turn 0 (turn 0 (turn 0 (turn 0 system)))))

elected_in_time : ReachesInTime server (codes "sys") name system elected
elected_in_time = Safety.act_next 1 (
    Safety.act_next 0
      (Safety.act_next 0 (Safety.act_next 0 (Safety.act_next 0 (Safety.act_next 0 Safety.here)))))

both_masters : (elected.place 0 ≡ done true) × (elected.place 1 ≡ done true)
unfolding act bytes_eq
both_masters = (refl, refl)

one_master_example : name 0 ≡ name 1
one_master_example =
    one_master server (codes "sys") name (none, false) elected 0 1 elected_in_time both_masters.0
      both_masters.1

-- Process 0 stops in front of `expire`, and process 2 asks.
abbrev stopped : System server (codes "sys") name
stopped = turn 0 (turn 0 system)

stopped_reached : Reaches server (codes "sys") name system stopped
stopped_reached = Stopped.next (Stopped.next Stopped.here (acts 0 system)) (acts 0 (turn 0 system))

stopped_ending : stopped.place 0 ≡ ending
unfolding act
stopped_ending = refl

asked : ReachesWithout server (codes "sys") name 0 stopped (turn 2 stopped)
asked = Stopped.act_next 2 (omega arith) Stopped.here

names_differ : codes "a" ≢ codes "b"
names_differ = ground arith

not_yet : stopped.place 2 ≢ done true
unfolding act
not_yet e = cc e

never_master_example :
    ((turn 2 stopped).store.0 ≡ some (name 0))
    × ((turn 2 stopped).store.1 ≡ false)
    × ((turn 2 stopped).place 2 ≢ done true)
never_master_example =
    never_master server (codes "sys") name (none, false) stopped (turn 2 stopped) 0 2
      stopped_reached stopped_ending asked names_differ not_yet

two_masters_example :
    (s : System server (codes "sys") name) × Reaches server (codes "sys") name system s
    × (s.place 0 ≡ done true)
    × (s.place 2 ≡ done true)
two_masters_example = two_masters server (codes "sys") name (none, false) 0 2 refl (omega arith)

-- Process 2 asks, process 0 takes the lock in between, and process 2 is told so.
abbrev first_asked : System server (codes "sys") name
first_asked = turn 2 system

abbrev second_taken : System server (codes "sys") name
second_taken = turn 0 (turn 0 first_asked)

abbrev third_lost : System server (codes "sys") name
third_lost = turn 2 (turn 2 second_taken)

abbrev key : Bytes
key = system_lock (codes "sys")

-- What it is answered: nobody holds the lock, and then process 0 does.
abbrev told : Redis
told = record {
  text_of = λ h. if ltb (length h) 2 then none else some (codes "a");
  number_of = λ h. none;
  flag_of = λ h. ltb (length h) 2;
  host_name = codes "h";
}

abbrev storage : State RedisClientStorage Call
storage = record { object = record { system_name = codes "sys"; redis = true }; calls = [] }

abbrev asked_calls : List Call
asked_calls = Call.get key ∷ Call.setnx key (codes "b") ∷ Call.get key ∷ []

lost : Leads server (codes "sys") name told 2 system [] 3 third_lost asked_calls
unfolding act call_at
lost =
    Among.calls (Call.get key)
      (Among.calls (Call.setnx key (codes "b"))
        (Among.other_calls 0 (omega arith) (
          Among.other_calls 0 (omega arith) (Among.calls (Call.get key) Among.here refl refl refl)))
        refl refl refl)
      refl refl refl

lost_ends : third_lost.place 2 ≡ done false
unfolding act bytes_eq
lost_ends = refl

Leads-sysmaster_lock_example :
    sysmaster_lock told 3 (codes "sys") (codes "b") storage
    ≡ (returned (some false), record storage { calls = asked_calls })
Leads-sysmaster_lock_example =
    Leads-sysmaster_lock server (codes "sys") name told 2 3 false system third_lost storage
      asked_calls refl lost lost_ends
