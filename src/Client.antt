-- ===== src/Client.antt =====
-- plugins/client.c: the thread that finds a server, registers with it and asks it for commands. Whether
-- a registration succeeds and what the server answers are inputs of a round; `compare` is ht_compare for
-- the entry `command` of what the server answered. The thread's own discovery is made through `call`,
-- which runs nothing any more and only reports that (lib/plugins.c), so that it finds nothing.
-- `location` is shared: `client::register` and `ssdp::discovery` of plugins/ssdp.c, which a script can
-- call on another thread, write it too.
pub mod Orders
pub mod Saved
pub mod Lost
use wallyd.Common.{
  Bool, false, not, ◌||◌, Option, none, some, List, [], ◌∷◌, ◌++◌, ltb, if◌then◌else◌, length, take,
}
use wallyd.Common.Str.{Bytes, codes, str_eq}

pub data ThrState : Type 0 where
  discovery : ThrState
  register : ThrState
  command : ThrState
  quit : ThrState

pub record Client : Type 0 where
  pub client_state : ThrState
  pub location : Option Bytes
  pub ssdp : Bool
  pub cloud : Bool
  pub ssdp_running : Bool
  pub run_callback : Bool

-- What a round asks of the rest of the program.
pub data Action : Type 0 where
  calls : Bytes → Action
  runs_callback : Bytes → Action
  saves : Bytes → Action
  starts_longpoll : Action
  persists : Action
  sends_success : Action
  sends_failed : Action
  reboots : Action
  updates : Action

-- Whether the client was registered; whether getCommand succeeds, the command, and whether the
-- configuration could be saved.
pub record Answers : Type 0 where
  pub registered : Bool
  pub got : Bool
  pub name : Option Bytes
  pub persisted : Bool

-- The line that saveLocation writes behind the file.
abbrev pub location_line : Bytes → Bytes
location_line location = codes "W_SERVER=" ++ location ++ codes "/register\n"

abbrev pub if_true : Bool → List Action → List Action
if_true b acts = if b then acts else []

abbrev pub discovery_call : Client → List Action
discovery_call s =
    if s.ssdp
    then calls (codes "ssdp::discovery") ∷ []
    else if_true s.cloud (calls (codes "cloud::connect") ∷ [])

abbrev pub located : Option Bytes → Bool → List Action
located none callback = []
located (some l) callback = if_true callback (runs_callback l ∷ []) ++ saves (location_line l) ∷ []

unfoldable pub discovery_round : Client → List Action × Client
discovery_round s =
    (discovery_call s ++ located s.location s.run_callback, record s { client_state = register })

unfoldable pub register_round : Answers → Client → List Action × Client
register_round a s = elim s.location [
  | none ↦ ([], s)
  | some l ↦
      if a.registered then (starts_longpoll ∷ [], record s { client_state = command }) else ([], s)
]

module _ (compare : Bytes → Bytes → Bool) where
  abbrev pub is_valid : Bytes → Bool
  is_valid c =
      compare c (codes "config")
      || compare c (codes "reboot")
      || compare c (codes "firmwareUpdate")
      || compare c (codes "getlog")

  -- The tests are one behind the other: none is the `else` of another.
  unfoldable pub obey : Bool → Bytes → List Action
  obey persisted c =
      if_true (compare c (codes "config")) (persists ∷ if_true persisted (sends_success ∷ []))
      ++ (if_true (compare c (codes "reboot")) (sends_success ∷ reboots ∷ [])
          ++ (if_true (compare c (codes "firmwareUpdate")) (sends_success ∷ updates ∷ [])
              ++ if_true (not (is_valid c)) (sends_failed ∷ [])))

  unfoldable pub command_round : Answers → List Action
  command_round a = if a.got then (elim a.name [ none ↦ [] | some c ↦ obey a.persisted c ]) else []

  unfoldable pub client_round : ThrState → Answers → Client → List Action × Client
  unfolding discovery_round register_round command_round
  client_round discovery a s = discovery_round s
  client_round register a s = register_round a s
  client_round command a s = (command_round a, s)
  client_round quit a s = ([], s)

abbrev pub starts_http : Bytes → Bool
starts_http loc = str_eq (take 4 loc) (codes "http")

-- A location that is given counts if it has two bytes; then it must start like a URL.
unfoldable pub set_register : Option Bytes → Client → Client
set_register none s = elim s.location [
  | none ↦ s
  | some l ↦ record s { ssdp_running = false; client_state = register }
]
set_register (some loc) s =
    if ltb 1 (length loc)
    then (if starts_http loc
        then record s { location = some loc; ssdp_running = false; client_state = register }
        else s)
    else record s { ssdp_running = false; client_state = register }

-- What `ssdpDiscovery` writes: whether it is running, and the location of the server that it found, if
-- it has found one.
unfoldable pub ssdp_discovery : Bool → Option Bytes → Client → Client
ssdp_discovery running none s = record s { ssdp_running = running }
ssdp_discovery running (some l) s = record s { ssdp_running = running; location = some l }

-- A round of the thread, or, by another one, a call of `client::register` or a part of a call of
-- `ssdp::discovery`.
pub data Event : Type 0 where
  goes : Answers → Event
  set_register_called : Option Bytes → Event
  discovers : (running : Bool) → Option Bytes → Event

module _ (compare : Bytes → Bytes → Bool) where
  unfoldable pub wally_client_thread : List Event → Client → List Action × Client
  unfolding client_round set_register ssdp_discovery
  wally_client_thread [] s = ([], s)
  wally_client_thread (goes a ∷ es) s =
      let (acts, t) = client_round compare s.client_state a s in
      let (more, u) = wally_client_thread es t in (acts ++ more, u)
  wally_client_thread (set_register_called loc ∷ es) s = wally_client_thread es (set_register loc s)
  wally_client_thread (discovers running found ∷ es) s =
      wally_client_thread es (ssdp_discovery running found s)
