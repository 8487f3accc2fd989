-- ===== src/Client/Orders.antt =====
-- plugins/client.c: a client obeys the server only after it has registered, and answers each command.
use wallyd.Common.{
  ℕ, suc, ◌≡◌, refl, ap, ◌≢◌, inl, inr, Bool, true, false, not, ◌&&◌, ◌||◌, Option, none, some,
  List, [], ◌∷◌, ◌++◌, arith, if◌then◌else◌, Bool-cases,
}
use wallyd.Common.Str.{Bytes, codes, str_eq, str_eq_iff}
use mathlib.Core.Path.{fun_ext}
use wallyd.Client.{
  ThrState, discovery, register, command, quit, Client, Action, calls, runs_callback, saves,
  starts_longpoll, persists, sends_success, sends_failed, reboots, updates, Answers,
  discovery_round, register_round, obey, command_round, client_round, set_register, Event, goes,
  set_register_called, ssdp_discovery, discovers, wally_client_thread,
}

-- What is done at the word of the server.
abbrev pub is_order : Action → Bool
is_order (calls name) = false
is_order (runs_callback l) = false
is_order (saves l) = false
is_order starts_longpoll = false
is_order persists = true
is_order sends_success = true
is_order sends_failed = true
is_order reboots = true
is_order updates = true

abbrev pub is_poll : Action → Bool
is_poll (calls name) = false
is_poll (runs_callback l) = false
is_poll (saves l) = false
is_poll starts_longpoll = true
is_poll persists = false
is_poll sends_success = false
is_poll sends_failed = false
is_poll reboots = false
is_poll updates = false

-- Nothing is done at the word of the server before the client has started to ask it, which it has if
-- `asked` says so.
abbrev pub in_order : Bool → List Action → Bool
in_order asked [] = true
in_order asked (x ∷ xs) = (asked || not (is_order x)) && in_order (asked || is_poll x) xs

asked_after : Bool → List Action → Bool
asked_after asked [] = asked
asked_after asked (x ∷ xs) = asked_after (asked || is_poll x) xs

in_order-append :
    (asked : Bool) (xs ys : List Action)
    → in_order asked (xs ++ ys) ≡ (in_order asked xs && in_order (asked_after asked xs) ys)
unfolding asked_after
in_order-append asked [] ys = refl
in_order-append asked (x ∷ xs) ys = ground (arith, in_order-append (asked || is_poll x) xs ys)

in_order_asked : (xs : List Action) → in_order true xs ≡ true
in_order_asked [] = refl
in_order_asked (x ∷ xs) = in_order_asked xs

asked_stays : (xs : List Action) → asked_after true xs ≡ true
unfolding asked_after
asked_stays [] = refl
asked_stays (x ∷ xs) = asked_stays xs

abbrev is_command : ThrState → Bool
is_command discovery = false
is_command register = false
is_command command = true
is_command quit = false

-- A client that asks for commands has started to.
abbrev Knows : Bool → Client → Type 0
Knows asked s = is_command s.client_state ≡ true → asked ≡ true

abbrev Ordered : Bool → List Action × Client → Type 0
Ordered asked x = (in_order asked x.0 ≡ true) × Knows (asked_after asked x.0) x.1

discovery-Ordered : (asked : Bool) (s : Client) → Ordered asked (discovery_round s)
unfolding discovery_round asked_after
discovery-Ordered asked s = ground arith

register-Ordered :
    (asked : Bool) (a : Answers) (s : Client)
    → s.client_state ≡ register
    → Ordered asked (register_round a s)
unfolding register_round asked_after
register-Ordered asked a s h = ground arith

command-Ordered : (s : Client) (acts : List Action) → Ordered true (acts, s)
command-Ordered s acts = (in_order_asked acts, λ _. asked_stays acts)

round-Ordered :
    (compare : Bytes → Bytes → Bool) (k : ThrState) (asked : Bool) (a : Answers) (s : Client)
    → s.client_state ≡ k
    → Knows asked s
    → Ordered asked (client_round compare k a s)
unfolding client_round asked_after
round-Ordered compare discovery asked a s e knows = discovery-Ordered asked s
round-Ordered compare register asked a s e knows = register-Ordered asked a s e
round-Ordered compare command asked a s e knows =
    let yes' : asked ≡ true = knows (ap is_command e) in
    rw yes' (command-Ordered s (command_round compare a))
round-Ordered compare quit asked a s e knows = (refl, knows)

set_register-Knows :
    (asked : Bool) (loc : Option Bytes) (s : Client)
    → Knows asked s
    → Knows asked (set_register loc s)
unfolding set_register
set_register-Knows asked none s knows = ground (arith, knows)
set_register-Knows asked (some loc) s knows = ground (arith, knows)

ssdp_discovery-Knows :
    (asked running : Bool) (found : Option Bytes) (s : Client)
    → Knows asked s
    → Knows asked (ssdp_discovery running found s)
unfolding ssdp_discovery
ssdp_discovery-Knows asked running none s knows = knows
ssdp_discovery-Knows asked running (some l) s knows = knows

thread-in_order :
    (compare : Bytes → Bytes → Bool) (es : List Event) (asked : Bool) (s : Client)
    → Knows asked s
    → in_order asked (wally_client_thread compare es s).0 ≡ true
unfolding wally_client_thread
thread-in_order compare [] asked s knows = refl
thread-in_order compare (goes a ∷ es) asked s knows =
    let (first, knows') = round-Ordered compare s.client_state asked a s refl knows in
    let (acts, t) = client_round compare s.client_state a s in
    rw (in_order-append asked acts (wally_client_thread compare es t).0, first)
      (thread-in_order compare es (asked_after asked acts) t knows')
thread-in_order compare (set_register_called loc ∷ es) asked s knows =
    thread-in_order compare es asked (set_register loc s) (set_register-Knows asked loc s knows)
thread-in_order compare (discovers running found ∷ es) asked s knows =
    thread-in_order compare es asked (ssdp_discovery running found s)
      (ssdp_discovery-Knows asked running found s knows)

-- Whatever the server answers and whenever another thread calls `client::register` or
-- `ssdp::discovery`: a thread that does
-- not start among the commands restarts, updates, saves a configuration and reports on a command only
-- after it has started to ask the server for commands.
pub wally_client_thread-in_order :
    (compare : Bytes → Bytes → Bool) (es : List Event) (s : Client)
    → s.client_state ≢ command
    → in_order false (wally_client_thread compare es s).0 ≡ true
wally_client_thread-in_order compare es s other =
    thread-in_order compare es false s (not_command s.client_state other)
  where
    not_command : (k : ThrState) → k ≢ command → is_command k ≡ true → false ≡ true
    not_command discovery h e = e
    not_command register h e = e
    not_command command h e = absurd (h refl)
    not_command quit h e = e

-- How often a command is reported on.
abbrev pub reports : List Action → ℕ
reports [] = 0
reports (calls name ∷ xs) = reports xs
reports (runs_callback l ∷ xs) = reports xs
reports (saves l ∷ xs) = reports xs
reports (starts_longpoll ∷ xs) = reports xs
reports (persists ∷ xs) = reports xs
reports (sends_success ∷ xs) = suc (reports xs)
reports (sends_failed ∷ xs) = suc (reports xs)
reports (reboots ∷ xs) = reports xs
reports (updates ∷ xs) = reports xs

abbrev expected : Bool → Bytes → ℕ
expected persisted c =
    if str_eq c (codes "getlog") || (str_eq c (codes "config") && not persisted) then 0 else 1

reports-config : (p : Bool) → reports (obey str_eq p (codes "config")) ≡ expected p (codes "config")
unfolding obey
reports-config true = refl
reports-config false = refl

reports-reboot : (p : Bool) → reports (obey str_eq p (codes "reboot")) ≡ expected p (codes "reboot")
unfolding obey
reports-reboot p = refl

reports-update :
    (p : Bool)
    → reports (obey str_eq p (codes "firmwareUpdate")) ≡ expected p (codes "firmwareUpdate")
unfolding obey
reports-update p = refl

reports-getlog : (p : Bool) → reports (obey str_eq p (codes "getlog")) ≡ expected p (codes "getlog")
unfolding obey
reports-getlog p = refl

reports_other :
    (p : Bool) (c : Bytes)
    → str_eq c (codes "config") ≡ false
    → str_eq c (codes "reboot") ≡ false
    → str_eq c (codes "firmwareUpdate") ≡ false
    → str_eq c (codes "getlog") ≡ false
    → reports (obey str_eq p c) ≡ expected p c
unfolding obey
reports_other p c h1 h2 h3 h4 = rw (h1, h2, h3, h4) refl

-- What holds of the text holds of one that agrees with it.
at_text :
    (p : Bool) (c d : Bytes)
    → str_eq c d ≡ true
    → reports (obey str_eq p d) ≡ expected p d
    → reports (obey str_eq p c) ≡ expected p c
at_text p c d same h = rw ((str_eq_iff c d).0 same) h

reports_each : (p : Bool) (c : Bytes) → reports (obey str_eq p c) ≡ expected p c
reports_each p c = elim (Bool-cases (str_eq c (codes "config"))) [
  | inl same ↦ at_text p c (codes "config") same (reports-config p)
  | inr h1 ↦ elim (Bool-cases (str_eq c (codes "reboot"))) [
    | inl same ↦ at_text p c (codes "reboot") same (reports-reboot p)
    | inr h2 ↦ elim (Bool-cases (str_eq c (codes "firmwareUpdate"))) [
      | inl same ↦ at_text p c (codes "firmwareUpdate") same (reports-update p)
      | inr h3 ↦ elim (Bool-cases (str_eq c (codes "getlog"))) [
        | inl same ↦ at_text p c (codes "getlog") same (reports-getlog p)
        | inr h4 ↦ reports_other p c h1 h2 h3 h4
      ]
    ]
  ]
]

-- Where `compare` tells texts that agree from those that do not: a command is reported on once, but not
-- at all where it is `getlog`, or `config` and the configuration cannot be saved.
pub reports-command_round :
    (compare : Bytes → Bytes → Bool) (a : Answers) (c : Bytes)
    → ((x y : Bytes) → compare x y ≡ str_eq x y)
    → a.got ≡ true
    → a.name ≡ some c
    → reports (command_round compare a) ≡ (
        if str_eq c (codes "getlog") || (str_eq c (codes "config") && not a.persisted)
        then 0
        else 1)
unfolding command_round
reports-command_round compare a c law got named =
    let same : compare ≡ str_eq = fun_ext (λ x. fun_ext (λ y. law x y)) in
    rw (got, named, same) (reports_each a.persisted c)
