-- ===== src/Client/Lost.antt =====
-- plugins/client.c: the discovery that the thread makes finds nothing and is not repeated.
use wallyd.Common.{
  ◌≡◌, refl, sym, ap, ◌∙◌, Bool, true, false, ◌&&◌, Option, none, some, List, [], ◌∷◌, ◌++◌,
  append_assoc, append-nil, arith, ltb, length, All,
}
use wallyd.Common.Str.{Bytes}
use wallyd.Client.{
  discovery, register, Client, starts_longpoll, Answers, discovery_call, located, discovery_round,
  register_round, client_round, starts_http, set_register, ssdp_discovery, Event, goes,
  set_register_called, discovers, wally_client_thread,
}

-- Whether an event brings a location: `client::register` with a URL, or `ssdp::discovery`, by another
-- thread, that has found a server.
abbrev pub brings : Event → Bool
brings (goes a) = false
brings (set_register_called none) = false
brings (set_register_called (some loc)) = ltb 1 (length loc) && starts_http loc
brings (discovers running none) = false
brings (discovers running (some l)) = true

abbrev pub NoneBrings : List Event → Type 0
NoneBrings es = All (λ e. brings e ≡ false) es

-- The thread waits to register and there is nothing to register with.
abbrev pub IsWaiting : Client → Type 0
IsWaiting s = (s.client_state ≡ register) × (s.location ≡ none)

registers_none :
    (compare : Bytes → Bytes → Bool) (a : Answers) (s : Client)
    → IsWaiting s
    → client_round compare s.client_state a s ≡ ([], s)
unfolding client_round register_round
registers_none compare a s (k, h) = rw k (ground (arith, h))

set_register-IsWaiting :
    (loc : Option Bytes) (s : Client)
    → IsWaiting s
    → brings (set_register_called loc) ≡ false
    → IsWaiting (set_register loc s)
unfolding set_register
set_register-IsWaiting none s (k, h) e = ground arith
set_register-IsWaiting (some loc) s (k, h) e = ground arith

ssdp_discovery-IsWaiting :
    (running : Bool) (found : Option Bytes) (s : Client)
    → IsWaiting s
    → brings (discovers running found) ≡ false
    → IsWaiting (ssdp_discovery running found s)
unfolding ssdp_discovery
ssdp_discovery-IsWaiting running none s lost e = lost
ssdp_discovery-IsWaiting running (some l) s lost e = absurd (ground arith)

stays :
    (compare : Bytes → Bytes → Bool) (es : List Event) (s : Client)
    → IsWaiting s
    → NoneBrings es
    → (t : Client) × (wally_client_thread compare es s ≡ ([], t)) × IsWaiting t
unfolding wally_client_thread
stays compare [] s lost h = (s, refl, lost)
stays compare (goes a ∷ es) s lost (_, h) =
    let (t, e, still) = stays compare es s lost h in
    (t, rw (registers_none compare a s lost) e, still)
stays compare (set_register_called loc ∷ es) s lost (k, h) =
    stays compare es (set_register loc s) (set_register-IsWaiting loc s lost k) h
stays compare (discovers running found ∷ es) s lost (k, h) =
    stays compare es (ssdp_discovery running found s)
      (ssdp_discovery-IsWaiting running found s lost k) h

finds_none :
    (compare : Bytes → Bytes → Bool) (a : Answers) (s : Client)
    → s.client_state ≡ discovery
    → s.location ≡ none
    → client_round compare s.client_state a s
      ≡ (discovery_call s, record s { client_state = register })
unfolding client_round discovery_round
finds_none compare a s k h =
    let t = record s { client_state = register } in
    ap (λ c. client_round compare c a s) k
    ∙ ap (λ o. (discovery_call s ++ located o s.run_callback, t)) h
    ∙ ap (λ acts. (acts, t)) (append-nil (discovery_call s))

-- An event that brings a location lets the thread register.
wakes :
    (compare : Bytes → Bytes → Bool) (e : Event) (b : Answers) (s : Client)
    → IsWaiting s
    → brings e ≡ true
    → b.registered ≡ true
    → (wally_client_thread compare (e ∷ goes b ∷ []) s).0 ≡ starts_longpoll ∷ []
unfolding wally_client_thread client_round register_round set_register ssdp_discovery
wakes compare (goes a) b s lost h r = absurd (ground arith)
wakes compare (set_register_called none) b s lost h r = absurd (ground arith)
wakes compare (set_register_called (some loc)) b s (k, none_there) h r = ground arith
wakes compare (discovers running none) b s lost h r = absurd (ground arith)
wakes compare (discovers running (some l)) b s (k, none_there) h r = rw k (ground arith)

thread-append :
    (compare : Bytes → Bytes → Bool) (es fs : List Event) (s : Client)
    → (wally_client_thread compare (es ++ fs) s).0
      ≡ (wally_client_thread compare es s).0
        ++ (wally_client_thread compare fs (wally_client_thread compare es s).1).0
unfolding wally_client_thread
thread-append compare [] fs s = refl
thread-append compare (goes a ∷ es) fs s =
    let (acts, t) = client_round compare s.client_state a s in
    let u = (wally_client_thread compare es t).1 in
    ap (λ xs. acts ++ xs) (thread-append compare es fs t)
    ∙ sym (
        append_assoc acts (wally_client_thread compare es t).0 (wally_client_thread compare fs u).0)
thread-append compare (set_register_called loc ∷ es) fs s =
    thread-append compare es fs (set_register loc s)
thread-append compare (discovers running found ∷ es) fs s =
    thread-append compare es fs (ssdp_discovery running found s)

-- A thread that has no location makes its discovery, which finds nothing, and then waits to register:
-- as long as no other thread brings a location, by `client::register` with a URL or by
-- `ssdp::discovery`, it does nothing more, whatever else happens; and when one does, the next round in
-- which the server registers the client starts to ask it for commands.
pub wally_client_thread_lost :
    (compare : Bytes → Bytes → Bool) (a b : Answers) (es : List Event) (e : Event) (s : Client)
    → s.client_state ≡ discovery
    → s.location ≡ none
    → NoneBrings es
    → brings e ≡ true
    → b.registered ≡ true
    → let before = goes a ∷ es in
      ((wally_client_thread compare before s).0 ≡ discovery_call s)
      × IsWaiting (wally_client_thread compare before s).1
      × ((wally_client_thread compare (before ++ e ∷ goes b ∷ []) s).0
          ≡ discovery_call s ++ starts_longpoll ∷ [])
unfolding wally_client_thread
wally_client_thread_lost compare a b es e s k h none_brings brought registered =
    let first = record s { client_state = register } in
    let (t, rest, lost) = stays compare es first (refl, h) none_brings in
    let all : wally_client_thread compare (goes a ∷ es) s ≡ (discovery_call s, t) =
      rw (finds_none compare a s k h, rest)
        (ap (λ acts. (acts, t)) (append-nil (discovery_call s))) in
    (
      ap (λ x. x.0) all,
      rw (ap (λ x. x.1) all) lost,
      thread-append compare (goes a ∷ es) (e ∷ goes b ∷ []) s
          ∙ ap (λ x. x.0 ++ (wally_client_thread compare (e ∷ goes b ∷ []) x.1).0) all
          ∙ ap (λ xs. discovery_call s ++ xs) (wakes compare e b t lost brought registered),
    )
