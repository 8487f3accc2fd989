-- ===== src/Tests/Client.antt =====
-- The thread of the client at small inputs.
use wallyd.Common.{
  ◌+◌, ◌≡◌, refl, ◌≢◌, inr, true, false, not, ◌&&◌, ◌||◌, none, some, List, [], ◌∷◌, ◌++◌, arith,
  if◌then◌else◌, length, All, done,
}
use wallyd.Common.Str.{Bytes, codes, str_eq}
use wallyd.Tests.Tables.{assoc_table}
use wallyd.Config.{fgets_lines, line_size, parse_line, get_config}
use wallyd.Config.Entries.{IsReadable, assignments}
use wallyd.Client.Saved.{discovery_round-get_config}
use wallyd.Client.{
  discovers, discovery, register, starts_longpoll, command, Client, Action, saves, Answers,
  discovery_call, discovery_round, command_round, Event, goes, set_register_called,
  wally_client_thread,
}
use wallyd.Client.Orders.{in_order, reports, wally_client_thread-in_order, reports-command_round}
use wallyd.Client.Lost.{IsWaiting, wally_client_thread_lost}

abbrev answers : Answers
answers = record { registered = true; got = true; name = some (codes "reboot"); persisted = true }

abbrev new_client : Client
new_client = record {
  client_state = discovery;
  location = none;
  ssdp = true;
  cloud = false;
  ssdp_running = false;
  run_callback = false;
}

abbrev some_events : List Event
some_events =
    goes answers
    ∷ goes answers
    ∷ set_register_called none
    ∷ discovers false (some (codes "http://a:80"))
    ∷ goes answers
    ∷ goes answers
    ∷ []

not_commanding : discovery ≢ command
not_commanding h = absurd (ground arith)

wally_client_thread-in_order_example :
    in_order false (wally_client_thread str_eq some_events new_client).0 ≡ true
wally_client_thread-in_order_example =
    wally_client_thread-in_order str_eq some_events new_client not_commanding

reports-command_round_example : reports (command_round str_eq answers) ≡ (
    if str_eq (codes "reboot") (codes "getlog")
      || (str_eq (codes "reboot") (codes "config") && not true)
    then 0
    else 1)
reports-command_round_example =
    reports-command_round str_eq answers (codes "reboot") (λ x y. refl) refl refl

abbrev located_client : Client
located_client = record new_client { location = some (codes "http://a:80") }

old_flags : All IsReadable (fgets_lines line_size (codes "W_SERVER=x\n"))
unfolding fgets_lines parse_line
old_flags = ((some (codes "W_SERVER", codes "x"), refl), tt)

old_count : length (assignments (fgets_lines line_size (codes "W_SERVER=x\n"))) ≡ 1
unfolding fgets_lines parse_line
old_count = refl

discovery_round-get_config_example :
    (line : Bytes) × (first : List Action) × (t : assoc_table.Table Bytes) × ((discovery_round
        located_client).0
      ≡ first ++ saves line ∷ [])
    × (get_config assoc_table (some (codes "W_SERVER=x\n" ++ line)) []
        ≡ done (length (assignments (fgets_lines line_size (codes "W_SERVER=x\n"))) + 1, t))
    × (assoc_table.get t (codes "W_SERVER") ≡ some (codes "http://a:80" ++ codes "/register"))
    × ((discovery_round located_client).1 ≡ record located_client { client_state = register })
discovery_round-get_config_example =
    discovery_round-get_config assoc_table [] (codes "W_SERVER=x\n") located_client b'h'
      (codes "ttp://a:80") refl
      (refl, (refl, (refl, (refl, (refl, (refl, (refl, (refl, (refl, (refl, (refl, tt)))))))))))
      refl
      (refl, (refl, (refl, (refl, (refl, (refl, (refl, (refl, (refl, (refl, (refl, tt)))))))))))
      (omega arith) (inr (codes "W_SERVER=x", refl)) old_flags (omega (arith, old_count))

wally_client_thread_lost_example :
    let before = goes answers ∷ set_register_called (some (codes "ftp")) ∷ goes answers ∷ [] in
    ((wally_client_thread str_eq before new_client).0 ≡ discovery_call new_client)
    × IsWaiting (wally_client_thread str_eq before new_client).1
    × ((wally_client_thread str_eq
          (before ++ discovers false (some (codes "http://a:80")) ∷ goes answers ∷ [])
          new_client).0
        ≡ discovery_call new_client ++ starts_longpoll ∷ [])
wally_client_thread_lost_example =
    wally_client_thread_lost str_eq answers answers
      (set_register_called (some (codes "ftp")) ∷ goes answers ∷ [])
      (discovers false (some (codes "http://a:80"))) new_client refl refl (refl, (refl, tt)) refl
      refl
