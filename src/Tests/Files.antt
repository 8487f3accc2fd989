-- ===== src/Tests/Files.antt =====
-- The functions of lib/util.c and src/wallyd.c on texts and files.
use wallyd.Common.{
  ℕ, ◌≡◌, refl, Bool, true, false, none, some, [], ◌∷◌, ◌++◌, arith, ◌==◌, length, take, All, done,
  ◌>>=◌,
}
use wallyd.Common.Str.{Lacks, Bytes, codes}
use wallyd.Common.Int.{pos}
use wallyd.Registry.Laws.{or_else}
use wallyd.Tests.Tables.{assoc_table, ranked_queue}
use wallyd.Tests.States.{ready, do_nothing, in_time}
use wallyd.Call.{Ptr, null, str, PluginHandler}
use wallyd.Config.{
  newline, return, quote, line_size, max_conf, fgets_lines, parse_line, read_entries, get_config,
}
use wallyd.Config.Lines.{parse_line-assignment}
use wallyd.Config.Entries.{IsReadable, assignments, last_value, get_config-last_value}
use wallyd.Replace.{replace, replace_loop}
use wallyd.Replace.Spec.{Replaced, replace-Replaced}
use wallyd.Command.{space, process_command}
use wallyd.Command.Lines.{run_all}
use wallyd.Command.Written.{remark, calls, process_command_written_lines}
use wallyd.Settings.{
  Settings, read_flags, set_size, set_uuid, mac_address, with_mac, set_connect, initialize_flags,
}

-- W="9" with quotes, and both ends of a line.
parse_line-assignment_example :
    (parse_line (codes "W=\"9\"" ++ newline ∷ []) ≡ done (some (codes "W", codes "9")))
    × (parse_line (codes "W=\"9\"" ++ return ∷ newline ∷ []) ≡ done (some (codes "W", codes "9")))
parse_line-assignment_example =
    parse_line-assignment b'W' [] quote (b'9' ∷ quote ∷ []) (codes "9") (refl, refl, refl)
      (refl, tt) (refl, (refl, (refl, tt))) (λ t c e. (ground arith, ground arith)) refl

abbrev two_lines : Bytes
two_lines = codes "# a\nW=7\nW=8\n"

two_lines-IsReadable : All IsReadable (fgets_lines line_size two_lines)
unfolding fgets_lines parse_line
two_lines-IsReadable =
    ((none, refl), ((some (codes "W", codes "7"), refl), ((some (codes "W", codes "8"), refl), tt)))

get_config-last_value_example :
    let es = take max_conf (assignments (fgets_lines line_size two_lines)) in
    (t : assoc_table.Table Bytes) × (get_config assoc_table (some two_lines) []
      ≡ done (length es, t))
    × ((j : Bytes) → assoc_table.get t j ≡ or_else (last_value j es) none)
get_config-last_value_example = get_config-last_value assoc_table two_lines [] two_lines-IsReadable

abbrev enough : ℕ → Bool
enough n = true

replace-Replaced_example :
    (r : Bytes) × (replace enough 6 (some (codes "a:b:c")) (some (codes ":")) (some [])
      ≡ some (done (some r)))
    × Replaced (codes ":") [] (codes "a:b:c") r
replace-Replaced_example =
    replace-Replaced enough (codes "a:b:c") (codes ":") [] 6 (λ n. refl) (omega arith) (omega arith)

keeps_functions :
    (f : ℕ) (q : Ptr) (s t : PluginHandler assoc_table ranked_queue)
    → do_nothing f q s ≡ done t
    → t.registry ≡ s.registry
keeps_functions f q s t h = ground arith

log_Lacks :
    (c : ℕ)
    → (b'l' == c) ≡ false
    → (b'o' == c) ≡ false
    → (b'g' == c) ≡ false
    → Lacks c (codes "log")
log_Lacks c l o g = (l, (o, (g, tt)))

process_command_written_lines_example :
    process_command do_nothing in_time (codes "log a  b\n# b\nlog\n") ready ≡ (
      run_all {H = assoc_table} {Q = ranked_queue} do_nothing in_time
        ((3, str (codes "a  b")) ∷ (3, null) ∷ [])
        ready
      >>= λ t. done (true, t))
process_command_written_lines_example =
    process_command_written_lines {H = assoc_table} {Q = ranked_queue} do_nothing in_time
      keeps_functions (calls b'l' (codes "og") (some (codes "a  b")))
      (remark (codes " b") ∷ calls b'l' (codes "og") none ∷ [])
      ((3, str (codes "a  b")) ∷ (3, null) ∷ []) ready
      (
        (
          refl,
          log_Lacks space refl refl refl,
          log_Lacks newline refl refl refl,
          ((refl, (refl, (refl, (refl, tt)))), (refl, (refl, (refl, (refl, tt))))),
        ),
        (
          (refl, (refl, tt)),
          ((refl, log_Lacks space refl refl refl, log_Lacks newline refl refl refl, tt), tt),
        ),
      )
      refl (refl, refl, refl, (refl, refl, refl, refl))

abbrev fresh : Settings assoc_table
fresh = record {
  config_flags_map = [];
  config_map = [];
  width = pos 0;
  height = pos 0;
  uuid = none;
  ssdp = false;
  cloud = false;
  thread_delay = pos 0;
  sdldebug = false;
  broadcom_init = false;
  disable_audio = false;
  disable_video = false;
  disable_video_pq = false;
  disable_video_display = false;
  daemonizing = true;
  vsync = true;
  logfile_handle = none;
  loglevel = pos 0;
  startup_script = none;
}

abbrev cloudy : Settings assoc_table
cloudy = record fresh {
  config_flags_map =
      (codes "W_CONNECT", some (codes "cloud")) ∷ (codes "W_MAC", some (codes "0:1")) ∷ [];
  uuid = some (codes "01");
  ssdp = true;
}

cloudy_flags :
    initialize_flags enough (some (codes "W_MAC=0:1\nW_CONNECT=cloud\n")) none fresh ≡ done cloudy
unfolding initialize_flags read_flags set_size set_uuid mac_address with_mac set_connect get_config
    read_entries fgets_lines parse_line replace replace_loop
cloudy_flags = refl
