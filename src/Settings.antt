-- ===== src/Settings.antt =====
-- src/wallyd.c: the settings that `initializeFlags`, `initializeConfig` and `readOptions` make of the
-- flags file, the configuration file and the command line. A file is as in Config. `alloc` is as in
-- Replace, whose loop gets the rounds that it needs, and `open_log` is what `openLogfile` returns.
pub mod Laws
use wallyd.Common.{
  ℕ, zero, ◌+◌, Bool, true, false, not, ◌&&◌, ◌||◌, Option, none, some, List, [], ◌∷◌, ◌==◌,
  if◌then◌else◌, length, null_pointer, Outcome, done, fault, blocked, ◌>>=◌,
}
use wallyd.Common.Str.{Bytes, codes}
use wallyd.Common.Int.{ℤ, pos}
use wallyd.Common.Strtol.{atoi}
use wallyd.External.{HashTable}
use wallyd.Registry.{is_some}
use wallyd.Config.{get_config}
use wallyd.Replace.{strip, replace}

pub record Settings (H : HashTable) : Type 0 where
  pub config_flags_map : H.Table Bytes
  pub config_map : H.Table Bytes
  pub width : ℤ
  pub height : ℤ
  pub uuid : Option Bytes
  pub ssdp : Bool
  pub cloud : Bool
  pub thread_delay : ℤ
  pub sdldebug : Bool
  pub broadcom_init : Bool
  pub disable_audio : Bool
  pub disable_video : Bool
  pub disable_video_pq : Bool
  pub disable_video_display : Bool
  pub daemonizing : Bool
  pub vsync : Bool
  pub logfile_handle : Option ℕ
  pub loglevel : ℤ
  pub startup_script : Option Bytes

abbrev pub default_mac : Bytes
default_mac = codes "00:00:00:00:08:15"

-- strncmp(value, text, strlen(text)) == 0
abbrev pub starts_with : Bytes → Bytes → Bool
starts_with text value = is_some (strip text value)

-- `ph->width ? ph->width : DEFAULT_WINDOW_WIDTH`, where the default is 0.
abbrev pub or_default : ℤ → ℤ
or_default (pos zero) = pos 0
or_default n = n

-- strncmp(…, "true", 4) == 0 for an entry that is there.
abbrev pub is_true : Option Bytes → Bool
is_true none = false
is_true (some v) = starts_with (codes "true") v

-- atoi(NULL)
abbrev pub atoi_entry : Option Bytes → Outcome ℤ
atoi_entry none = fault null_pointer
atoi_entry (some v) = done (atoi v)

-- What `getopt` returns for an option: 'h', 'f', 's', 'c' or '?'.
pub data Opt : Type 0 where
  help foreground unknown : Opt
  script config_file : Bytes → Opt

module _ {H : HashTable} where
  -- The flags file, or the other one where it has no entries.
  unfoldable pub read_flags : Option Bytes → Option Bytes → Settings H → Outcome (Settings H)
  read_flags etc_flags etc_flags_bak s = get_config H etc_flags s.config_flags_map >>= λ (n, flags).
      if n == 0
      then (get_config H etc_flags_bak flags >>= λ (m, flags'). done (
          if m == 0
          then record s { config_flags_map = flags'; width = pos 0; height = pos 0 }
          else record s { config_flags_map = flags' }))
      else done (record s { config_flags_map = flags })

  abbrev pub flag : Settings H → Bytes → Option Bytes
  flag s k = H.get s.config_flags_map k

  abbrev pub config : Settings H → Bytes → Option Bytes
  config s k = H.get s.config_map k

  unfoldable pub set_size : Settings H → Settings H
  set_size s = record s {
    width = elim (flag s (codes "W_WIDTH")) [ some v ↦ atoi v | none ↦ or_default s.width ];
    height = elim (flag s (codes "W_HEIGHT")) [ some v ↦ atoi v | none ↦ or_default s.height ];
  }

  unfoldable pub mac_address : Settings H → Bytes
  mac_address s = elim (flag s (codes "W_MAC")) [ some v ↦ v | none ↦ default_mac ]

  unfoldable pub with_mac : Settings H → Settings H
  with_mac s = record s {
    config_flags_map =
        if is_some (flag s (codes "W_MAC"))
        then s.config_flags_map
        else H.insert s.config_flags_map (codes "W_MAC") (some default_mac);
  }

  -- The address without its colons.
  unfoldable pub set_uuid : (ℕ → Bool) → Settings H → Outcome (Settings H)
  set_uuid alloc s =
      let mac = mac_address s in
      elim (replace alloc (length mac + 1) (some mac) (some (codes ":")) (some [])) [
        | none ↦ blocked
        | some r ↦ r >>= λ id. done (record (with_mac s) { uuid = id })
      ]

  -- `strncmp` is 0 for texts that agree.
  unfoldable pub set_connect : Settings H → Settings H
  set_connect s = elim (flag s (codes "W_CONNECT")) [
    | none ↦ s
    | some v ↦ record s {
      ssdp = if starts_with (codes "ssdp") v then s.ssdp else true;
      cloud = if starts_with (codes "cloud") v then s.cloud else true;
    }
  ]

  unfoldable pub initialize_flags :
      (ℕ → Bool) → Option Bytes → Option Bytes → Settings H → Outcome (Settings H)
  initialize_flags alloc etc_flags etc_flags_bak s = read_flags etc_flags etc_flags_bak s >>= λ t.
      set_uuid alloc (set_size t) >>= λ u. done (set_connect u)

  unfoldable pub set_switches : Settings H → Settings H
  set_switches s =
      let on : Bytes → Bool = λ k. is_true (config s k) in
      record s {
        sdldebug = on (codes "sdldebug");
        broadcom_init = on (codes "raspberry");
        disable_audio = on (codes "disableAudio") || s.disable_audio;
        disable_video = on (codes "disableVideo") || s.disable_video;
        disable_video_pq = on (codes "disableVideoPQ") || s.disable_video_pq;
        disable_video_display = on (codes "disableVideoDisplay") || s.disable_video_display;
        daemonizing = not (on (codes "foreground")) && s.daemonizing;
        ssdp = on (codes "ssdp") || s.ssdp;
        vsync = not (on (codes "novsync")) && s.vsync;
      }

  unfoldable pub set_values : (Bytes → Option ℕ) → Settings H → Settings H
  set_values open_log s = record s {
    logfile_handle = elim (config s (codes "logfile")) [
      | none ↦ s.logfile_handle
      | some v ↦ open_log v
    ];
    loglevel = elim (config s (codes "debug")) [ none ↦ s.loglevel | some v ↦ atoi v ];
    width = elim (config s (codes "width")) [ none ↦ s.width | some v ↦ atoi v ];
    height = elim (config s (codes "height")) [ none ↦ s.height | some v ↦ atoi v ];
  }

  -- The delay is looked for in one table and read from the other.
  unfoldable pub set_delay : Settings H → Outcome (Settings H)
  set_delay s =
      if is_some (config s (codes "threadDelay"))
      then (atoi_entry (flag s (codes "threadDelay")) >>= λ n. done (record s { thread_delay = n }))
      else done s

  unfoldable pub initialize_config :
      (ℕ → Bool)
      → (Bytes → Option ℕ)
      → Option Bytes
      → Option Bytes
      → Option Bytes
      → Settings H
      → Outcome (Settings H)
  initialize_config alloc open_log etc_flags etc_flags_bak wallyd_config s =
      initialize_flags alloc etc_flags etc_flags_bak s >>= λ t.
      get_config H wallyd_config t.config_map >>= λ (n, entries).
      let u = record t { config_map = entries } in
      if n == 0 then done u else set_delay u >>= λ v. done (set_values open_log (set_switches v))

  -- Over what `getopt` returns, option by option; none is the end of the process. The name of a
  -- configuration file is stored in a variable that nothing reads.
  unfoldable pub read_options : List Opt → Settings H → Option (Settings H)
  read_options [] s = some s
  read_options (help ∷ opts) s = none
  read_options (foreground ∷ opts) s = read_options opts (record s { daemonizing = false })
  read_options (script file ∷ opts) s = read_options opts (record s { startup_script = some file })
  read_options (config_file file ∷ opts) s = read_options opts s
  read_options (unknown ∷ opts) s = some s
