-- ===== src/Settings/Laws.antt =====
-- src/wallyd.c: what the settings come to.
use wallyd.Common.{
  ℕ, ◌+◌, ◌≡◌, refl, sym, ◌∙◌, Bool, true, false, not, ◌||◌, Option, none, some, [], arith, length,
  done, ◌>>=◌, bind_done,
}
use wallyd.Common.Str.{Bytes, codes}
use mathlib.Core.Path.{subst}
use wallyd.External.{HashTable}
use wallyd.Replace.Spec.{Replaced, replace-Replaced}
use wallyd.Settings.{
  Settings, mac_address, with_mac, starts_with, flag, default_mac, read_flags, set_size, set_uuid,
  set_connect, initialize_flags,
}

-- How the device is connected: a switch is set if it was, or if there is an entry W_CONNECT that does
-- not name it.
abbrev pub is_other : Bytes → Option Bytes → Bool
is_other text none = false
is_other text (some v) = not (starts_with text v)

module _ {H : HashTable} where
  set_connect_switches :
      (s : Settings H)
      → ((set_connect s).ssdp ≡ (is_other (codes "ssdp") (flag s (codes "W_CONNECT")) || s.ssdp))
        × ((set_connect s).cloud
            ≡ (is_other (codes "cloud") (flag s (codes "W_CONNECT")) || s.cloud))
  unfolding set_connect
  set_connect_switches s = (ground arith, ground arith)

  set_uuid_returns :
      (alloc : ℕ → Bool) (s t : Settings H)
      → ((n : ℕ) → alloc n ≡ true)
      → set_uuid alloc s ≡ done t
      → (id : Bytes) × (t ≡ record (with_mac s) { uuid = some id })
        × Replaced (codes ":") [] (mac_address s) id
  unfolding set_uuid
  set_uuid_returns alloc s t room h =
      let mac = mac_address s in
      let (id, ends, rel) =
        replace-Replaced alloc mac (codes ":") [] (length mac + 1) room (omega arith)
          (omega arith) in
      (id, ground (arith, ends), rel)

  with_mac_flags :
      (s : Settings H)
      → (flag (with_mac s) (codes "W_CONNECT") ≡ flag s (codes "W_CONNECT"))
        × (mac_address (with_mac s) ≡ mac_address s)
  unfolding with_mac mac_address
  with_mac_flags s = (
    ground (
      arith,
      H.get-insert s.config_flags_map (codes "W_MAC") (some default_mac) (codes "W_CONNECT"),
    ),
    ground
        (arith, H.get-insert s.config_flags_map (codes "W_MAC") (some default_mac) (codes "W_MAC")),
  )

  read_flags_keeps :
      (etc_flags etc_flags_bak : Option Bytes) (s t : Settings H)
      → read_flags etc_flags etc_flags_bak s ≡ done t
      → (t.ssdp ≡ s.ssdp) × (t.cloud ≡ s.cloud)
  unfolding read_flags
  read_flags_keeps etc_flags etc_flags_bak s t h = (ground arith, ground arith)

  -- The id of the device, and the switches that an entry W_CONNECT sets.
  abbrev pub IsInitialized : Settings H → Settings H → Type 0
  IsInitialized s t =
      ((id : Bytes) × (t.uuid ≡ some id) × Replaced (codes ":") [] (mac_address t) id)
      × (t.ssdp ≡ (is_other (codes "ssdp") (flag t (codes "W_CONNECT")) || s.ssdp))
      × (t.cloud ≡ (is_other (codes "cloud") (flag t (codes "W_CONNECT")) || s.cloud))

  set_connect_keeps :
      (s : Settings H)
      → ((set_connect s).uuid ≡ s.uuid)
        × (mac_address (set_connect s) ≡ mac_address s)
        × (flag (set_connect s) (codes "W_CONNECT") ≡ flag s (codes "W_CONNECT"))
  unfolding set_connect mac_address
  set_connect_keeps s = (ground arith, ground arith, ground arith)

  set_connect-IsInitialized :
      (s w : Settings H) (id : Bytes)
      → w.uuid ≡ some id
      → Replaced (codes ":") [] (mac_address w) id
      → w.ssdp ≡ s.ssdp
      → w.cloud ≡ s.cloud
      → IsInitialized s (set_connect w)
  set_connect-IsInitialized s w id named rel ssdp cloud =
      let (same, mac, flags) = set_connect_keeps w in
      let (a, b) = set_connect_switches w in
      (
        (id, same ∙ named, subst (λ m. Replaced (codes ":") [] m id) (sym mac) rel),
        ground (arith, a, ssdp, flags),
        ground (arith, b, cloud, flags),
      )

  set_uuid-IsInitialized :
      (s u : Settings H) (id : Bytes)
      → Replaced (codes ":") [] (mac_address u) id
      → u.ssdp ≡ s.ssdp
      → u.cloud ≡ s.cloud
      → IsInitialized s (set_connect (record (with_mac u) { uuid = some id }))
  unfolding with_mac
  set_uuid-IsInitialized s u id rel ssdp cloud =
      let w = record (with_mac u) { uuid = some id } in
      let mac : mac_address w ≡ mac_address u = (unfold mac_address in (with_mac_flags u).1) in
      set_connect-IsInitialized s w id refl
        (subst (λ m. Replaced (codes ":") [] m id) (sym mac) rel) ssdp cloud

  -- `initializeFlags`, where it returns and memory does not run out. The id is the MAC address in the
  -- flags, or the default, without its colons. Of the two switches for a connection each is set if it
  -- was, or if there is an entry W_CONNECT that does not name it: "cloud" sets the one for ssdp.
  pub initialize_flags_returns :
      (alloc : ℕ → Bool) (etc_flags etc_flags_bak : Option Bytes) (s t : Settings H)
      → ((n : ℕ) → alloc n ≡ true)
      → initialize_flags alloc etc_flags etc_flags_bak s ≡ done t
      → IsInitialized s t
  unfolding initialize_flags set_size
  initialize_flags_returns alloc etc_flags etc_flags_bak s t room h =
      let (u, is_read, h') =
        bind_done (read_flags etc_flags etc_flags_bak s)
          (λ u. set_uuid alloc (set_size u) >>= λ v. done (set_connect v)) t h in
      let (v, named, h'') =
        bind_done (set_uuid alloc (set_size u)) (λ v. done (set_connect v)) t h' in
      let (id, whole, rel) = set_uuid_returns alloc (set_size u) v room named in
      let (ssdp, cloud) = read_flags_keeps etc_flags etc_flags_bak s u is_read in
      let e : set_connect (record (with_mac (set_size u)) { uuid = some id }) ≡ t = ground arith in
      subst (IsInitialized s) e (set_uuid-IsInitialized s (set_size u) id rel ssdp cloud)
