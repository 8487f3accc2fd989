-- ===== src/Client/Saved.antt =====
-- plugins/client.c and lib/util.c together: what `getConfig` makes of the file to which a client
-- appended its server.
use wallyd.Common.{
  ℕ, ◌+◌, ◌<◌, ◌≡◌, refl, sym, ap, ◌∙◌, false, some, List, [], ◌∷◌, ◌++◌, append_assoc, arith, ◌==◌,
  length, length-append, All, All-append, done,
}
use wallyd.Common.Str.{Lacks, Bytes, codes}
use wallyd.External.{HashTable}
use wallyd.Config.{
  newline, quote, unquoted, parse_line, fgets_lines, line_size, max_conf, get_config,
}
use wallyd.Config.Entries.{IsReadable, assignments}
use wallyd.Config.Appended.{IsEnded, get_config_appended}
use wallyd.Config.Lines.{IsUnended, IsUnended-append_cons, parse_line-assignment}
use wallyd.Client.{
  location_line, register, Client, Action, runs_callback, if_true, saves, discovery_call,
  discovery_round,
}

Lacks-append : (c : ℕ) (s t : Bytes) → Lacks c s → Lacks c t → Lacks c (s ++ t)
Lacks-append c s t h k = All-append (λ x. (x == c) ≡ false) s t h k

key-Lacks : Lacks b'=' (codes "W_SERVER")
key-Lacks = (refl, (refl, (refl, (refl, (refl, (refl, (refl, (refl, tt))))))))

path-Lacks : Lacks b'=' (codes "/register")
path-Lacks = (refl, (refl, (refl, (refl, (refl, (refl, (refl, (refl, (refl, tt)))))))))

-- A text that ends like this one does not end with a return or a newline.
path-IsUnended : IsUnended (b'/' ∷ codes "register")
path-IsUnended t c e = ground arith

server-IsUnended : (y : ℕ) (l : Bytes) → IsUnended (y ∷ (l ++ codes "/register"))
server-IsUnended y l = IsUnended-append_cons (y ∷ l) b'/' (codes "register") path-IsUnended

unquoted_same : (y : ℕ) (v : Bytes) → (y == quote) ≡ false → unquoted (y ∷ v) ≡ done (y ∷ v)
unquoted_same y v h = rw h refl

location_line-parse_line :
    (y : ℕ) (l : Bytes)
    → Lacks b'=' (y ∷ l)
    → (y == quote) ≡ false
    → parse_line (location_line (y ∷ l))
      ≡ done (some (codes "W_SERVER", (y ∷ l) ++ codes "/register"))
location_line-parse_line y l (hy, hl) plain =
    let v = l ++ codes "/register" in
    let (read, _) =
      parse_line-assignment b'W' (codes "_SERVER") y v (y ∷ v) (refl, refl, refl) key-Lacks
        (hy, Lacks-append b'=' l (codes "/register") hl path-Lacks) (server-IsUnended y l)
        (unquoted_same y v plain) in
    ap (λ r. parse_line (codes "W_SERVER=" ++ y ∷ r))
      (sym (append_assoc l (codes "/register") (newline ∷ [])))
    ∙ read

register_line : Bytes → Bytes
register_line l = codes "W_SERVER=" ++ (l ++ codes "/register")

location_line-register_line : (l : Bytes) → location_line l ≡ register_line l ++ newline ∷ []
unfolding register_line
location_line-register_line l =
    append_assoc (codes "W_SERVER=") l (codes "/register\n")
    ∙ ap (λ r. codes "W_SERVER=" ++ r) (sym (append_assoc l (codes "/register") (newline ∷ [])))

register_line-Lacks : (l : Bytes) → Lacks newline l → Lacks newline (register_line l)
unfolding register_line
register_line-Lacks l h =
    Lacks-append newline (codes "W_SERVER=") (l ++ codes "/register")
      (refl, (refl, (refl, (refl, (refl, (refl, (refl, (refl, (refl, tt)))))))))
      (Lacks-append newline l (codes "/register") h
        (refl, (refl, (refl, (refl, (refl, (refl, (refl, (refl, (refl, tt))))))))))

length-register_line : (l : Bytes) → length (register_line l) ≡ length l + 18
unfolding register_line
length-register_line l =
    let a = length-append (codes "W_SERVER=") (l ++ codes "/register") in
    let b = length-append l (codes "/register") in ground (arith, a, b)

-- A thread that comes to its discovery with a location, which does not start with a quote, has no equals
-- sign and no newline, and is shorter than 493 bytes: it goes on to register, and has a line appended to
-- the file of flags, behind the call of the plugin and of the script. Where that file is empty or ends
-- with a newline, `getConfig` gets over it, and it has fewer than 1024 assignments, `getConfig` of the
-- file with that line enters one assignment more, and the key `W_SERVER` has the location with
-- `/register` behind it, whatever the file said of it before.
pub discovery_round-get_config :
    (H : HashTable) (table : H.Table Bytes) (file : Bytes) (s : Client) (y : ℕ) (l : Bytes)
    → s.location ≡ some (y ∷ l)
    → Lacks b'=' (y ∷ l)
    → (y == quote) ≡ false
    → Lacks newline (y ∷ l)
    → length (y ∷ l) < 493
    → IsEnded file
    → All IsReadable (fgets_lines line_size file)
    → length (assignments (fgets_lines line_size file)) < max_conf
    → (line : Bytes) × (first : List Action) × (t : H.Table Bytes) × ((discovery_round s).0
        ≡ first ++ saves line ∷ [])
      × (get_config H (some (file ++ line)) table
          ≡ done (length (assignments (fgets_lines line_size file)) + 1, t))
      × (H.get t (codes "W_SERVER") ≡ some ((y ∷ l) ++ codes "/register"))
      × ((discovery_round s).1 ≡ record s { client_state = register })
unfolding discovery_round
discovery_round-get_config H table file s y l here no_sign plain one short ended readable room =
    let same = location_line-register_line (y ∷ l) in
    let read = ap parse_line (sym same) ∙ location_line-parse_line y l no_sign plain in
    let size = length-register_line (y ∷ l) in
    let (t, done', gives) =
      get_config_appended H table file (register_line (y ∷ l)) (codes "W_SERVER")
        ((y ∷ l) ++ codes "/register") ended readable room (register_line-Lacks (y ∷ l) one)
        (omega (arith, size, short)) read in
    (
      location_line (y ∷ l),
      discovery_call s ++ if_true s.run_callback (runs_callback (y ∷ l) ∷ []),
      t,
      rw here (
          sym (
            append_assoc (discovery_call s) (if_true s.run_callback (runs_callback (y ∷ l) ∷ []))
              (saves (location_line (y ∷ l)) ∷ []))),
      ap (λ r. get_config H (some (file ++ r)) table) same ∙ done',
      gives,
      refl,
    )
