-- ===== src/Config/Appended.antt =====
-- lib/util.c: what `getConfig` makes of a file to which a line was appended.
use wallyd.Common.{
  ℕ, zero, suc, ◌+◌, ◌-◌, ◌≤◌, ◌<◌, ◌≡◌, refl, ap, ◌∙◌, ◌⊎◌, inl, inr, ◌||◌, Option, none, some,
  List, [], ◌∷◌, ◌++◌, append_assoc, arith, leb, ◌==◌, Bool-cases, length, take, length-append, All,
  All-append, Outcome, done, fault, blocked,
}
use wallyd.Common.Str.{Lacks, Bytes, str_eq_iff}
use wallyd.External.{HashTable}
use wallyd.Registry.Laws.{or_else}
use wallyd.Config.{newline, fgets_lines, line_size, max_conf, parse_line, get_config}
use wallyd.Config.Entries.{IsReadable, entry, assignments, last_value, get_config-last_value}

-- A text that is empty or ends with a newline.
abbrev pub IsEnded : Bytes → Type 0
IsEnded file = (file ≡ []) ⊎ ((old : Bytes) × (file ≡ old ++ newline ∷ []))

-- There is a line, and behind the last newline the lines of what follows come.
fgets_lines_ended :
    (room : ℕ) (s t : Bytes)
    → (l : Bytes) × (ls : List Bytes) × (fgets_lines room (s ++ newline ∷ []) ≡ l ∷ ls)
      × (fgets_lines room (s ++ newline ∷ t) ≡ l ∷ ls ++ fgets_lines line_size t)
unfolding fgets_lines
fgets_lines_ended room [] t = (newline ∷ [], [], refl, refl)
fgets_lines_ended room (c ∷ s) t = elim (Bool-cases (c == newline || leb room 1)) [
  | inl ends ↦
      let (l, ls, e, f) = fgets_lines_ended line_size s t in
      (c ∷ [], l ∷ ls, ground (arith, e), ground (arith, f))
  | inr goes_on ↦
      let (l, ls, e, f) = fgets_lines_ended (room - 1) s t in
      (c ∷ l, ls, ground (arith, e), ground (arith, f))
]

fgets_lines-append :
    (file t : Bytes)
    → IsEnded file
    → fgets_lines line_size (file ++ t) ≡ fgets_lines line_size file ++ fgets_lines line_size t
fgets_lines-append file t (inl none_there) = rw none_there (unfold fgets_lines in refl)
fgets_lines-append file t (inr (old, whole)) =
    let (l, ls, e, f) = fgets_lines_ended line_size old t in
    rw whole (cc (e, f, append_assoc old (newline ∷ []) t))

-- A line that fits the buffer is read whole.
fgets_lines_line :
    (room : ℕ) (l : Bytes)
    → Lacks newline l
    → length l < room
    → fgets_lines room (l ++ newline ∷ []) ≡ (l ++ newline ∷ []) ∷ []
unfolding fgets_lines
fgets_lines_line room [] h fits = refl
fgets_lines_line room (c ∷ l) (hc, h) fits =
    let rest = fgets_lines_line (room - 1) l h (omega (arith, fits)) in ground (arith, hc, rest)

entry-append :
    (o : Outcome (Option (Bytes × Bytes))) (es fs : List (Bytes × Bytes))
    → entry o (es ++ fs) ≡ entry o es ++ fs
entry-append (done (some e)) es fs = refl
entry-append (done none) es fs = refl
entry-append (fault f) es fs = refl
entry-append blocked es fs = refl

assignments-append :
    (ls : List Bytes) (l : Bytes) (e : Bytes × Bytes)
    → parse_line l ≡ done (some e)
    → assignments (ls ++ l ∷ []) ≡ assignments ls ++ e ∷ []
assignments-append [] l e h = rw h refl
assignments-append (k ∷ ls) l e h =
    ap (entry (parse_line k)) (assignments-append ls l e h)
    ∙ entry-append (parse_line k) (assignments ls) (e ∷ [])

last_value-append :
    (k v : Bytes) (es : List (Bytes × Bytes)) → last_value k (es ++ (k, v) ∷ []) ≡ some v
last_value-append k v [] = rw ((str_eq_iff k k).1 refl) refl
last_value-append k v ((j, w) ∷ es) = rw (last_value-append k v es) refl

take_short : {A : Type 0} (n : ℕ) (xs : List A) → length xs ≤ n → take n xs ≡ xs
take_short zero [] h = refl
take_short zero (x ∷ xs) h = absurd (omega (arith, h))
take_short (suc n) [] h = refl
take_short (suc n) (x ∷ xs) h = ap (λ ys. x ∷ ys) (take_short n xs (omega (arith, h)))

-- A file that `getConfig` gets over, with fewer than 1024 assignments and a newline at its end, to which
-- one more line is appended that fits the buffer and is an assignment: `getConfig` enters one more than
-- before, and the key has the value of that line.
pub get_config_appended :
    (H : HashTable) (table : H.Table Bytes) (file l k v : Bytes)
    → IsEnded file
    → All IsReadable (fgets_lines line_size file)
    → length (assignments (fgets_lines line_size file)) < max_conf
    → Lacks newline l
    → length l < line_size
    → parse_line (l ++ newline ∷ []) ≡ done (some (k, v))
    → (t : H.Table Bytes) × (get_config H (some (file ++ (l ++ newline ∷ []))) table
        ≡ done (length (assignments (fgets_lines line_size file)) + 1, t))
      × (H.get t k ≡ some v)
get_config_appended H table file l k v ended readable room one fits read =
    let line = l ++ newline ∷ [] in
    let old = fgets_lines line_size file in
    let lines : fgets_lines line_size (file ++ line) ≡ old ++ line ∷ [] =
      fgets_lines-append file line ended
      ∙ ap (λ ls. old ++ ls) (fgets_lines_line line_size l one fits) in
    let all : All IsReadable (fgets_lines line_size (file ++ line)) =
      rw lines (All-append IsReadable old (line ∷ []) readable ((some (k, v), read), tt)) in
    let found : assignments (fgets_lines line_size (file ++ line))
        ≡ assignments old ++ (k, v) ∷ [] =
      ap assignments lines ∙ assignments-append old line (k, v) read in
    let count : length (assignments old ++ (k, v) ∷ []) ≡ length (assignments old) + 1 =
      length-append (assignments old) ((k, v) ∷ []) in
    let few : take max_conf (assignments (fgets_lines line_size (file ++ line)))
        ≡ assignments old ++ (k, v) ∷ [] =
      ap (take max_conf) found
      ∙ take_short max_conf (assignments old ++ (k, v) ∷ []) (omega (arith, room, count)) in
    let (t, e, gives) = get_config-last_value H (file ++ line) table all in
    (
      t,
      e ∙ ap (λ n. done (n, t)) (ap length few ∙ count),
      gives k
          ∙ ap (λ es. or_else (last_value k es) (H.get table k)) few
          ∙ ap (λ o. or_else o (H.get table k)) (last_value-append k v (assignments old)),
    )
