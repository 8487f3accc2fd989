-- ===== src/Config/Lines.antt =====
-- lib/util.c: which lines `getConfig` reads as an assignment, and as which.
use wallyd.Common.{
  ℕ, ◌≤◌, ◌≡◌, refl, ◌∙◌, false, some, [], ◌∷◌, ◌++◌, arith, ◌==◌, length, length-append, done,
  ◌>>=◌,
}
use wallyd.Common.Str.{Lacks, before_lacking, before-append, token, Bytes}
use wallyd.Number.{split_last}
use wallyd.Number.Laws.{split_last-append, split_last_cons}
use wallyd.Config.{newline, return, quote, is_comment, without_end, unquoted, parse_line}

-- The two tokens of an assignment.
token-assignment :
    (c x y : ℕ) (k v : Bytes)
    → Lacks c (x ∷ k)
    → Lacks c (y ∷ v)
    → (token c ((x ∷ k) ++ c ∷ y ∷ v) ≡ (some (x ∷ k), y ∷ v))
      × ((token c (y ∷ v)).0 ≡ some (y ∷ v))
token-assignment c x y k v hk hv =
    let (b, a) = before-append c (x ∷ k) (y ∷ v) hk in
    (ground (arith, hk.0, b, a), ground (arith, hv.0, before_lacking c (y ∷ v) hv))

split_last-append_cons :
    (s : Bytes) (y : ℕ) (v t : Bytes) (d : ℕ)
    → split_last (y ∷ v) ≡ some (t, d)
    → split_last (s ++ y ∷ v) ≡ some (s ++ t, d)
split_last-append_cons [] y v t d h = h
split_last-append_cons (a ∷ []) y v t d h = ground (arith, h)
split_last-append_cons (a ∷ b ∷ s) y v t d h =
    ground (arith, split_last-append_cons (b ∷ s) y v t d h)

without_end-return : (s : Bytes) → without_end (s ++ return ∷ newline ∷ []) ≡ s
without_end-return s =
    let e : split_last (s ++ return ∷ newline ∷ []) ≡ some (s ++ return ∷ [], newline) =
      split_last-append_cons s return (newline ∷ []) (return ∷ []) newline refl in
    ground (arith, e, split_last-append s return)

-- A line that does not itself end with a return or a newline.
abbrev pub IsUnended : Bytes → Type 0
IsUnended s =
    (t : Bytes) (c : ℕ)
    → split_last s ≡ some (t, c)
    → ((c == return) ≡ false) × ((c == newline) ≡ false)

without_end-newline : (s : Bytes) → IsUnended s → without_end (s ++ newline ∷ []) ≡ s
without_end-newline [] h = refl
without_end-newline (x ∷ s) h =
    let ((t, c), e) = split_last_cons x s in
    ground (arith, split_last-append (x ∷ s) newline, e, h t c e)

-- A value in quotes loses them.
pub unquoted_quotes : (v : Bytes) → unquoted (quote ∷ v ++ quote ∷ []) ≡ done v
unquoted_quotes v = ground (arith, split_last-append v quote)

parse_line_tokens :
    (line : Bytes) (k rest v : Bytes)
    → is_comment line ≡ false
    → 3 ≤ length line
    → token b'=' (without_end line) ≡ (some k, rest)
    → (token b'=' rest).0 ≡ some v
    → parse_line line ≡ (unquoted v >>= λ value. done (some (k, value)))
unfolding parse_line
parse_line_tokens line k rest v text long first second = ground arith

-- The first byte of a key: no equals sign, and none that makes a comment of the line.
abbrev pub IsStart : ℕ → Type 0
IsStart x = ((x == b'#') ≡ false) × ((x == b';') ≡ false) × ((x == b'/') ≡ false)

IsStart-is_comment : (x : ℕ) (s : Bytes) → IsStart x → is_comment (x ∷ s) ≡ false
IsStart-is_comment x [] (a, b, c) = ground arith
IsStart-is_comment x (y ∷ s) (a, b, c) = ground arith

pub IsUnended-append_cons :
    (s : Bytes) (y : ℕ) (v : Bytes) → IsUnended (y ∷ v) → IsUnended (s ++ y ∷ v)
IsUnended-append_cons s y v h t c e =
    let ((u, d), k) = split_last_cons y v in
    let (a, b) = h u d k in ground (arith, split_last-append_cons s y v u d k)

parse_line_ended :
    (x : ℕ) (k v t w end : Bytes)
    → IsStart x
    → 3 ≤ length (x ∷ t)
    → without_end ((x ∷ t) ++ end) ≡ x ∷ t
    → token b'=' (x ∷ t) ≡ (some (x ∷ k), v)
    → (token b'=' v).0 ≡ some v
    → unquoted v ≡ done w
    → parse_line ((x ∷ t) ++ end) ≡ done (some (x ∷ k, w))
parse_line_ended x k v t w end start long whole first second is_w =
    parse_line_tokens ((x ∷ t) ++ end) (x ∷ k) v v (IsStart-is_comment x (t ++ end) start)
      (omega (arith, length-append (x ∷ t) end)) (rw whole first) second
    ∙ (rw is_w refl)

-- An assignment, its line ended by a newline or by a return and a newline, gives the key and the
-- value, the value without the quotes that may be around it. The key does not start like a comment,
-- neither key nor value is empty or has an equals sign, and the value does not end with a return or a
-- newline itself.
pub parse_line-assignment :
    (x : ℕ) (k : Bytes) (y : ℕ) (v w : Bytes)
    → IsStart x
    → Lacks b'=' (x ∷ k)
    → Lacks b'=' (y ∷ v)
    → IsUnended (y ∷ v)
    → unquoted (y ∷ v) ≡ done w
    → let text = (x ∷ k) ++ b'=' ∷ y ∷ v in
      (parse_line (text ++ newline ∷ []) ≡ done (some (x ∷ k, w)))
      × (parse_line (text ++ return ∷ newline ∷ []) ≡ done (some (x ∷ k, w)))
parse_line-assignment x k y v w start hk hv ended is_w =
    let text = (x ∷ k) ++ b'=' ∷ y ∷ v in
    let (first, second) = token-assignment b'=' x y k v hk hv in
    let unended =
      IsUnended-append_cons (x ∷ k) b'=' (y ∷ v) (IsUnended-append_cons (b'=' ∷ []) y v ended) in
    let long = length-append (x ∷ k) (b'=' ∷ y ∷ v) in
    (
      parse_line_ended x k (y ∷ v) (k ++ b'=' ∷ y ∷ v) w (newline ∷ []) start (omega arith)
          (without_end-newline text unended) first second is_w,
      parse_line_ended x k (y ∷ v) (k ++ b'=' ∷ y ∷ v) w (return ∷ newline ∷ []) start (omega arith)
          (without_end-return text) first second is_w,
    )
