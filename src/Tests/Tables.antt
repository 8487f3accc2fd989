-- ===== src/Tests/Tables.antt =====
-- A hash table and a priority queue by lists, which meet the laws of External.
use wallyd.Common.{
  ℕ, ◌≡◌, refl, not, ◌&&◌, ◌||◌, Option, none, some, List, [], ◌∷◌, arith, ltb, if◌then◌else◌,
}
use wallyd.Common.Str.{contains, Bytes, str_eq, str_eq_iff}
use wallyd.External.{HashTable, PriQueue}

abbrev pub Assoc : Type 0 → Type 0
Assoc V = List (Bytes × Option V)

abbrev pub lookup : {V : Type 0} → Assoc V → Bytes → Option V
lookup [] j = none
lookup ((k, v) ∷ t) j = if str_eq k j then v else lookup t j

abbrev pub without : {V : Type 0} → Assoc V → Bytes → Assoc V
without [] j = []
without ((k, v) ∷ t) j = if str_eq k j then without t j else (k, v) ∷ without t j

abbrev pub names : {V : Type 0} → Assoc V → List Bytes
names [] = []
names ((k, v) ∷ t) = k ∷ names t

pub lookup-without :
    {V : Type 0} (t : Assoc V) (k j : Bytes)
    → lookup (without t k) j ≡ (if str_eq k j then none else lookup t j)
lookup-without [] k j = ground arith
lookup-without ((i, v) ∷ t) k j =
    ground (arith, lookup-without t k j, str_eq_iff i k, str_eq_iff i j, str_eq_iff k j)

abbrev pub put : {V : Type 0} → Assoc V → Bytes → Option V → Assoc V
put t k v = (k, v) ∷ without t k

pub lookup-put :
    {V : Type 0} (t : Assoc V) (k : Bytes) (v : Option V) (j : Bytes)
    → lookup (put t k v) j ≡ (if str_eq k j then v else lookup t j)
lookup-put t k v j = ground (arith, lookup-without t k j)

pub names-without :
    {V : Type 0} (t : Assoc V) (k j : Bytes)
    → contains j (names (without t k)) ≡ (not (str_eq k j) && contains j (names t))
names-without [] k j = ground arith
names-without ((i, v) ∷ t) k j =
    ground (arith, names-without t k j, str_eq_iff i k, str_eq_iff i j, str_eq_iff k j)

pub names-put :
    {V : Type 0} (t : Assoc V) (k : Bytes) (v : Option V) (j : Bytes)
    → contains j (names (put t k v)) ≡ (str_eq k j || contains j (names t))
names-put t k v j = ground (arith, names-without t k j)

abbrev pub assoc_table : HashTable
assoc_table = record {
  Table = Assoc;
  new = [];
  get = lookup;
  insert = put;
  remove = without;
  keys = names;
  get-new = λ j. refl;
  get-insert = lookup-put;
  get-remove = lookup-without;
  keys-new = refl;
  keys-insert = names-put;
  keys-remove = names-without;
}

-- Nodes by falling priority.
abbrev pub ranked : {A : Type 0} → List (A × ℕ) → A → ℕ → List (A × ℕ)
ranked [] a n = (a, n) ∷ []
ranked ((b, m) ∷ q) a n = if ltb m n then (a, n) ∷ (b, m) ∷ q else (b, m) ∷ ranked q a n

abbrev pub first : {A : Type 0} → List (A × ℕ) → Option A × List (A × ℕ)
first [] = (none, [])
first ((a, n) ∷ q) = (some a, q)

abbrev pub ranked_queue : PriQueue
ranked_queue = record {
  Queue = λ A. List (A × ℕ);
  new = [];
  insert = ranked;
  pop = first;
  pop-new = refl;
  pop-insert_new = λ a n. refl;
}
