-- ===== src/External.antt =====
-- What the program uses of code that is not its own: the hash table (lib/Hash_Table.c, a copy of
-- https://github.com/larsendt/hashtable) and the priority queue (lib/pqueue.c, a copy of mitghi's).
-- Each is a record of the operations that the program calls, with the laws that it relies on.
use wallyd.Common.{ℕ, ◌≡◌, not, ◌&&◌, ◌||◌, Option, none, some, List, [], if◌then◌else◌}
use wallyd.Common.Str.{contains, Bytes, str_eq}

-- A value is a pointer, and NULL is `none`: `ht_get_simple` tells a key that is not there from one
-- with a NULL value by nothing. `keys` is what `ht_keys` writes, as many as `count` says. `ht_insert_simple` replaces the value of a key that is there.
pub record HashTable : Type 1 where
  pub Table : Type 0 → Type 0
  pub new : {V : Type 0} → Table V
  pub get : {V : Type 0} → Table V → Bytes → Option V
  pub insert : {V : Type 0} → Table V → Bytes → Option V → Table V
  pub remove : {V : Type 0} → Table V → Bytes → Table V
  pub keys : {V : Type 0} → Table V → List Bytes
  pub get-new : {V : Type 0} → (j : Bytes) → get (new {V = V}) j ≡ none
  pub get-insert :
      {V : Type 0}
      → (t : Table V) (k : Bytes) (v : Option V) (j : Bytes)
      → get (insert t k v) j ≡ (if str_eq k j then v else get t j)
  pub get-remove :
      {V : Type 0}
      → (t : Table V) (k j : Bytes) → get (remove t k) j ≡ (if str_eq k j then none else get t j)
  pub keys-new : {V : Type 0} → keys (new {V = V}) ≡ []
  pub keys-insert :
      {V : Type 0}
      → (t : Table V) (k : Bytes) (v : Option V) (j : Bytes)
      → contains j (keys (insert t k v)) ≡ (str_eq k j || contains j (keys t))
  pub keys-remove :
      {V : Type 0}
      → (t : Table V) (k j : Bytes)
      → contains j (keys (remove t k)) ≡ (not (str_eq k j) && contains j (keys t))

-- A heap of nodes with a priority. Where it is not empty `pop` returns one of the nodes.
pub record PriQueue : Type 1 where
  pub Queue : Type 0 → Type 0
  pub new : {A : Type 0} → Queue A
  pub insert : {A : Type 0} → Queue A → A → ℕ → Queue A
  pub pop : {A : Type 0} → Queue A → Option A × Queue A
  pub pop-new : {A : Type 0} → pop (new {A = A}) ≡ (none, new)
  pub pop-insert_new : {A : Type 0} → (a : A) (n : ℕ) → pop (insert new a n) ≡ (some a, new)
