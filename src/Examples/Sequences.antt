-- ===== src/Examples/Sequences.antt =====
-- Sequences of calls of src/common/vector.c and src/common/list.c at concrete inputs.
use sample_sds_storage.Base.{
  ℕ, ◌%◌, ◌≡◌, ◌⊎◌, ◌==◌, if◌then◌else◌, refl, Bool, true, false, none, some, List, [], ◌∷◌, arith,
  success, ok, fault,
}
use sample_sds_storage.Vector.{Vector, vector_init}
use sample_sds_storage.Vector.Contents.{Holds}
use sample_sds_storage.Vector.Calls
use sample_sds_storage.LinkedList.{Ptr, list_node, Heap, list_create, list_destroy}
use sample_sds_storage.LinkedList.Chain.{Cells, IsList, has}
use sample_sds_storage.LinkedList.Callback.{Released, list_destroy-values}
use sample_sds_storage.LinkedList.Calls as ListCalls

abbrev plenty : ℕ → Bool
plenty n = true

abbrev empty : Vector ℕ
empty = record { size = 0; cap = 0; tables = []; cb = false }

-- With a capacity of 1 the second push makes the block grow.
abbrev vector_calls : List (Calls.Call ℕ)
vector_calls =
    Calls.push 4 ∷ Calls.push 5 ∷ Calls.insert 0 6 ∷ Calls.read 0 ∷ Calls.read 1 ∷ Calls.read 2 ∷ []

abbrev heap : Heap ℕ
heap = record { lists = λ p. none; nodes = λ p. none }

-- The middle one of three nodes is taken out, and then the first.
abbrev list_calls : List (ListCalls.Call ℕ)
list_calls =
    ListCalls.append 3 30
    ∷ ListCalls.append 4 40
    ∷ ListCalls.append 5 50
    ∷ ListCalls.remove 4
    ∷ ListCalls.remove 3
    ∷ []

perform_all-replays_example :
    (vec : Vector ℕ) × (out : Vector ℕ) × (vector_init plenty (some empty) 1 false
      ≡ ok (success, some vec))
    × (Calls.perform_all plenty vec vector_calls ≡ ok (out, some 6 ∷ some 5 ∷ none ∷ []))
    × Holds (6 ∷ 5 ∷ []) out
perform_all-replays_example =
    Calls.perform_all-replays plenty (λ n. refl) vector_calls empty 1 false (omega arith)
      (omega arith) (omega arith) (omega arith)

call_all-replays_example :
    (start : Heap ℕ) × (g : Heap ℕ) × (list_create 50 heap ≡ ok (50, start))
    × (ListCalls.call_all 50 list_calls start ≡ ok (tt, g))
    × IsList g 50 ((5, 50) ∷ [])
    × ((a : Ptr) → has {A = ℕ} a ((5, 50) ∷ []) ≡ false → g.nodes a ≡ none)
call_all-replays_example =
    ListCalls.call_all-replays list_calls 50 heap (omega arith) (λ a. refl)
      ((omega arith, refl), ((omega arith, refl), ((omega arith, refl), (refl, (refl, tt)))))
      (omega arith)

-- Three nodes, in a list that has a callback.
abbrev three : Heap ℕ
three = record {
  lists =
      λ p. if p == 50 then some (record { head = 3; tail = 5; size = 3; has_cb = true }) else none;
  nodes = λ p.
      if p == 3
      then some (list_node 4 0 30)
      else if p == 4
      then some (list_node 5 3 40)
      else if p == 5
      then some (list_node 0 4 50)
      else none;
}

abbrev three_cells : Cells ℕ
three_cells = (3, 30) ∷ (4, 40) ∷ (5, 50) ∷ []

abbrev three-IsList : IsList three 50 three_cells
three-IsList = record {
  ne_null = omega arith;
  cb = true;
  header = refl;
  chain = (omega arith, refl, refl, (omega arith, refl, refl, (omega arith, refl, refl, tt)));
  count = omega arith;
}

list_destroy-values_example :
    ((3 % 2 ≡ 0) × (list_destroy 4 50 three ≡ fault))
    ⊎ ((3 % 2 ≡ 1) × Released 4 three 50 three_cells)
list_destroy-values_example =
    list_destroy-values 4 three 50 three_cells three-IsList refl (omega arith) (omega arith)
