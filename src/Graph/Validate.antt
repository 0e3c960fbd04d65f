-- ===== src/Graph/Validate.antt =====
-- `validateLocked` of internal/graphexec/executor.go. Its recursion and its loop over the ancestors
-- take fuel: two more than the graph has nodes, which bounds a path without a repeated node.
use lutra.Prelude.{ℕ, zero, suc, List, [], ◌∷◌, none, some, if◌then◌else◌, ◌==◌, elem, length}
use lutra.Prelude.Map.{Map, lookup}
use lutra.Graph.Types.{Failure, errors_new, Node, Executor}

pub data Verdict : Type 0 where
  valid : Verdict
  invalid : Failure → Verdict
  out_of_fuel : Verdict

-- `map[uuid.UUID]bool`, as the list of the keys that it holds `true` for.
unfoldable pub remove : ℕ → List ℕ → List ℕ
remove k [] = []
remove k (x ∷ xs) = if x == k then remove k xs else x ∷ remove k xs

pub record Marks : Type 0 where
  pub visiting : List ℕ
  pub visited : List ℕ

abbrev enter : ℕ → Marks → Marks
enter id m = record m { visiting = id ∷ m.visiting }

abbrev leave : ℕ → Marks → Marks
leave id m = record { visiting = remove id m.visiting; visited = id ∷ m.visited }

-- The loop over the prerequisites, given the recursive function.
unfoldable pub visit_all : (ℕ → Marks → Marks × Verdict) → List ℕ → Marks → Marks × Verdict
visit_all visit [] m = (m, valid)
visit_all visit (p ∷ ps) m =
    let (m', r) = visit p m in
    let rest = visit_all visit ps m' in
    elim r [ valid ↦ rest | invalid x ↦ (m', invalid x) | out_of_fuel ↦ (m', out_of_fuel) ]

abbrev finish_visit : ℕ → Marks × Verdict → Marks × Verdict
finish_visit id (m, valid) = (leave id m, valid)
finish_visit id (m, invalid x) = (m, invalid x)
finish_visit id (m, out_of_fuel) = (m, out_of_fuel)

unfoldable pub visit : Map Node → ℕ → ℕ → Marks → Marks × Verdict
unfolding visit_all remove
visit nodes zero id m = (m, out_of_fuel)
visit nodes (suc fuel) id m =
    if elem id m.visiting
    then (m, invalid (errors_new "graph contains a cycle"))
    else if elem id m.visited
    then (m, valid)
    else elim (lookup id nodes) [
      | none ↦ (m, invalid (errors_new "graph references a missing node"))
      | some n ↦ finish_visit id (visit_all (visit nodes fuel) n.prerequisites (enter id m))
    ]

-- The loop over the ancestors of `current`.
unfoldable pub climb : Map Node → ℕ → Node → List ℕ → Verdict
climb nodes zero current ancestors = out_of_fuel
climb nodes (suc fuel) current ancestors = elim current.parent_id [
  | none ↦ valid
  | some parent ↦ elim (lookup parent nodes) [
    | none ↦ invalid (errors_new "graph references a missing parent")
    | some p ↦
        let rest = climb nodes fuel p (current.id ∷ ancestors) in
        if elem current.id ancestors
        then invalid (errors_new "graph contains a parent cycle")
        else rest
  ]
]

abbrev fuel_for : Map Node → ℕ
fuel_for nodes = suc (suc (length nodes))

-- The loop over the nodes, in the order given.
unfoldable pub validate_from : Map Node → List ℕ → Marks → Marks × Verdict
unfolding visit climb
validate_from nodes [] m = (m, valid)
validate_from nodes (id ∷ order) m = elim (lookup id nodes) [
  | none ↦ validate_from nodes order m
  | some n ↦ elim (climb nodes (fuel_for nodes) n []) [
    | valid ↦
        let (m', r) = visit nodes (fuel_for nodes) id m in
        elim r [
          | valid ↦ validate_from nodes order m'
          | invalid x ↦ (m', invalid x)
          | out_of_fuel ↦ (m', out_of_fuel)
        ]
    | invalid x ↦ (m, invalid x)
    | out_of_fuel ↦ (m, out_of_fuel)
  ]
]

unfoldable pub validate : List ℕ → Executor → Verdict
unfolding validate_from
validate order e = elim e.err [
  | some x ↦ invalid x
  | none ↦ (validate_from e.nodes order (record { visiting = []; visited = [] })).1
]
