-- ===== src/Hpda/Engine.antt =====
-- hpda/src/engine/engine.cpp: the list of functors of an engine and the graph that `run` builds of it. A
-- functor is its number; `preds` gives `predecessors()` of each. An `unordered_map` is a list of its
-- entries and an `unordered_set` a list of its elements.
pub mod Outputs
pub mod Removal
pub mod Tests
use yee_z_privacy_computing.Base.{
  ℕ, zero, suc, Bool, true, false, Option, none, some, List, [], ◌∷◌, ◌++◌, ◌==◌, if◌then◌else◌,
  length, is_empty,
}
use yee_z_privacy_computing.Hpda.Keys.{mem}

abbrev pub add_functor : ℕ → List ℕ → List ℕ
add_functor f functors = functors ++ (f ∷ [])

-- The inner loop of `remove_functor`: `found`, and the vector without the first occurrence.
abbrev pub keep_before : ℕ → Bool × List ℕ → Bool × List ℕ
keep_before g (found, functors) = (found, g ∷ functors)

unfoldable pub erase_first : ℕ → List ℕ → Bool × List ℕ
erase_first f [] = (false, [])
erase_first f (g ∷ functors) =
    let rest = erase_first f functors in if g == f then (true, functors) else keep_before g rest

-- `while (found)`, over the rounds left, and `none` where they run out before the loop has ended.
unfoldable pub remove_loop : ℕ → ℕ → List ℕ → Option (List ℕ)
remove_loop zero f functors = none
remove_loop (suc n) f functors =
    let (found, functors') = erase_first f functors in
    let rest = remove_loop n f functors' in if found then rest else some functors'

abbrev pub remove_functor : ℕ → List ℕ → Option (List ℕ)
remove_functor f functors = remove_loop (suc (length functors)) f functors

abbrev pub FunctorMap : Type 0
FunctorMap = List (ℕ × List ℕ)

-- `insert(std::make_pair(k, std::unordered_set<functor *>()))` where `k` is not there.
abbrev pub ensure : ℕ → FunctorMap → FunctorMap
ensure k [] = (k, []) ∷ []
ensure k ((k', s) ∷ m) = if k' == k then (k', s) ∷ m else (k', s) ∷ ensure k m

abbrev pub insert_functor : ℕ → List ℕ → List ℕ
insert_functor f s = if mem f s then s else f ∷ s

-- `m[k].insert(f)` for a `k` that is there.
abbrev pub insert_at : ℕ → ℕ → FunctorMap → FunctorMap
insert_at k f [] = []
insert_at k f ((k', s) ∷ m) =
    if k' == k then (k', insert_functor f s) ∷ m else (k', s) ∷ insert_at k f m

pub record Graph : Type 0 where
  pub successors : FunctorMap
  pub predecessors : FunctorMap

-- The inner loop of `build_graph`, over the predecessors of `f`.
unfoldable pub link_inputs : ℕ → List ℕ → Graph → Graph
link_inputs f [] g = g
link_inputs f (input ∷ inputs) g = link_inputs f inputs (record {
  successors = insert_at input f (ensure input g.successors);
  predecessors = insert_at f input g.predecessors;
})

unfoldable pub link_functors : (ℕ → List ℕ) → List ℕ → Graph → Graph
link_functors preds [] g = g
link_functors preds (f ∷ functors) g = link_functors preds functors (
    link_inputs f (preds f)
      (record { successors = ensure f g.successors; predecessors = ensure f g.predecessors }))

abbrev pub build_graph : (ℕ → List ℕ) → List ℕ → Graph
build_graph preds functors =
    link_functors preds functors (record { successors = []; predecessors = [] })

-- In the order of the map, which is not specified.
unfoldable pub outputs_in : FunctorMap → List ℕ
outputs_in [] = []
outputs_in ((k, s) ∷ m) = let rest = outputs_in m in if is_empty s then k ∷ rest else rest

abbrev pub find_outputs : Graph → List ℕ
find_outputs g = outputs_in g.successors
