-- ===== src/Hpda/Engine/Tests.antt =====
-- A source 1, two processors 2 and 3 above it, and their outputs 4 and 5; 2 was added twice.
use yee_z_privacy_computing.Base.{
  [], some, ℕ, suc, ◌+◌, ◌≡◌, refl, not, ◌&&◌, List, ◌∷◌, ltb, ◌==◌, if◌then◌else◌, length,
}
use yee_z_privacy_computing.Hpda.Keys.{mem}
use yee_z_privacy_computing.Hpda.Engine.{
  build_graph, find_outputs, link_functors, link_inputs, outputs_in, remove_functor, remove_loop,
  erase_first,
}
use yee_z_privacy_computing.Hpda.Engine.Outputs.{is_read, find_outputs-mem}
use yee_z_privacy_computing.Hpda.Engine.Removal.{without, remove_functor-without}

abbrev preds_of : ℕ → List ℕ
preds_of f = if f == 4 then 2 ∷ [] else if f == 5 then 3 ∷ [] else if ltb 1 f then 1 ∷ [] else []

abbrev functors : List ℕ
functors = 1 ∷ 2 ∷ 2 ∷ 3 ∷ 4 ∷ 5 ∷ []

outputs_run : find_outputs (build_graph preds_of functors) ≡ (4 ∷ 5 ∷ [])
unfolding link_functors link_inputs outputs_in
outputs_run = refl

removed_run : remove_functor 2 functors ≡ some (1 ∷ 3 ∷ 4 ∷ 5 ∷ [])
unfolding remove_loop erase_first
removed_run = refl

find_outputs-mem_example :
    mem 4 (find_outputs (build_graph preds_of functors))
    ≡ (mem 4 functors && not (is_read preds_of functors 4))
find_outputs-mem_example = find_outputs-mem preds_of functors 4

remove_functor-without_example :
    (remove_functor 2 functors ≡ some (without 2 functors))
    × (remove_loop (3 + suc (length functors)) 2 functors ≡ some (without 2 functors))
remove_functor-without_example = remove_functor-without 2 functors 3
