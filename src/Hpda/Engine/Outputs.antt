-- ===== src/Hpda/Engine/Outputs.antt =====
-- The outputs of a graph.
use yee_z_privacy_computing.Base.{
  ℕ, ◌≡◌, refl, sym, ap, ◌∙◌, inl, inr, Bool, true, false, not, ◌&&◌, ◌||◌, Option, none, some,
  List, [], ◌∷◌, arith, ◌==◌, if◌then◌else◌, ==_iff, Bool-cases, is_empty,
}
use yee_z_privacy_computing.Hpda.Keys.{mem, if_either}
use yee_z_privacy_computing.Hpda.Engine.{
  FunctorMap, ensure, insert_functor, insert_at, Graph, link_inputs, link_functors, build_graph,
  outputs_in, find_outputs,
}

-- Whether the functor has an entry, and whether that is empty.
abbrev entry : ℕ → FunctorMap → Option Bool
entry x [] = none
entry x ((k, s) ∷ m) = if k == x then some (is_empty s) else entry x m

abbrev is_free : Option Bool → Bool
is_free none = false
is_free (some b) = b

abbrev is_absent : Option Bool → Bool
is_absent none = true
is_absent (some b) = false

abbrev touched : Bool → Option Bool → Option Bool
touched b none = if b then some true else none
touched b (some e) = some e

abbrev used : Bool → Option Bool → Option Bool
used b none = none
used b (some e) = if b then some false else some e

touched_other : (o : Option Bool) → o ≡ touched false o
touched_other none = refl
touched_other (some e) = refl

touched_there :
    (b c e : Bool) (o : Option Bool)
    → b ≡ c
    → (if b then some e else o) ≡ touched c (if b then some e else o)
touched_there true c e o h = refl
touched_there false true e o h = absurd cc
touched_there false false e o h = touched_other o

touched_behind :
    (b c e : Bool) (o o' : Option Bool)
    → o' ≡ touched c o
    → (if b then some e else o') ≡ touched c (if b then some e else o)
touched_behind true c e o o' h = refl
touched_behind false c e o o' h = h

used_there :
    (b c e e' : Bool) (o : Option Bool)
    → b ≡ c
    → e' ≡ false
    → (if b then some e' else o) ≡ used c (if b then some e else o)
used_there true true e e' o h f = ap some f
used_there true false e e' o h f = absurd cc
used_there false true e e' o h f = absurd cc
used_there false false e e' none h f = refl
used_there false false e e' (some x) h f = refl

used_behind :
    (b c e : Bool) (o o' : Option Bool)
    → (b ≡ true → c ≡ false)
    → o' ≡ used c o
    → (if b then some e else o') ≡ used c (if b then some e else o)
used_behind true true e o o' n h = absurd (cc (n refl))
used_behind true false e o o' n h = refl
used_behind false c e o o' n h = h

entry-ensure : (x k : ℕ) (m : FunctorMap) → entry x (ensure k m) ≡ touched (k == x) (entry x m)
entry-ensure x k [] = refl
entry-ensure x k ((k', s) ∷ m) = elim (Bool-cases (k' == k)) [
  | inl e ↦ rw e (touched_there (k' == x) (k == x) (is_empty s) (entry x m) (ground arith))
  | inr e ↦ rw e (
      touched_behind (k' == x) (k == x) (is_empty s) (entry x m) (entry x (ensure k m))
        (entry-ensure x k m))
]

is_empty-insert_functor : (f : ℕ) (s : List ℕ) → is_empty (insert_functor f s) ≡ false
is_empty-insert_functor f [] = refl
is_empty-insert_functor f (g ∷ s) =
    if_either (λ l. is_empty l ≡ false) (mem f (g ∷ s)) (g ∷ s) (f ∷ g ∷ s) refl refl

entry-insert_at :
    (x k f : ℕ) (m : FunctorMap) → entry x (insert_at k f m) ≡ used (k == x) (entry x m)
entry-insert_at x k f [] = refl
entry-insert_at x k f ((k', s) ∷ m) = elim (Bool-cases (k' == k)) [
  | inl e ↦ rw e (
      used_there (k' == x) (k == x) (is_empty s) (is_empty (insert_functor f s)) (entry x m)
        (ground arith) (is_empty-insert_functor f s))
  | inr e ↦ rw e (
      used_behind (k' == x) (k == x) (is_empty s) (entry x m) (entry x (insert_at k f m))
        (λ there. ground arith) (entry-insert_at x k f m))
]

-- Each key once.
abbrev Unique : FunctorMap → Type 0
Unique [] = Unit
Unique ((k, s) ∷ m) = (entry k m ≡ none) × Unique m

touched-none : (k k' : ℕ) → (k == k') ≡ false → touched (k == k') none ≡ none
touched-none k k' e = ap (λ (b : Bool). touched b none) e

ensure-Unique : (k : ℕ) (m : FunctorMap) → Unique m → Unique (ensure k m)
ensure-Unique k [] u = (refl, tt)
ensure-Unique k ((k', s) ∷ m) (new, u) = elim (Bool-cases (k' == k)) [
  | inl e ↦ rw e (new, u)
  | inr e ↦ rw e (
    entry-ensure k' k m ∙ ap (touched (k == k')) new ∙ touched-none k k' (ground arith),
    ensure-Unique k m u,
  )
]

insert_at-Unique : (k f : ℕ) (m : FunctorMap) → Unique m → Unique (insert_at k f m)
insert_at-Unique k f [] u = tt
insert_at-Unique k f ((k', s) ∷ m) (new, u) = elim (Bool-cases (k' == k)) [
  | inl e ↦ rw e (new, u)
  | inr e ↦ rw e (entry-insert_at k' k f m ∙ ap (used (k == k')) new, insert_at-Unique k f m u)
]

-- The status of a functor's entry behind the loops.
abbrev linked : Bool → Option Bool → Option Bool
linked true o = some false
linked false o = o

edge : (b : Bool) (o : Option Bool) → used b (touched b o) ≡ linked b o
edge true none = refl
edge true (some e) = refl
edge false none = refl
edge false (some e) = refl

linked_twice : (a b c : Bool) (o : Option Bool) → b ≡ c → linked a (linked b o) ≡ linked (c || a) o
linked_twice a true true o e = linked_false a o
  where
    linked_false : (a : Bool) (o : Option Bool) → linked a (some false) ≡ linked true o
    linked_false true o = refl
    linked_false false o = refl
linked_twice a true false o e = absurd cc
linked_twice a false true o e = absurd cc
linked_twice a false false o e = refl

-- Some functor of the list has `x` above it.
abbrev pub is_read : (ℕ → List ℕ) → List ℕ → ℕ → Bool
is_read preds [] x = false
is_read preds (f ∷ functors) x = mem x (preds f) || is_read preds functors x

link_inputs-entry :
    (x f : ℕ) (inputs : List ℕ) (g : Graph)
    → entry x (link_inputs f inputs g).successors ≡ linked (mem x inputs) (entry x g.successors)
unfolding link_inputs
link_inputs-entry x f [] g = refl
link_inputs-entry x f (input ∷ inputs) g =
    link_inputs-entry x f inputs _
    ∙ ap (linked (mem x inputs)) (
        entry-insert_at x input f (ensure input g.successors)
        ∙ ap (used (input == x)) (entry-ensure x input g.successors)
        ∙ edge (input == x) (entry x g.successors))
    ∙ linked_twice (mem x inputs) (input == x) (x == input) (entry x g.successors) (ground arith)

link_inputs-Unique :
    (f : ℕ) (inputs : List ℕ) (g : Graph)
    → Unique g.successors
    → Unique (link_inputs f inputs g).successors
unfolding link_inputs
link_inputs-Unique f [] g u = u
link_inputs-Unique f (input ∷ inputs) g u =
    link_inputs-Unique f inputs _ (insert_at-Unique input f _ (ensure-Unique input g.successors u))

touched_twice :
    (here added : Bool) (o : Option Bool)
    → touched added (touched here o) ≡ touched (here || added) o
touched_twice true added none = refl
touched_twice false added none = refl
touched_twice here added (some e) = refl

built_step :
    (read reads here added : Bool) (o : Option Bool)
    → is_free (linked reads (touched added (linked read (touched here o))))
      ≡ is_free (linked (read || reads) (touched (here || added) o))
built_step true true here added o = refl
built_step true false here added o = refl
built_step false true here added o = refl
built_step false false here added o = ap is_free (touched_twice here added o)

link_functors-free :
    (preds : ℕ → List ℕ) (x : ℕ) (functors : List ℕ) (g : Graph)
    → is_free (entry x (link_functors preds functors g).successors)
      ≡ is_free
          (linked (is_read preds functors x) (touched (mem x functors) (entry x g.successors)))
unfolding link_functors
link_functors-free preds x [] g = ap is_free (touched_other (entry x g.successors))
link_functors-free preds x (f ∷ functors) g =
    link_functors-free preds x functors _
    ∙ ap
        (λ (o : Option Bool).
          is_free (linked (is_read preds functors x) (touched (mem x functors) o)))
        (link_inputs-entry x f (preds f) _
          ∙ ap (linked (mem x (preds f))) (entry-ensure x f g.successors))
    ∙ built_step (mem x (preds f)) (is_read preds functors x) (f == x) (mem x functors)
        (entry x g.successors)
    ∙ ap
        (λ (b : Bool). is_free (
          linked (mem x (preds f) || is_read preds functors x)
            (touched (b || mem x functors) (entry x g.successors))))
        same
  where
    same : (f == x) ≡ (x == f)
    same = ground arith

link_functors-Unique :
    (preds : ℕ → List ℕ) (functors : List ℕ) (g : Graph)
    → Unique g.successors
    → Unique (link_functors preds functors g).successors
unfolding link_functors
link_functors-Unique preds [] g u = u
link_functors-Unique preds (f ∷ functors) g u =
    link_functors-Unique preds functors _
      (link_inputs-Unique f (preds f) _ (ensure-Unique f g.successors u))

outputs_step :
    (b : Bool) (x k : ℕ) (outs : List ℕ)
    → mem x (if b then k ∷ outs else outs) ≡ ((b && (x == k)) || mem x outs)
outputs_step true x k outs = refl
outputs_step false x k outs = refl

free_here :
    (b : Bool) (x k : ℕ) (o : Option Bool)
    → o ≡ none
    → (k == x) ≡ true
    → ((b && (x == k)) || is_free o) ≡ is_free (if k == x then some b else o)
free_here b x k none n e = rw e (ground arith)
free_here b x k (some c) n e = absurd cc

free_elsewhere :
    (b : Bool) (x k : ℕ) (o : Option Bool)
    → (k == x) ≡ false
    → ((b && (x == k)) || is_free o) ≡ is_free (if k == x then some b else o)
free_elsewhere b x k o e = rw e (ap (λ (c : Bool). (b && c) || is_free o) other ∙ no_other b)
  where
    other : (x == k) ≡ false
    other = ground arith

    no_other : (b : Bool) → ((b && false) || is_free o) ≡ is_free o
    no_other true = refl
    no_other false = refl

free_where :
    (read added : Bool)
    → is_free (linked read (if added then some true else none)) ≡ (added && not read)
free_where true true = refl
free_where true false = refl
free_where false true = refl
free_where false false = refl

outputs_in-mem : (x : ℕ) (m : FunctorMap) → Unique m → mem x (outputs_in m) ≡ is_free (entry x m)
unfolding outputs_in
outputs_in-mem x [] u = refl
outputs_in-mem x ((k, s) ∷ m) (new, u) =
    outputs_step (is_empty s) x k (outputs_in m)
    ∙ ap (λ (r : Bool). (is_empty s && (x == k)) || r) (outputs_in-mem x m u)
    ∙ elim (Bool-cases (k == x)) [
      | inl e ↦
          free_here (is_empty s) x k (entry x m)
            (ap (λ (y : ℕ). entry y m) (sym ((==_iff k x).0 e)) ∙ new) e
      | inr e ↦ free_elsewhere (is_empty s) x k (entry x m) e
    ]

-- A functor is among the outputs exactly where it was added to the engine and no functor that was added
-- has it as a predecessor.
pub find_outputs-mem :
    (preds : ℕ → List ℕ) (functors : List ℕ) (x : ℕ)
    → mem x (find_outputs (build_graph preds functors))
      ≡ (mem x functors && not (is_read preds functors x))
find_outputs-mem preds functors x =
    outputs_in-mem x _ (link_functors-Unique preds functors _ tt)
    ∙ link_functors-free preds x functors (record { successors = []; predecessors = [] })
    ∙ free_where (is_read preds functors x) (mem x functors)
