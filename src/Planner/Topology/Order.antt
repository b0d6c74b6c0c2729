-- ===== src/Planner/Topology/Order.antt =====
-- Lists of nodes in which every dependency comes earlier, and how such lists are put together.
use fetech.Prelude.{
  String, ◌≡◌, refl, true, List, [], ◌∷◌, ◌++◌, arith, elem, all, All, All-map, eq_iff,
}
use fetech.Models.Plan.{PlanNode}
use fetech.Planner.Stages.{last_id}

-- `seen` are the ids before the list.
unfoldable pub Ordered : List String → List PlanNode → Type 0
Ordered seen [] = Unit
Ordered seen (n ∷ ns) = (all (λ d. elem d seen) n.dependencies ≡ true) × Ordered (n.id ∷ seen) ns

-- The ids that stand before what follows the list.
abbrev pub after : List String → List PlanNode → List String
after seen [] = seen
after seen (n ∷ ns) = after (n.id ∷ seen) ns

pub Ordered-append :
    (seen : List String) (ms ns : List PlanNode)
    → Ordered seen ms
    → Ordered (after seen ms) ns
    → Ordered seen (ms ++ ns)
unfolding Ordered
Ordered-append seen [] ns h k = k
Ordered-append seen (m ∷ ms) ns h k = (h.0, Ordered-append (m.id ∷ seen) ms ns h.1 k)

pub elem-after :
    (d : String) (seen : List String) (ns : List PlanNode)
    → elem d seen ≡ true
    → elem d (after seen ns) ≡ true
elem-after d seen [] h = h
elem-after d seen (n ∷ ns) h = elem-after d (n.id ∷ seen) ns (ground arith)

-- The id of the last node of a list is there after it; without one, the default is.
pub last_id-after :
    (d : String) (seen : List String) (ns : List PlanNode)
    → elem d seen ≡ true
    → elem (last_id d ns) (after seen ns) ≡ true
last_id-after d seen [] h = h
last_id-after d seen (n ∷ []) h = ground (arith, eq_iff n.id n.id)
last_id-after d seen (n ∷ m ∷ ns) h = last_id-after d (n.id ∷ seen) (m ∷ ns) (ground arith)

-- A node whose dependencies are all there.
unfoldable pub Waits : List String → PlanNode → Type 0
Waits seen n = all (λ d. elem d seen) n.dependencies ≡ true

all-more :
    (i : String) (seen ds : List String)
    → all (λ d. elem d seen) ds ≡ true
    → all (λ d. elem d (i ∷ seen)) ds ≡ true
all-more i seen [] h = refl
all-more i seen (d ∷ ds) h = ground (arith, all-more i seen ds)

Waits-more : (i : String) (seen : List String) (n : PlanNode) → Waits seen n → Waits (i ∷ seen) n
unfolding Waits
Waits-more i seen n h = all-more i seen n.dependencies h

-- Nodes that wait for what was there before the first of them.
pub Waits-Ordered :
    (seen : List String) (ns : List PlanNode) → All (Waits seen) ns → Ordered seen ns
unfolding Ordered Waits
Waits-Ordered seen [] h = tt
Waits-Ordered seen (n ∷ ns) h = (
  h.0,
  Waits-Ordered (n.id ∷ seen) ns
      (All-map (Waits seen) (Waits (n.id ∷ seen)) (Waits-more n.id seen) ns h.1),
)

pub after-append :
    (seen : List String) (ms ns : List PlanNode) → after seen (ms ++ ns) ≡ after (after seen ms) ns
after-append seen [] ns = refl
after-append seen (m ∷ ms) ns = after-append (m.id ∷ seen) ms ns

-- The ids of the nodes that are there so far.
abbrev pub so_far : List PlanNode → List String
so_far = after []

-- `nodes.extend`: what is added waits for what is there.
pub Ordered-extend :
    (ms ns : List PlanNode) → Ordered [] ms → Ordered (so_far ms) ns → Ordered [] (ms ++ ns)
Ordered-extend ms ns h k = Ordered-append [] ms ns h k

-- What was there is there after an extension, and so is what the extension adds.
pub so_far-old :
    (ms ns : List PlanNode) (d : String)
    → elem d (so_far ms) ≡ true
    → elem d (so_far (ms ++ ns)) ≡ true
so_far-old ms ns d h = rw (after-append [] ms ns) (elem-after d (so_far ms) ns h)

pub so_far-new :
    (ms ns : List PlanNode) (d : String)
    → elem d (after (so_far ms) ns) ≡ true
    → elem d (so_far (ms ++ ns)) ≡ true
so_far-new ms ns d h = rw (after-append [] ms ns) h
