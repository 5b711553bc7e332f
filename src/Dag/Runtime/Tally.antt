-- ===== src/Dag/Runtime/Tally.antt =====
-- `stats` of src/dag/runtime.rs counts every node once.
use aros_kernel.Prelude.{ℕ, ◌+◌, ◌≡◌, refl, List, [], ◌∷◌, arith, length, count_if}
use aros_kernel.Prelude.Map.{values, length-values}
use aros_kernel.Dag.Graph.{Node, NodeStatus, DagGraph, status_eq, node_count, done_count}
use aros_kernel.Dag.Runtime.{DagStats, tally, tally_all, stats}

abbrev with_status : NodeStatus → List Node → ℕ
with_status s ns = count_if (λ (n : Node). status_eq n.status s) ns

-- Each count is the number of nodes in that status (blocked nodes count as pending), and the
-- total is the number of nodes.
pub record Counts (s t : DagStats) (ns : List Node) : Type 0 where
  pub total : t.total ≡ s.total + length ns
  pub pending :
      t.pending ≡ s.pending + with_status NodeStatus.pending ns + with_status NodeStatus.blocked ns
  pub in_progress : t.in_progress ≡ s.in_progress + with_status NodeStatus.in_progress ns
  pub done : t.done ≡ s.done + with_status NodeStatus.done ns
  pub failed : t.failed ≡ s.failed + with_status NodeStatus.failed ns

-- Every node is in one of the five states.
each :
    (ns : List Node)
    → length ns
      ≡ with_status NodeStatus.pending ns
        + with_status NodeStatus.blocked ns
        + with_status NodeStatus.in_progress ns
        + with_status NodeStatus.done ns
        + with_status NodeStatus.failed ns
each [] = refl
each (n ∷ ns) = ground (arith, each ns)

tally_all-Counts : (s : DagStats) (ns : List Node) → Counts s (tally_all s ns) ns
unfolding tally_all tally
tally_all-Counts s [] = omega arith
tally_all-Counts s (n ∷ ns) = ground (arith, tally_all-Counts (tally s n.status) ns)

-- Blocked nodes count as pending; apart from that each counter of `stats` is the number of nodes
-- in its status, the counters add up to the total, and the total and `done` are what `node_count`
-- and `done_count` of the graph say.
pub stats-Counts :
    (g : DagGraph)
    → Counts
        (record { total = 0; pending = 0; in_progress = 0; done = 0; failed = 0 })
        (stats g)
        (values g.nodes)
      × ((stats g).total
          ≡ (stats g).pending + (stats g).in_progress + (stats g).done + (stats g).failed)
      × ((stats g).total ≡ node_count g)
      × ((stats g).done ≡ done_count g)
unfolding stats node_count done_count
stats-Counts g =
    let c =
      tally_all-Counts (record { total = 0; pending = 0; in_progress = 0; done = 0; failed = 0 })
        (values g.nodes) in
    (c, omega (arith, each (values g.nodes)), omega (arith, length-values g.nodes), omega arith)
