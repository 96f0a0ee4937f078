-- ===== src/Cli/Order/Sorted.antt =====
-- `orderedStacks` is a topological sort of the stacks of a host.
use mksrv.Common.{
  suc, ◌≡◌, sym, ◌∙◌, inl, inr, false, List, [], arith, Bool-cases, length, Text, text_lt, contains,
  slice_stable, contains-slice_stable,
}
use mksrv.Model.Types.{Stack}
use mksrv.Workspace.Report.{Report}
use mksrv.Workspace.Report.Laws.{errors}
use mksrv.Workspace.Cycles.{check_catalog_cycles}
use mksrv.Workspace.Cycles.Graph.{IsAcyclic}
use mksrv.Workspace.Cycles.Theorem.{check_catalog_cycles_iff}
use mksrv.Cli.Order.{Walk, visit_all, visit, ordered_stacks}
use mksrv.Cli.Order.Invariant.{unseen_le_length, IsOrdered, Ends}
use mksrv.Cli.Order.Search.{visit_all-Ends, visit-Ends}

module _ (catalog : List (Text × Stack)) (assigned : List Text) where
  -- The stacks of the order are the assigned ones, and each stands once, after those of its
  -- dependencies that are assigned.
  pub record IsTopological (order : List Text) : Type 0 where
    pub same : (n : Text) → contains order n ≡ contains assigned n
    pub ordered : IsOrdered catalog assigned [] order

  abbrev start : Walk
  start = record { seen = λ _. false; order = [] }

  search-Ends :
      IsAcyclic catalog
      → let names = slice_stable text_lt assigned in
        Ends catalog assigned names start
          (visit_all (visit catalog assigned (suc (length assigned))) names start)
  search-Ends acyclic =
      visit_all-Ends catalog assigned (visit catalog assigned (suc (length assigned)))
        (suc (length assigned)) (visit-Ends catalog assigned acyclic _) _ start
        (omega (arith, unseen_le_length start assigned)) (λ n h g k. cc k.begun)
        (record {
          ordered = unfold IsOrdered in tt;
          seen_order = λ n h. unfold contains in cc h;
          wanted_order = λ n h. unfold contains in cc h;
        })

  -- Where the check of the catalog finds no cycle, `orderedStacks` lists the stacks that a host is
  -- assigned, each once, and each after those of its direct dependencies that the host carries too.
  pub ordered_stacks-IsTopological :
      (report : Report)
      → errors (check_catalog_cycles catalog report) ≡ errors report
      → IsTopological (ordered_stacks catalog assigned)
  unfolding ordered_stacks
  ordered_stacks-IsTopological report accepted =
      let all = search-Ends ((check_catalog_cycles_iff catalog report).0 accepted) in
      record {
        same = λ n. elim (Bool-cases (contains assigned n)) [
          | inl h ↦ all.done n (rw contains-slice_stable h) h ∙ sym h
          | inr h ↦ elim (Bool-cases (contains (ordered_stacks catalog assigned) n)) [
            | inl k ↦ cc (all.inv.wanted_order n k)
            | inr k ↦ k ∙ sym h
          ]
        ];
        ordered = all.inv.ordered;
      }
