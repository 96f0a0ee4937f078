-- ===== src/Deploy/Stack/Prepared.antt =====
-- What `DeployStack` has done when it comes to its marker.
use mksrv.Common.{
  ◌≡◌, refl, ◌⊎◌, inl, inr, true, false, some, List, All, All-imp, Text, txt, text_eq, has_prefix,
  prefix_rest, arith, slice_stable, text_lt, keys,
}
use mksrv.Common.Effect.{require, update, Effect, Effect-require, Effect-map, Effect-bind}
use mksrv.Deploy.Host.{write, reload_caddy, start, Hosts, Run}
use mksrv.Deploy.Host.Laws.{
  Follows, Happened-Follows, IsAcked, Acked, order, update-Effect, same_result,
}
use mksrv.Deploy.Files.{drop_empty, sorted_paths, quadlet_units, file_mode}
use mksrv.Deploy.Options.{
  Options, Engine, caddy_fragment_dir, quadlet_dir, is_edge_fragment, visible_secrets, content_of,
  note_hooks,
}
use mksrv.Deploy.Stack.{
  push_secrets, push_all, pre_pull, put_files, reload_edge, apply_units, run_hooks, install,
  prepare,
}
use mksrv.Deploy.Stack.Placing.{
  IsPushed, IsMatched, IsInPlace, IsInPlace-Follows, push_all-Effect, pre_pull-Effect,
  put_files-Effect,
}
use mksrv.Deploy.Stack.Steps.{
  IsStarted, IsRenewed, IsRenewed-Follows, IsHooked, IsHealthy, IsHooked-Follows,
  apply_units-Effect, reload_edge-Effect, run_hooks-Effect, check_health-Effect,
}

-- A fragment for Caddy is no unit file.
fragment-ne-quadlet :
    (opts : Options) (dst : Text)
    → is_edge_fragment opts dst ≡ true
    → has_prefix dst quadlet_dir ≡ false
unfolding is_edge_fragment has_prefix txt text_eq
fragment-ne-quadlet opts dst h =
    let p : has_prefix dst caddy_fragment_dir ≡ true = ground (arith, h) in
    let (r, e) = prefix_rest dst caddy_fragment_dir p in rw e refl

module _ (hosts : Hosts) (engine : Engine) (opts : Options) where
  -- The file has its content: it was written, or the host said that it has it.
  abbrev pub IsPlaced : List (Text × Text) → Text → Run → Type 0
  IsPlaced files dst s =
      IsMatched hosts engine opts dst (content_of files dst) s
      ⊎ Acked (is_edge_fragment opts dst) (write dst (content_of files dst) (file_mode dst)) s

  -- All that a deployment does before it writes its marker.
  pub record IsPrepared (s : Run) : Type 0 where
    pub rendered : List (Text × Text)
    pub is_rendered : engine.render (visible_secrets opts) ≡ some rendered
    pub secrets :
        All (λ leaf. IsPushed hosts engine opts leaf s) (slice_stable text_lt (keys opts.secrets))
    pub files :
        All (λ dst. IsPlaced (drop_empty rendered) dst s) (sorted_paths (drop_empty rendered))
    pub edge :
        Acked true reload_caddy s
        ⊎ All
            (λ dst.
              is_edge_fragment opts dst ≡ true
              → IsMatched hosts engine opts dst (content_of (drop_empty rendered) dst) s)
            (sorted_paths (drop_empty rendered))
    pub units :
        IsRenewed hosts engine opts (quadlet_units (drop_empty rendered)) s
        ⊎ (IsStarted hosts engine opts (quadlet_units (drop_empty rendered)) s
            × All
                (λ dst.
                  has_prefix dst quadlet_dir ≡ true
                  → IsMatched hosts engine opts dst (content_of (drop_empty rendered) dst) s)
                (sorted_paths (drop_empty rendered)))
    pub hooks : All (λ h. IsHooked hosts engine opts h s) opts.hooks
    pub health : All (λ check. IsHealthy hosts engine opts check s) opts.stack.health

  IsMatched-Follows :
      (dst content : Text) (s t : Run)
      → Follows s t
      → IsMatched hosts engine opts dst content s
      → IsMatched hosts engine opts dst content t
  IsMatched-Follows dst content s t f (reply, answered, matched) =
      (reply, Happened-Follows _ s t f answered, matched)

  IsPlaced-Follows :
      (files : List (Text × Text)) (dst : Text) (s t : Run)
      → Follows s t
      → IsInPlace hosts engine opts dst (content_of files dst) s
      → IsPlaced files dst t
  IsPlaced-Follows files dst s t f (inl matched) = inl (IsMatched-Follows dst _ s t f matched)
  IsPlaced-Follows files dst s t f (inr written) = inr (Happened-Follows _ s t f written.0)

  -- Where the flag for Caddy was not set, no fragment was written.
  edge-matched :
      (files : List (Text × Text)) (dst : Text) (s : Run)
      → s.edge_changed ≡ false
      → IsInPlace hosts engine opts dst (content_of files dst) s
      → is_edge_fragment opts dst ≡ true
      → IsMatched hosts engine opts dst (content_of files dst) s
  edge-matched files dst s same (inl matched) h = matched
  edge-matched files dst s same (inr written) h =
      let set = written.2 (fragment-ne-quadlet opts dst h) h in cc

  quadlet-matched :
      (files : List (Text × Text)) (dst : Text) (s : Run)
      → s.quadlet_changed ≡ false
      → IsInPlace hosts engine opts dst (content_of files dst) s
      → has_prefix dst quadlet_dir ≡ true
      → IsMatched hosts engine opts dst (content_of files dst) s
  quadlet-matched files dst s same (inl matched) h = matched
  quadlet-matched files dst s same (inr written) h = let set = written.1 h in cc

  settle_edge :
      (files : List (Text × Text)) (paths : List Text) (s t u : Run)
      → Follows s u
      → Follows t u
      → All (λ dst. IsInPlace hosts engine opts dst (content_of files dst) s) paths
      → Acked true reload_caddy t ⊎ (s.edge_changed ≡ false)
      → Acked true reload_caddy u
        ⊎ All
            (λ dst.
              is_edge_fragment opts dst ≡ true
              → IsMatched hosts engine opts dst (content_of files dst) u)
            paths
  settle_edge files paths s t u f g placed (inl told) = inl (Happened-Follows _ t u g told)
  settle_edge files paths s t u f g placed (inr same) = inr (
      All-imp (λ dst p h. IsMatched-Follows dst _ s u f (edge-matched files dst s same p h)) paths
        placed)

  settle_units :
      (files : List (Text × Text)) (paths : List Text) (s t u : Run)
      → Follows s u
      → Follows t u
      → All (λ dst. IsInPlace hosts engine opts dst (content_of files dst) s) paths
      → IsRenewed hosts engine opts (quadlet_units files) t
        ⊎ ((s.quadlet_changed ≡ false) × IsStarted hosts engine opts (quadlet_units files) t)
      → IsRenewed hosts engine opts (quadlet_units files) u
        ⊎ (IsStarted hosts engine opts (quadlet_units files) u
            × All
                (λ dst.
                  has_prefix dst quadlet_dir ≡ true
                  → IsMatched hosts engine opts dst (content_of files dst) u)
                paths)
  settle_units files paths s t u f g placed (inl renewed) =
      inl (IsRenewed-Follows hosts engine opts (quadlet_units files) t u g renewed)
  settle_units files paths s t u f g placed (inr (same, started)) = inr (
    All-imp (λ unit. Happened-Follows (IsAcked false (start unit)) t u g) (quadlet_units files)
        started,
    All-imp (λ dst p h. IsMatched-Follows dst _ s u f (quadlet-matched files dst s same p h)) paths
        placed,
  )

  pub prepare-Effect :
      (s : Run) → Effect Follows (λ _ t. IsPrepared t) s (prepare hosts engine opts s)
  unfolding prepare install push_secrets note_hooks
  prepare-Effect s =
      let leaves = slice_stable text_lt (keys opts.secrets) in
      Effect-bind order (λ _ t. All (λ leaf. IsPushed hosts engine opts leaf t) leaves) _
        (push_all hosts engine opts leaves) _ s (push_all-Effect hosts engine opts leaves s)
        λ _ s1 f1 secrets.
          Effect-bind order (λ rendered t. engine.render (visible_secrets opts) ≡ some rendered) _
            (require (engine.render (visible_secrets opts))) _ s1
            (Effect-require order
              (λ rendered t. engine.render (visible_secrets opts) ≡ some rendered)
              (engine.render (visible_secrets opts)) s1 (λ rendered e. e))
            λ rendered s2 f2 is_rendered.
              let files = drop_empty rendered in
              let paths = sorted_paths files in
              Effect-bind order (λ _ t. Unit {0}) _ (pre_pull hosts engine opts opts.stack.apps) _
                s2 (pre_pull-Effect hosts engine opts opts.stack.apps s2)
                λ _ s3 f3 _.
                  Effect-bind order
                    (λ _ t.
                      All (λ dst. IsInPlace hosts engine opts dst (content_of files dst) t) paths)
                    _ (put_files hosts engine opts files paths) _ s3
                    (put_files-Effect hosts engine opts files paths s3)
                    λ _ s4 f4 placed.
                      Effect-bind order
                        (λ _ t. Acked true reload_caddy t ⊎ (s4.edge_changed ≡ false)) _
                        (reload_edge hosts engine opts) _ s4
                        (reload_edge-Effect hosts engine opts s4)
                        λ _ s5 f5 edge.
                          Effect-bind order
                            (λ _ t.
                              IsRenewed hosts engine opts (quadlet_units files) t
                              ⊎ ((s5.quadlet_changed ≡ false)
                                  × IsStarted hosts engine opts (quadlet_units files) t))
                            _ (apply_units hosts engine opts (quadlet_units files)) _ s5
                            (apply_units-Effect hosts engine opts (quadlet_units files) s5)
                            λ _ s6 f6 units.
                              Effect-bind order
                                (λ _ t. All (λ h. IsHooked hosts engine opts h t) opts.hooks) _
                                (run_hooks hosts engine opts opts.hooks) _ s6
                                (run_hooks-Effect hosts engine opts opts.hooks s6)
                                λ ran s7 f7 hooks.
                                  Effect-bind order (λ _ t. Unit {0}) _ (update (note_hooks ran)) _
                                    s7
                                    (update-Effect (λ t. Unit {0}) (note_hooks ran) s7
                                      (same_result s7 _) tt)
                                    λ _ s8 f8 _.
                                      Effect-map order
                                        (λ _ t.
                                          All (λ check. IsHealthy hosts engine opts check t)
                                            opts.stack.health)
                                        _ s8 _
                                        (check_health-Effect hosts engine opts opts.stack.health s8)
                                        λ _ s9 f9 health.
                                          let later = order.later in
                                          let from7 = later s7 s8 s9 f8 f9 in
                                          let from6 = later s6 s7 s9 f7 from7 in
                                          let from5 = later s5 s6 s9 f6 from6 in
                                          let from4 = later s4 s5 s9 f5 from5 in
                                          let from1 =
                                            later s1 s2 s9 f2
                                              (later s2 s3 s9 f3 (later s3 s4 s9 f4 from4)) in
                                          record {
                                            rendered = rendered;
                                            is_rendered = is_rendered;
                                            secrets =
                                                All-imp (λ leaf. Happened-Follows _ s1 s9 from1)
                                                  leaves secrets;
                                            files =
                                                All-imp
                                                  (λ dst. IsPlaced-Follows files dst s4 s9 from4)
                                                  paths placed;
                                            edge =
                                                settle_edge files paths s4 s5 s9 from4 from5 placed
                                                  edge;
                                            units =
                                                settle_units files paths s5 s6 s9 from5 from6
                                                  (All-imp
                                                    (λ dst.
                                                      IsInPlace-Follows hosts engine opts dst
                                                        (content_of files dst) s4 s5 f5)
                                                    paths placed)
                                                  units;
                                            hooks =
                                                All-imp
                                                  (λ h.
                                                    IsHooked-Follows hosts engine opts h s7 s9
                                                      from7)
                                                  opts.hooks hooks;
                                            health = health;
                                          }
