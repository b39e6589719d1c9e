-- ===== src/Execution/Query/Refined.antt =====
-- A plan's executors compute the relation that the plan describes.
use resume_project.Common.{
  ℕ, zero, suc, ◌+◌, ◌≤◌, ◌<◌, ◌≡◌, refl, false, List, [], ◌∷◌, ◌++◌, length, arith, ok, err, ◌>>=◌,
}
use resume_project.Execution.Tuple.{Doubles}
use resume_project.Execution.Query.{Row, Outcome, sort_rows, aggregate_rows, join_row, join_rows}
use resume_project.Execution.Query.Pull.{
  Plan, seq_scan, index_scan, filter, projection, sort, aggregate, join, Executor, scanning,
  looking_up, filtering, projecting, sorting, aggregating, joining, Catalog, make_executor, drain,
  join_left, init, run,
}
use resume_project.Execution.Query.Gives.{
  filter_rows, project_rows, rows_in, Answers, row_of, Gives, weight,
}
use resume_project.Execution.Query.Drained.{next-Yields, drain-Gives}

module _ {W : Type 0} (d : Doubles) (catalog : Catalog W) (world : Answers catalog) where
  -- The relation of a plan, operator by operator.
  unfoldable pub eval : Plan → Outcome (List Row)
  eval (seq_scan t) = world.tables t
  eval (index_scan t x key) = row_of d catalog world t x key >>= λ o. ok (rows_in o)
  eval (filter c p) = eval c >>= filter_rows d p
  eval (projection c cols) = eval c >>= project_rows cols
  eval (sort c keys) = eval c >>= sort_rows d keys
  eval (aggregate c specs groups) = eval c >>= aggregate_rows d specs groups
  eval (join l r a b) = eval l >>= λ ls. eval r >>= λ rs. join_rows d a b ls rs

bind-ok :
    {A B : Type 0} (r : Outcome A) (f : A → Outcome B) (b : B)
    → (r >>= f) ≡ ok b
    → (a : A) × (r ≡ ok a) × (f a ≡ ok b)
bind-ok (ok a) f b e = (a, refl, e)
bind-ok (err x) f b e = absurd (ground arith)

module _ {W : Type 0} (d : Doubles) (catalog : Catalog W) (world : Answers catalog) where
  open world use {IsGood}

  -- The loop over the left rows.
  join_left-Gives :
      (fuel a b : ℕ) (rs : List Row) (l : Executor) (ls out : List Row) (w : W)
      → Gives d catalog world l ls
      → join_rows d a b ls rs ≡ ok out
      → weight l < fuel
      → IsGood w
      → (f : Executor) × (v : W) × (join_left d catalog fuel a b rs l w ≡ (ok (out, f), v))
        × IsGood v
  unfolding join_left join_rows
  join_left-Gives zero a b rs l ls out w gives e enough good = absurd (omega (arith, enough))
  join_left-Gives (suc fuel) a b rs l [] [] w gives e enough good =
      let (f, v, step, kept) =
        next-Yields d catalog world fuel l [] w gives (omega (arith, enough)) good in
      (f, v, simp (join_left, step) refl, kept)
  join_left-Gives (suc fuel) a b rs l [] (o ∷ os) w gives e enough good = absurd (ground arith)
  join_left-Gives (suc fuel) a b rs l (t ∷ ts) out w gives e enough good =
      let (joined, first, behind) =
        bind-ok (join_row d a b t rs) (λ j. join_rows d a b ts rs >>= λ rest. ok (j ++ rest)) out
          e in
      let (rest, more, whole) =
        bind-ok (join_rows d a b ts rs) (λ rest. ok (joined ++ rest)) out behind in
      let (f, v, step, kept, left, less) =
        next-Yields d catalog world fuel l (t ∷ ts) w gives (omega (arith, enough)) good in
      let (g, u, loop, held) =
        join_left-Gives fuel a b rs f ts rest v left more (omega (arith, enough, less)) kept in
      let same : joined ++ rest ≡ out = ground (arith, whole) in
      (g, u, simp (join_left, step, first, loop, same) refl, held)

  -- `init` with enough fuel makes an executor that gives `out`.
  record IsStarted (fuel : ℕ) (plan : Plan) (out : List Row) (n : ℕ) (w : W) : Type 0 where
    executor : Executor
    after : W
    returns : init d catalog fuel (make_executor plan) w ≡ (ok executor, after)
    good : IsGood after
    gives : Gives d catalog world executor out
    light : weight executor ≤ n

  abbrev Starts : Plan → List Row → Type 0
  Starts plan out =
      (n : ℕ) × ((fuel : ℕ) (w : W) → n ≤ fuel → IsGood w → IsStarted fuel plan out n w)

  -- A child that starts is drained.
  drained :
      (plan : Plan) (out : List Row) (n fuel : ℕ) (w : W)
      → n < fuel
      → IsStarted fuel plan out n w
      → (e f : Executor) × (u v : W) × (init d catalog fuel (make_executor plan) w ≡ (ok e, u))
        × (drain d catalog fuel e u ≡ (ok (out, f), v))
        × IsGood v
  drained plan out n fuel w enough s =
      let (f, v, e, held) =
        drain-Gives d catalog world fuel s.executor out s.after s.gives
          (omega (arith, enough, s.light)) s.good in
      (s.executor, f, s.after, v, s.returns, e, held)

  behind_drained :
      (c plan : Plan) (mid out : List Row) (make : Executor → List Row → Executor)
      → Starts c mid
      → ((fuel : ℕ) (w u v : W) (e f : Executor)
          → init d catalog fuel (make_executor c) w ≡ (ok e, u)
          → drain d catalog fuel e u ≡ (ok (mid, f), v)
          → init d catalog fuel (make_executor plan) w ≡ (ok (make f out), v))
      → ((f : Executor) → Gives d catalog world (make f out) out)
      → ((f : Executor) → weight (make f out) ≡ length out + 1)
      → Starts plan out
  behind_drained c plan mid out make (n, start) step gives weighs = (
    n + length out + 1,
    λ fuel w enough good.
        let (e, f, u, v, begun, loop, held) =
          drained c mid n fuel w (omega (arith, enough))
            (start fuel w (omega (arith, enough)) good) in
        record {
          executor = make f out;
          after = v;
          returns = step fuel w u v e f begun loop;
          good = held;
          gives = gives f;
          light = omega (arith, weighs f);
        },
  )

  starts : (plan : Plan) (out : List Row) → eval d catalog world plan ≡ ok out → Starts plan out
  unfolding eval init make_executor weight
  starts (seq_scan t) out e = (
    length out + 1,
    λ fuel w enough good.
        let (v, scanned, held) = world.scans t w out e good in
        record {
          executor = scanning t out;
          after = v;
          returns = simp (init, scanned) refl;
          good = held;
          gives = refl;
          light = omega arith;
        },
  )
  starts (index_scan t x key) out e =
      let (o, found, same) = bind-ok (row_of d catalog world t x key) (λ o. ok (rows_in o)) out e in
      (
        2,
        λ fuel w enough good. record {
          executor = looking_up t x key false;
          after = w;
          returns = refl;
          good = good;
          gives = (o, found, ground (arith, same));
          light = omega arith;
        },
      )
  starts (filter c p) out e =
      let (mid, first, kept) = bind-ok (eval d catalog world c) (filter_rows d p) out e in
      let (n, start) = starts c mid first in
      (
        n + 1,
        λ fuel w enough good.
            let s = start fuel w (omega (arith, enough)) good in
            record {
              executor = filtering s.executor p;
              after = s.after;
              returns = simp (init, s.returns) refl;
              good = s.good;
              gives = (mid, s.gives, kept);
              light = omega (arith, s.light);
            },
      )
  starts (projection c cols) out e =
      let (mid, first, kept) = bind-ok (eval d catalog world c) (project_rows cols) out e in
      let (n, start) = starts c mid first in
      (
        n + 1,
        λ fuel w enough good.
            let s = start fuel w (omega (arith, enough)) good in
            record {
              executor = projecting s.executor cols;
              after = s.after;
              returns = simp (init, s.returns) refl;
              good = s.good;
              gives = (mid, s.gives, kept);
              light = omega (arith, s.light);
            },
      )
  starts (sort c keys) out e =
      let (mid, first, kept) = bind-ok (eval d catalog world c) (sort_rows d keys) out e in
      behind_drained c (sort c keys) mid out (λ f rows. sorting f keys rows) (starts c mid first)
        (λ fuel w u v x f begun loop. simp (init, begun, loop, kept) refl) (λ f. refl) (λ f. refl)
  starts (aggregate c specs groups) out e =
      let (mid, first, kept) =
        bind-ok (eval d catalog world c) (aggregate_rows d specs groups) out e in
      behind_drained c (aggregate c specs groups) mid out
        (λ f rows. aggregating f specs groups rows) (starts c mid first)
        (λ fuel w u v x f begun loop. simp (init, begun, loop, kept) refl) (λ f. refl) (λ f. refl)
  starts (join l r a b) out e =
      let (ls, left, behind) =
        bind-ok (eval d catalog world l)
          (λ ls. eval d catalog world r >>= λ rs. join_rows d a b ls rs) out e in
      let (rs, right, joined) =
        bind-ok (eval d catalog world r) (λ rs. join_rows d a b ls rs) out behind in
      let (n, start_left) = starts l ls left in
      let (m, start_right) = starts r rs right in
      (
        n + m + length out + 1,
        λ fuel w enough good.
            let (e_r, f_r, u, v, begun, loop, held) =
              drained r rs m fuel w (omega (arith, enough))
                (start_right fuel w (omega (arith, enough)) good) in
            let s = start_left fuel v (omega (arith, enough)) held in
            let (f_l, x, looped, ended) =
              join_left-Gives fuel a b rs s.executor ls out s.after s.gives joined
                (omega (arith, s.light, enough)) s.good in
            record {
              executor = joining f_l f_r a b out;
              after = x;
              returns = simp (init, begun, loop, s.returns, looped) refl;
              good = ended;
              gives = refl;
              light = omega arith;
            },
      )

  -- Over tables and indexes whose answers, where they give one, are alike at each call, when a
  -- plan, evaluated operator by operator on these answers, means the rows `out`, there is an
  -- amount of fuel from which on building, starting and draining its executors returns exactly
  -- `out`.
  pub run-eval :
      (plan : Plan) (out : List Row)
      → eval d catalog world plan ≡ ok out
      → (n : ℕ) × ((fuel : ℕ) (w : W)
          → n ≤ fuel
          → IsGood w
          → (v : W) × (run d catalog fuel plan w ≡ (ok out, v)) × IsGood v)
  unfolding run
  run-eval plan out e =
      let (n, start) = starts plan out e in
      (
        n + 1,
        λ fuel w enough good.
            let (x, f, u, v, begun, loop, held) =
              drained plan out n fuel w (omega (arith, enough))
                (start fuel w (omega (arith, enough)) good) in
            (v, simp (run, begun, loop) refl, held),
      )
