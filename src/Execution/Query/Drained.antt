-- ===== src/Execution/Query/Drained.antt =====
-- An executor gives the rows that its state stands for, one after the other.
use resume_project.Common.{
  ℕ, zero, suc, ◌+◌, ◌≤◌, ◌<◌, ◌≡◌, refl, true, false, Option, none, some, List, [], ◌∷◌, length,
  arith, ok, Result-cases, Bool-cases, subst, ◌∙◌, inl, inr,
}
use resume_project.Execution.Tuple.{Doubles}
use resume_project.Execution.Query.{Row, Predicate, project, matches}
use resume_project.Execution.Query.Pull.{
  Executor, scanning, looking_up, filtering, projecting, sorting, aggregating, joining, Catalog,
  next, drain, look_up, take_row,
}
use resume_project.Execution.Query.Gives.{
  filter_rows, project_rows, rows_in, Answers, row_under, row_of, Gives, weight,
}

weight-positive : (e : Executor) → 0 < weight e
unfolding weight
weight-positive (scanning t rs) = omega arith
weight-positive (looking_up t x key true) = omega arith
weight-positive (looking_up t x key false) = omega arith
weight-positive (filtering c p) = omega arith
weight-positive (projecting c cols) = omega arith
weight-positive (sorting c keys rs) = omega arith
weight-positive (aggregating c specs groups rs) = omega arith
weight-positive (joining l r a b rs) = omega arith

module _ {W : Type 0} (d : Doubles) (catalog : Catalog W) (world : Answers catalog) where
  open world use {IsGood, keys, rows, finds, fetches}

  -- One call of `next`: the end, or a row, and behind it the rest.
  abbrev pub Yields : ℕ → Executor → List Row → W → Type 0
  Yields fuel e [] w =
      (f : Executor) × (v : W) × (next d catalog fuel e w ≡ (ok (none, f), v)) × IsGood v
  Yields fuel e (t ∷ ts) w =
      (f : Executor) × (v : W) × (next d catalog fuel e w ≡ (ok (some t, f), v))
      × IsGood v
      × Gives d catalog world f ts
      × (weight f < weight e)

  look_up-row_of :
      (t x key : ℕ) (w : W) (o : Option Row)
      → row_of d catalog world t x key ≡ ok o
      → IsGood w
      → (v : W) × (look_up d catalog t x key w ≡ (ok (o, looking_up t x key true), v)) × IsGood v
  unfolding look_up row_under
  look_up-row_of t x key w o e good = elim (Result-cases (keys x key)) [
    | inr (y, thrown) ↦ absurd (ground (arith, e, thrown))
    | inl (none, absent) ↦
        let (v, found, kept) = finds x key w none absent good in
        (v, simp (look_up, found) (ground (arith, e, absent)), kept)
    | inl (some r, present) ↦
        let (v, found, kept) = finds x key w (some r) present good in
        let (u, fetched, held) = fetches t r v o (ground (arith, e, present)) kept in
        (u, simp (look_up, found, fetched) refl, held)
  ]

  looks_up :
      (fuel t x key : ℕ) (w v : W) (o : Option Row)
      → look_up d catalog t x key w ≡ (ok (o, looking_up t x key true), v)
      → IsGood v
      → Yields (suc fuel) (looking_up t x key false) (rows_in o) w
  unfolding next weight
  looks_up fuel t x key w v none e good = (looking_up t x key true, v, e, good)
  looks_up fuel t x key w v (some row) e good =
      (looking_up t x key true, v, e, good, refl, omega arith)

  -- A materialized executor.
  takes :
      (fuel : ℕ) (e : Executor) (rest : List Row → Executor) (rs : List Row) (w : W)
      → next d catalog (suc fuel) e w ≡ (ok (take_row rs rest), w)
      → ((ts : List Row) → Gives d catalog world (rest ts) ts)
      → ((ts : List Row) → weight (rest ts) ≡ length ts + 1)
      → weight e ≡ length rs + 1
      → IsGood w
      → Yields (suc fuel) e rs w
  takes fuel e rest [] w step gives weighs own good = (rest [], w, step, good)
  takes fuel e rest (t ∷ ts) w step gives weighs own good =
      (rest ts, w, step, good, gives ts, omega (arith, weighs ts, own))

  projects :
      (fuel : ℕ) (c : Executor) (cols : List ℕ) (rs out : List Row) (w : W)
      → Yields fuel c rs w
      → project_rows cols rs ≡ ok out
      → Yields (suc fuel) (projecting c cols) out w
  unfolding next weight project_rows
  projects fuel c cols [] [] w (f, v, step, good) e =
      (projecting f cols, v, simp (next, step) refl, good)
  projects fuel c cols [] (o ∷ os) w y e = absurd (ground arith)
  projects fuel c cols (t ∷ ts) out w (f, v, step, good, gives, less) e =
      elim (Result-cases (project cols t)) [
        | inr (x, bad) ↦ absurd (ground (arith, bad))
        | inl (vs, fine) ↦ elim (Result-cases (project_rows cols ts)) [
          | inr (x, bad) ↦ absurd (ground (arith, fine, bad))
          | inl (rest, rows) ↦
              let whole : vs ∷ rest ≡ out = ground (arith, fine, rows) in
              subst (λ o. Yields (suc fuel) (projecting c cols) o w) whole
                (
                  projecting f cols,
                  v,
                  simp (next, step, fine) refl,
                  good,
                  (ts, gives, rows),
                  omega (arith, less),
                )
        ]
      ]

  -- The loop of a filter goes on where a row does not match.
  filters :
      (fuel : ℕ) (c : Executor) (p : Predicate) (rs out : List Row) (w : W)
      → Yields fuel c rs w
      → filter_rows d p rs ≡ ok out
      → ((f : Executor) (ts : List Row) (os : List Row) (v : W)
          → Gives d catalog world f ts
          → filter_rows d p ts ≡ ok os
          → weight f < weight c
          → IsGood v
          → Yields fuel (filtering f p) os v)
      → Yields (suc fuel) (filtering c p) out w
  unfolding next weight filter_rows
  filters fuel c p [] [] w (f, v, step, good) e on =
      (filtering f p, v, simp (next, step) refl, good)
  filters fuel c p [] (o ∷ os) w y e on = absurd (ground arith)
  filters fuel c p (t ∷ ts) out w (f, v, step, good, gives, less) e on =
      elim (Result-cases (matches d p t)) [
        | inr (x, bad) ↦ absurd (ground (arith, bad))
        | inl (b, fine) ↦ elim (Result-cases (filter_rows d p ts)) [
          | inr (x, bad) ↦ absurd (ground (arith, fine, bad))
          | inl (rest, rows) ↦ elim (Bool-cases b) [
            | inl fits ↦
                let whole : t ∷ rest ≡ out = ground (arith, fine, rows, fits) in
                subst (λ o. Yields (suc fuel) (filtering c p) o w) whole
                  (
                    filtering f p,
                    v,
                    simp (next, step, fine, fits) refl,
                    good,
                    (ts, gives, rows),
                    omega (arith, less),
                  )
            | inr skips ↦
                let whole : rest ≡ out = ground (arith, fine, rows, skips) in
                let same : next d catalog (suc fuel) (filtering c p) w
                    ≡ next d catalog fuel (filtering f p) v =
                  simp (next, step, fine, skips) refl in
                subst (λ o. Yields (suc fuel) (filtering c p) o w) whole
                  (further fuel c f p rest w v same less (on f ts rest v gives rows less good))
          ]
        ]
      ]
    where
      further :
          (n : ℕ) (c f : Executor) (p : Predicate) (os : List Row) (w v : W)
          → next d catalog (suc n) (filtering c p) w ≡ next d catalog n (filtering f p) v
          → weight f < weight c
          → Yields n (filtering f p) os v
          → Yields (suc n) (filtering c p) os w
      further n c f p [] w v same less (g, u, step, good) = (g, u, same ∙ step, good)
      further n c f p (o ∷ os) w v same less (g, u, step, good, gives, lower) =
          (g, u, same ∙ step, good, gives, omega (arith, less, lower))

  -- With fuel for its weight, an executor yields the rows that it stands for.
  pub next-Yields :
      (fuel : ℕ) (e : Executor) (out : List Row) (w : W)
      → Gives d catalog world e out
      → weight e ≤ fuel
      → IsGood w
      → Yields fuel e out w
  unfolding next weight
  next-Yields zero e out w gives enough good = absurd (omega (arith, weight-positive e, enough))
  next-Yields (suc fuel) (scanning t rs) out w same enough good =
      subst (λ o. Yields (suc fuel) (scanning t rs) o w) same
        (takes fuel (scanning t rs) (scanning t) rs w refl (λ ts. refl) (λ ts. refl) refl good)
  next-Yields (suc fuel) (looking_up t x key true) out w same enough good =
      subst (λ o. Yields (suc fuel) (looking_up t x key true) o w) same
        (looking_up t x key true, w, refl, good)
  next-Yields (suc fuel) (looking_up t x key false) out w (o, found, same) enough good =
      let (v, step, kept) = look_up-row_of t x key w o found good in
      subst (λ r. Yields (suc fuel) (looking_up t x key false) r w) same
        (looks_up fuel t x key w v o step kept)
  next-Yields (suc fuel) (filtering c p) out w (rs, gives, kept) enough good =
      filters fuel c p rs out w (next-Yields fuel c rs w gives (omega (arith, enough)) good) kept
        (λ f ts os v more rest less held.
          next-Yields fuel (filtering f p) os v (ts, more, rest) (omega (arith, enough, less)) held)
  next-Yields (suc fuel) (projecting c cols) out w (rs, gives, kept) enough good =
      projects fuel c cols rs out w (next-Yields fuel c rs w gives (omega (arith, enough)) good)
        kept
  next-Yields (suc fuel) (sorting c keys rs) out w same enough good =
      subst (λ o. Yields (suc fuel) (sorting c keys rs) o w) same
        (takes fuel (sorting c keys rs) (sorting c keys) rs w refl (λ ts. refl) (λ ts. refl) refl
          good)
  next-Yields (suc fuel) (aggregating c specs groups rs) out w same enough good =
      subst (λ o. Yields (suc fuel) (aggregating c specs groups rs) o w) same
        (takes fuel (aggregating c specs groups rs) (aggregating c specs groups) rs w refl
          (λ ts. refl) (λ ts. refl) refl good)
  next-Yields (suc fuel) (joining l r a b rs) out w same enough good =
      subst (λ o. Yields (suc fuel) (joining l r a b rs) o w) same
        (takes fuel (joining l r a b rs) (joining l r a b) rs w refl (λ ts. refl) (λ ts. refl) refl
          good)

  -- With fuel above its weight, an executor is drained of exactly the rows that it stands for.
  pub drain-Gives :
      (fuel : ℕ) (e : Executor) (out : List Row) (w : W)
      → Gives d catalog world e out
      → weight e < fuel
      → IsGood w
      → (f : Executor) × (v : W) × (drain d catalog fuel e w ≡ (ok (out, f), v)) × IsGood v
  unfolding drain
  drain-Gives zero e out w gives enough good = absurd (omega (arith, enough))
  drain-Gives (suc fuel) e [] w gives enough good =
      let (f, v, step, kept) = next-Yields fuel e [] w gives (omega (arith, enough)) good in
      (f, v, simp (drain, step) refl, kept)
  drain-Gives (suc fuel) e (t ∷ ts) w gives enough good =
      let (f, v, step, kept, more, less) =
        next-Yields fuel e (t ∷ ts) w gives (omega (arith, enough)) good in
      let (g, u, rest, held) = drain-Gives fuel f ts v more (omega (arith, enough, less)) kept in
      (g, u, simp (drain, step, rest) refl, held)
