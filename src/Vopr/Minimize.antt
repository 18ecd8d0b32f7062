-- ===== src/Vopr/Minimize.antt =====
-- crates/tak-bus-vopr/src/minimize.rs: the one pass that tries to skip each operation of a failing
-- run. The run and the shuffle of the candidates are parameters; the set of skipped indices is its
-- test, and the order in which it is written out is left out.
mod Tests
use tak_rs.Common.{
  ℕ, zero, suc, ◌+◌, ◌≤◌, ◌<◌, Bool, true, false, not, ◌&&◌, List, [], ◌∷◌, ◌==◌, ==_iff, ltb,
  if◌then◌else◌, count, length, select, count-select, nat_eq, ◌=?◌, =?_iff, ◌≡◌, refl, arith,
  Bool-cases, inl, inr,
}
use mathlib.Core.Path.{ap, sym, ◌∙◌, subst, fun_ext}

abbrev pub Skip : Type 0
Skip = ℕ → Bool

abbrev pub insert : ℕ → Skip → Skip
insert c skip i = if i == c then true else skip i

abbrev pub remove : ℕ → Skip → Skip
remove c skip i = if i == c then false else skip i

-- `0..n`, from the end.
abbrev pub below : ℕ → List ℕ
below zero = []
below (suc n) = n ∷ below n

module _ {O : Type 0} (is_failed : O → Bool) (run : Skip → O) (shuffle : List ℕ → List ℕ) where
  pub record Minimized : Type 0 where
    pub skip : Skip
    pub passes_attempted : ℕ
    pub final_outcome : O

  -- One candidate: skip it, and take that back if the run passes.
  unfoldable pub try_candidate : ℕ → Minimized → Minimized
  try_candidate c m =
      let skip = insert c m.skip in
      if is_failed (run skip)
      then record {
        skip = skip;
        passes_attempted = m.passes_attempted + 1;
        final_outcome = run skip;
      }
      else record m { skip = remove c skip; passes_attempted = m.passes_attempted + 1 }

  unfoldable pub try_candidates : List ℕ → Minimized → Minimized
  unfolding try_candidate
  try_candidates [] m = m
  try_candidates (c ∷ cs) m = try_candidates cs (try_candidate c m)

  unfoldable pub minimize : ℕ → Skip → Minimized
  unfolding try_candidates
  minimize ops skip =
      let unchanged : Minimized = record {
        skip = skip;
        passes_attempted = 0;
        final_outcome = run skip;
      } in
      if not (is_failed (run skip))
      then unchanged
      else try_candidates (shuffle (select (λ i. not (skip i)) (below ops))) unchanged

  -- The outcome is that of the run with the set, it failed, and the set has grown from a first one.
  pub record IsFailing (first : Skip) (m : Minimized) : Type 0 where
    pub outcome : m.final_outcome ≡ run m.skip
    pub fails : is_failed m.final_outcome ≡ true
    pub grown : (i : ℕ) → (first i && not (m.skip i)) ≡ false

  -- For a set between the two the run failed, and skipping an operation as well made it pass.
  pub record IsNeeded (first last : Skip) (c : ℕ) : Type 0 where
    pub tried : Skip
    pub above : (i : ℕ) → (first i && not (tried i)) ≡ false
    pub below_last : (i : ℕ) → (tried i && not (last i)) ≡ false
    pub failed : is_failed (run tried) ≡ true
    pub passes : is_failed (run (insert c tried)) ≡ false

  remove-insert : (c : ℕ) (skip : Skip) → skip c ≡ false → remove c (insert c skip) ≡ skip
  remove-insert c skip h = fun_ext λ i. elim (Bool-cases (i == c)) [
    | inl e ↦ rw e (sym h ∙ ap skip (sym ((==_iff i c).0 e)))
    | inr e ↦ rw e refl
  ]

  try_candidate-IsFailing :
      (first : Skip) (c : ℕ) (m : Minimized)
      → m.skip c ≡ false
      → IsFailing first m
      → IsFailing first (try_candidate c m)
  unfolding try_candidate
  try_candidate-IsFailing first c m h f = elim (Bool-cases (is_failed (run (insert c m.skip)))) [
    | inl e ↦ rw e (record { outcome = refl; fails = e; grown = λ i. ground (arith, f.grown i) })
    | inr e ↦
        rw (e, remove-insert c m.skip h)
          (record { outcome = f.outcome; fails = f.fails; grown = f.grown })
  ]

  -- A candidate touches no other index.
  try_candidate_other :
      (c i : ℕ) (m : Minimized) → (i == c) ≡ false → (try_candidate c m).skip i ≡ m.skip i
  unfolding try_candidate
  try_candidate_other c i m d = elim (Bool-cases (is_failed (run (insert c m.skip)))) [
    | inl e ↦ rw (e, d) refl
    | inr e ↦ rw (e, d) refl
  ]

  try_candidates-IsFailing :
      (first : Skip) (cs : List ℕ) (m : Minimized)
      → ((c : ℕ) → count c cs ≤ (if m.skip c then 0 else 1))
      → IsFailing first m
      → IsFailing first (try_candidates cs m)
  unfolding try_candidates
  try_candidates-IsFailing first [] m h f = f
  try_candidates-IsFailing first (c ∷ cs) m h f =
      try_candidates-IsFailing first cs (try_candidate c m)
        (λ i. ground (arith, h i, h c, =?_iff i c, =?_iff c c, try_candidate_other c i m))
        (try_candidate-IsFailing first c m (ground (arith, h c, =?_iff c c)) f)

  -- A set of skipped operations only grows.
  try_candidates-grows :
      (cs : List ℕ) (m : Minimized)
      → ((c : ℕ) → count c cs ≤ (if m.skip c then 0 else 1))
      → IsFailing m.skip m
      → (i : ℕ) → (m.skip i && not ((try_candidates cs m).skip i)) ≡ false
  try_candidates-grows cs m h f i = (try_candidates-IsFailing m.skip cs m h f).grown i

  try_candidate_restored :
      (c : ℕ) (m : Minimized)
      → m.skip c ≡ false
      → is_failed (run (insert c m.skip)) ≡ false
      → (try_candidate c m).skip ≡ m.skip
  unfolding try_candidate
  try_candidate_restored c m h e = rw e (remove-insert c m.skip h)

  try_candidate_kept :
      (c : ℕ) (m : Minimized)
      → is_failed (run (insert c m.skip)) ≡ true
      → (try_candidate c m).skip c ≡ true
  unfolding try_candidate
  try_candidate_kept c m e = rw e (ground (arith, =?_iff c c))

  -- A candidate that was tried is skipped, or the run passes without it.
  try_candidate-IsNeeded :
      (first : Skip) (c : ℕ) (m : Minimized)
      → m.skip c ≡ false
      → IsFailing first m
      → (last : Skip) → ((i : ℕ) → ((try_candidate c m).skip i && not (last i)) ≡ false)
      → last c ≡ false
      → IsNeeded first last c
  try_candidate-IsNeeded first c m h f last up out =
      elim (Bool-cases (is_failed (run (insert c m.skip)))) [
        | inl e ↦ absurd (ground (arith, out, try_candidate_kept c m e, up c))
        | inr e ↦ record {
          tried = m.skip;
          above = f.grown;
          below_last = λ i.
              ap (λ (s : Skip). s i && not (last i)) (sym (try_candidate_restored c m h e)) ∙ up i;
          failed = ap is_failed (sym f.outcome) ∙ f.fails;
          passes = e;
        }
      ]

  fewer :
      (c : ℕ) (cs : List ℕ) (m : Minimized)
      → ((i : ℕ) → count i (c ∷ cs) ≤ (if m.skip i then 0 else 1))
      → (i : ℕ) → count i cs ≤ (if (try_candidate c m).skip i then 0 else 1)
  fewer c cs m h i = ground (arith, h i, h c, =?_iff i c, =?_iff c c, try_candidate_other c i m)

  free :
      (c : ℕ) (cs : List ℕ) (m : Minimized)
      → count c (c ∷ cs) ≤ (if m.skip c then 0 else 1)
      → m.skip c ≡ false
  free c cs m h = ground (arith, h, =?_iff c c)

  try_candidates-IsNeeded :
      (first : Skip) (cs : List ℕ) (m : Minimized)
      → ((c : ℕ) → count c cs ≤ (if m.skip c then 0 else 1))
      → IsFailing first m
      → (c : ℕ) → count c cs ≡ 1
      → (try_candidates cs m).skip c ≡ false
      → IsNeeded first (try_candidates cs m).skip c
  unfolding try_candidates
  try_candidates-IsNeeded first [] m h f c there out = absurd (omega (arith, there))
  try_candidates-IsNeeded first (x ∷ cs) m h f c there out = elim (Bool-cases (c == x)) [
    | inl e ↦
        subst (IsNeeded first (try_candidates cs (try_candidate x m)).skip) (sym ((==_iff c x).0 e))
          (try_candidate-IsNeeded first x m (free x cs m (h x)) f _
            (try_candidates-grows cs (try_candidate x m) (fewer x cs m h) next.1)
            (ap (try_candidates cs (try_candidate x m)).skip (sym ((==_iff c x).0 e)) ∙ out))
    | inr e ↦
        try_candidates-IsNeeded first cs (try_candidate x m) (fewer x cs m h) next.0 c
          (ground (arith, there, e, =?_iff c x)) out
  ]
    where
      next :
          IsFailing first (try_candidate x m)
          × IsFailing (try_candidate x m).skip (try_candidate x m)
      next =
          let g = try_candidate-IsFailing first x m (free x cs m (h x)) f in
          (g, record { outcome = g.outcome; fails = g.fails; grown = λ i. ground arith })

  try_candidates-attempts :
      (cs : List ℕ) (m : Minimized)
      → (try_candidates cs m).passes_attempted ≡ m.passes_attempted + length cs
  unfolding try_candidates try_candidate
  try_candidates-attempts [] m = omega arith
  try_candidates-attempts (c ∷ cs) m =
      ground (arith, try_candidates-attempts cs (try_candidate c m))

  -- Only candidates are touched.
  try_candidates_other :
      (cs : List ℕ) (i : ℕ) (m : Minimized)
      → count i cs ≡ 0
      → (try_candidates cs m).skip i ≡ m.skip i
  unfolding try_candidates
  try_candidates_other [] i m h = refl
  try_candidates_other (c ∷ cs) i m h =
      try_candidates_other cs i (try_candidate c m) (ground (arith, h))
      ∙ try_candidate_other c i m (ground (arith, h, =?_iff i c))

  count-below : (i n : ℕ) → count i (below n) ≡ (if ltb i n then 1 else 0)
  count-below i zero = ground arith
  count-below i (suc n) = ground (arith, count-below i n, =?_iff i n)

  abbrev candidates : ℕ → Skip → List ℕ
  candidates ops skip = shuffle (select (λ i. not (skip i)) (below ops))

  count-candidates :
      (ops : ℕ) (skip : Skip)
      → ((i : ℕ) (xs : List ℕ) → count i (shuffle xs) ≡ count i xs)
      → (i : ℕ) → count i (candidates ops skip) ≡ (if ltb i ops && not (skip i) then 1 else 0)
  count-candidates ops skip keeps i = ground (
    arith,
    keeps i (select (λ i. not (skip i)) (below ops)),
    count-select (λ i. not (skip i)) i (below ops),
    count-below i ops,
  )

  -- What the minimizer promises for a first set: each operation of the run that is not skipped was
  -- tried, and there are no others.
  pub record IsMinimized (ops : ℕ) (first : Skip) (m : Minimized) : Type 0 where
    pub failing : IsFailing first m
    pub needed : (i : ℕ) → i < ops → m.skip i ≡ false → IsNeeded first m.skip i
    pub beyond : (i : ℕ) → ops ≤ i → m.skip i ≡ first i
    pub attempts : m.passes_attempted ≡ length (candidates ops first)

  -- For a run that fails, the minimizer ends with a set of skipped operations that has those of the
  -- input and with which the run still fails, and it reports the outcome of the run with that set and
  -- as many attempts as there are candidates. For each operation of the run that is not skipped in
  -- the end there is a set, between the input and the result, with which the run fails, and passes
  -- if the operation is skipped too; and no number beyond the operations is added. The shuffle is assumed
  -- to keep each candidate as often as it is there.
  pub minimize-IsMinimized :
      (ops : ℕ) (skip : Skip)
      → ((i : ℕ) (xs : List ℕ) → count i (shuffle xs) ≡ count i xs)
      → is_failed (run skip) ≡ true
      → IsMinimized ops skip (minimize ops skip)
  unfolding minimize
  minimize-IsMinimized ops skip keeps fails = rw fails (record {
    failing = try_candidates-IsFailing skip (candidates ops skip) start once start_fails;
    needed = λ i h out.
        try_candidates-IsNeeded skip (candidates ops skip) start once start_fails i
          (ground (arith, h, not_first i out, count-candidates ops skip keeps i)) out;
    beyond = λ i h.
        try_candidates_other (candidates ops skip) i start
          (ground (arith, h, count-candidates ops skip keeps i));
    attempts = omega (arith, try_candidates-attempts (candidates ops skip) start);
  })
    where
      start : Minimized
      start = record { skip = skip; passes_attempted = 0; final_outcome = run skip }

      once : (i : ℕ) → count i (candidates ops skip) ≤ (if skip i then 0 else 1)
      once i = ground (arith, count-candidates ops skip keeps i)

      start_fails : IsFailing skip start
      start_fails = record { outcome = refl; fails = fails; grown = λ i. ground arith }

      not_first :
          (i : ℕ) → (try_candidates (candidates ops skip) start).skip i ≡ false → skip i ≡ false
      not_first i out = ground (
        arith,
        out,
        (try_candidates-IsFailing skip (candidates ops skip) start once start_fails).grown i,
      )
