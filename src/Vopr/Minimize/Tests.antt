-- ===== src/Vopr/Minimize/Tests.antt =====
-- The minimizer on a run that fails as long as operation 1 is there.
use tak_rs.Common.{ℕ, Bool, true, false, not, List, ◌≡◌, refl}
use tak_rs.Vopr.Minimize.{
  Skip, minimize, try_candidates, try_candidate, IsMinimized, minimize-IsMinimized,
}

abbrev needs_one : Skip → Bool
needs_one skip = not (skip 1)

abbrev nothing : Skip
nothing i = false

abbrev itself : List ℕ → List ℕ
itself xs = xs

abbrev failing : Bool → Bool
failing b = b

minimize-IsMinimized_example :
    IsMinimized failing needs_one itself 3 nothing (minimize failing needs_one itself 3 nothing)
minimize-IsMinimized_example =
    minimize-IsMinimized failing needs_one itself 3 nothing (λ i xs. refl) refl

-- Operations 0 and 2 are skipped, and 1 is kept.
test_minimize :
    ((minimize failing needs_one itself 3 nothing).skip 0 ≡ true)
    × ((minimize failing needs_one itself 3 nothing).skip 1 ≡ false)
    × ((minimize failing needs_one itself 3 nothing).skip 2 ≡ true)
    × ((minimize failing needs_one itself 3 nothing).passes_attempted ≡ 3)
unfolding minimize try_candidates try_candidate
test_minimize = (refl, refl, refl, refl)
