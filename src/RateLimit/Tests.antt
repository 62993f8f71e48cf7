-- ===== src/RateLimit/Tests.antt =====
-- The rate limiter at concrete inputs.
use swiftpaste.Prelude.{String, ◌≡◌, refl, none, some, List, [], ◌∷◌, arith}
use swiftpaste.Prelude.Int.{ℤ, pos, ◌+ℤ◌, ◌-ℤ◌, ◌*ℤ◌, ◌≤ℤ◌}
use swiftpaste.Core.Config.{defaults}
use swiftpaste.RateLimit.{token_bucket}
use swiftpaste.RateLimit.Bound.{grants}
use swiftpaste.RateLimit.Access.{Clocks}
use swiftpaste.RateLimit.Model.{hashes}
use swiftpaste.RateLimit.Shared.{IsNear, admitted, admitted_bound}

abbrev times : List ℤ
times = pos 101 ∷ pos 100 ∷ pos 101 ∷ pos 103 ∷ []

grants_runs : grants (pos 2) (pos 1) (pos 100 ∷ times) none ≡ 4
unfolding grants token_bucket ◌+ℤ◌ ◌-ℤ◌ ◌*ℤ◌
grants_runs = refl

-- The third request finds its bucket expired.
abbrev at_100 : Clocks
at_100 = record { server = pos 100; redis = 100400 }

abbrev at_99 : Clocks
at_99 = record { server = pos 99; redis = 100700 }

abbrev at_4000 : Clocks
at_4000 = record { server = pos 4000; redis = 4001000 }

abbrev visits : List (String × Clocks)
visits = ("alice", at_100) ∷ ("bob", at_99) ∷ ("alice", at_99) ∷ ("alice", at_4000) ∷ []

IsNear-100 : IsNear 2000 at_100
unfolding ◌+ℤ◌ ◌*ℤ◌
IsNear-100 = omega arith

IsNear-99 : IsNear 2000 at_99
unfolding ◌+ℤ◌ ◌*ℤ◌
IsNear-99 = omega arith

IsNear-4000 : IsNear 2000 at_4000
unfolding ◌+ℤ◌ ◌*ℤ◌
IsNear-4000 = omega arith

admitted_bound_example :
    pos (admitted hashes defaults (some 1) none "alice" visits (λ k. none))
    ≤ℤ pos 1 +ℤ ((pos 4000 -ℤ pos 100) *ℤ pos 1)
admitted_bound_example =
    admitted_bound hashes defaults (some 1) none 2000 (omega arith) (omega arith) "alice" visits
      (λ k. none) (pos 4000) at_100 (at_99 ∷ at_4000 ∷ []) (λ u. refl) refl
      (IsNear-100, (IsNear-99, (IsNear-4000, tt))) (omega arith)
