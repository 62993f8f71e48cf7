-- ===== src/Core/Tests.antt =====
-- Values of ALLOWED_ORIGINS.
use swiftpaste.Prelude.{◌≡◌, refl, [], ◌∷◌, ◌==◌}
use swiftpaste.Core.Origins.{
  other_value, lstrip, rstrip, strip, ends_with, without_last, split_commas, items,
  parse_allowed_origins,
}

parse_allowed_origins_runs :
    parse_allowed_origins (λ n. n == b' ') (other_value " ['http://a', http://b,] ")
    ≡ "http://a" ∷ "http://b" ∷ []
unfolding lstrip rstrip strip ends_with without_last split_commas items parse_allowed_origins
parse_allowed_origins_runs = refl

wildcard_runs : parse_allowed_origins (λ n. n == b' ') (other_value "[\"*\"]") ≡ "*" ∷ []
unfolding lstrip rstrip strip parse_allowed_origins
wildcard_runs = refl
