-- ===== src/Tests/Branches.antt =====
-- The check of shared prefixes on the server of CacheChecks.
use nix_strix_halo.Prelude.{◌≡◌, refl, true, All}
use nix_strix_halo.Bench.Script.{gives}
use nix_strix_halo.Bench.Server.{wait_healthy}
use nix_strix_halo.Bench.Numbers.{max_distance, distances, max_of}
use nix_strix_halo.Bench.Branches.{branches, run}
use nix_strix_halo.Bench.Branches.Agreement.{IsRepeatable, IsRepeated, IsReused, run-AreSame}
use nix_strix_halo.Tests.CacheChecks.{Node, units, node, booting}

abbrev used_up : Node
used_up = record { polls = 0; is_warm = true }

run_test : run units node 1 booting ≡ gives tt used_up
unfolding run wait_healthy max_distance distances max_of
run_test = refl

run-AreSame_example :
    IsRepeatable units node 1
    × IsRepeated units node 1
    × All (λ b. IsReused units node 1 (b.prompt)) branches
run-AreSame_example = run-AreSame units node 1 booting used_up run_test
