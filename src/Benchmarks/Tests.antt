-- ===== src/Benchmarks/Tests.antt =====
-- The theorems on the smaller parts of src at concrete inputs.
use benchmark_fun.Common.{List, [], ◌∷◌}
use benchmark_fun.Benchmarks.Arena.{Arena, Request}

abbrev arena : Arena
arena = record { begin = 1000; end = 1001000; current = 1001 }

abbrev requests : List Request
requests =
    record { align = 8; size = 8; count = 3 }
    ∷ record { align = 1; size = 1; count = 5 }
    ∷ record { align = 4; size = 4; count = 1 }
    ∷ []
