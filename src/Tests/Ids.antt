-- ===== src/Tests/Ids.antt =====
-- An allocator of 16-bit ids: two are given out, one comes back and is given out again.
use fuxi_n.Prelude.{IsOn, IsDistinct, ℕ, ◌↔◌, List, [], ◌∷◌, arith}
use fuxi_n.IdAllocator.Active.{IsActive}
use fuxi_n.IdAllocator.History.{Call, allocates, deallocates, run, new_users, run-IsDistinct}

abbrev calls : List Call
calls = allocates ∷ allocates ∷ deallocates 0 ∷ allocates ∷ []

run-IsDistinct_again :
    IsDistinct (run 65536 (new_users 65536) calls).held
    × ((j : ℕ)
        → IsActive 65536 (run 65536 (new_users 65536) calls).allocator j
          ↔ IsOn j (run 65536 (new_users 65536) calls).held)
run-IsDistinct_again = run-IsDistinct 65536 (omega arith) calls (omega arith)
