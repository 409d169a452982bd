-- ===== src/Bio/Tests.antt =====
-- The block cache after a boot.
use os_labs.Prelude.{ℕ, ◌≡◌, refl, false, []}
use os_labs.Panic.{Run, done, panics, out_of_fuel, ◌>>=◌}
use os_labs.Bio.{Bcache, binit, binit_loop, bget, bread, brelse, unlink, find_cached, find_unused}
use os_labs.Bio.Lru.{Given, bread-Given}

abbrev empty : Bcache
empty = record {
  buf = λ i. record { valid = false; dev = 0; blockno = 0; refcnt = 0; words = λ k. 0 };
  order = [];
  disk = λ b k. b;
}

abbrev index_of : Run (ℕ × Bcache) → ℕ
index_of (done (i, c)) = i
index_of panics = 100
index_of out_of_fuel = 200

-- The buffer that was released longest ago is taken.
takes_last :
    index_of (bread 1 33 (binit empty) >>= λ a. bread 1 34 (brelse a.0 a.1) >>= λ b. bread 1 33 b.1)
    ≡ 0
unfolding binit binit_loop bget bread brelse unlink find_cached find_unused
takes_last = refl

bread-Given_example : Given 1 33 (binit empty) (bread 1 33 (binit empty))
bread-Given_example = bread-Given 1 33 (binit empty)
