-- ===== src/Storage/Chunks.antt =====
-- What ReadAt of internal/storage/local.go reads.
use fssvrgo.Prelude.{
  ℕ, ◌+◌, ◌<◌, ◌≡◌, refl, true, false, leb, ltb, String, some, List, [], take, drop, lookup, arith,
}
use fssvrgo.Prelude.Int.{pos}
use fssvrgo.Storage.{Storage, good, read_at, first_fault}

pub read_at_good :
    (path : String) (n o : ℕ) (bytes : List ℕ) (st : Storage)
    → st.inside path ≡ true
    → st.faults ≡ []
    → lookup path st.files ≡ some bytes
    → 0 < n
    → (read_at path (pos n) (pos o) st).0 ≡ good (take n (drop o bytes))
unfolding read_at first_fault
read_at_good path n o bytes st inside clear there some_bytes =
    let sized : leb (n + 0) 0 ≡ false = ground arith in
    let placed : ltb (o + 0) 0 ≡ false = ground arith in
    rw (inside, sized, placed, clear, there) refl
