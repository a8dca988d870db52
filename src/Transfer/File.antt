-- ===== src/Transfer/File.antt =====
-- os.File.WriteAt and Truncate on the bytes of a file, as internal/service/transfer uses them.
use mathlib.Core.List.{append-nil}
use native.Mathlib.Nat.{add-zero}
use fssvrgo.Prelude.{
  Bool, ℕ, zero, suc, ◌+◌, ◌≤◌, ◌≡◌, refl, ap, List, get_elem?, get_elem?_past, ltb, leb, ◌&&◌, ◌-◌,
  if◌then◌else◌, [], ◌∷◌, ◌++◌, length, take, arith, max,
}

unfoldable pub overwrite : List ℕ → List ℕ → List ℕ
overwrite file [] = file
overwrite [] (d ∷ ds) = d ∷ ds
overwrite (b ∷ bs) (d ∷ ds) = d ∷ overwrite bs ds

unfoldable pub write_from : List ℕ → ℕ → List ℕ → List ℕ
unfolding overwrite
write_from file zero chunk = overwrite file chunk
write_from [] (suc o) chunk = 0 ∷ write_from [] o chunk
write_from (b ∷ bs) (suc o) chunk = b ∷ write_from bs o chunk

-- A write of no bytes changes nothing; a write past the end fills the gap with zeros.
unfoldable pub write_at : List ℕ → ℕ → List ℕ → List ℕ
unfolding write_from
write_at file o [] = file
write_at file o (d ∷ ds) = write_from file o (d ∷ ds)

zero_add : (n : ℕ) → 0 + n ≡ n
zero_add n = omega arith

shift : (o n : ℕ) → suc o + n ≡ suc (o + n)
shift o n = omega arith

pub take-length : {A : Type 0} (xs : List A) → take (length xs) xs ≡ xs
take-length [] = refl
take-length (x ∷ xs) = ap (λ l. x ∷ l) (take-length xs)

-- The bytes before a write stay, and the written bytes follow them.
take-overwrite : (file chunk : List ℕ) → take (length chunk) (overwrite file chunk) ≡ chunk
unfolding overwrite
take-overwrite file [] = refl
take-overwrite [] (d ∷ ds) = ap (λ l. d ∷ l) (take-length ds)
take-overwrite (b ∷ bs) (d ∷ ds) = ap (λ l. d ∷ l) (take-overwrite bs ds)

take-write_from :
    (file chunk : List ℕ) (o : ℕ)
    → o ≤ length file
    → take (o + length chunk) (write_from file o chunk) ≡ take o file ++ chunk
unfolding write_from
take-write_from file chunk zero h = rw (zero_add (length chunk)) (take-overwrite file chunk)
take-write_from [] chunk (suc o) h = absurd (omega arith)
take-write_from (b ∷ bs) chunk (suc o) h =
    rw (shift o (length chunk)) (ap (λ l. b ∷ l) (take-write_from bs chunk o (omega arith)))

pub take-write_at :
    (file chunk : List ℕ) (o : ℕ)
    → o ≤ length file
    → take (o + length chunk) (write_at file o chunk) ≡ take o file ++ chunk
unfolding write_at
take-write_at file [] o h = rw (append-nil (take o file), add-zero o)
take-write_at file (d ∷ ds) o h = take-write_from file (d ∷ ds) o h

take-write_from_before :
    (file chunk : List ℕ) (o n : ℕ)
    → n ≤ o
    → o ≤ length file
    → take n (write_from file o chunk) ≡ take n file
unfolding write_from
take-write_from_before file chunk o zero h k = refl
take-write_from_before file chunk zero (suc n) h k = absurd (omega arith)
take-write_from_before [] chunk (suc o) (suc n) h k = absurd (omega arith)
take-write_from_before (b ∷ bs) chunk (suc o) (suc n) h k =
    ap (λ l. b ∷ l) (take-write_from_before bs chunk o n (omega arith) (omega arith))

pub take-write_at_before :
    (file chunk : List ℕ) (o n : ℕ)
    → n ≤ o
    → o ≤ length file
    → take n (write_at file o chunk) ≡ take n file
unfolding write_at
take-write_at_before file [] o n h k = refl
take-write_at_before file (d ∷ ds) o n h k = take-write_from_before file (d ∷ ds) o n h k

length-overwrite :
    (file chunk : List ℕ) → length (overwrite file chunk) ≡ max (length file) (length chunk)
unfolding overwrite
length-overwrite file [] = omega arith
length-overwrite [] (d ∷ ds) = omega arith
length-overwrite (b ∷ bs) (d ∷ ds) = omega (arith, length-overwrite bs ds)

length-write_from :
    (file chunk : List ℕ) (o : ℕ)
    → o + length chunk ≤ length file
    → length (write_from file o chunk) ≡ length file
unfolding write_from
length-write_from file chunk zero h = omega (arith, length-overwrite file chunk)
length-write_from [] chunk (suc o) h = absurd (omega arith)
length-write_from (b ∷ bs) chunk (suc o) h = omega (arith, length-write_from bs chunk o)

-- A write within the file does not change its length.
pub length-write_at :
    (file chunk : List ℕ) (o : ℕ)
    → o + length chunk ≤ length file
    → length (write_at file o chunk) ≡ length file
unfolding write_at
length-write_at file [] o h = refl
length-write_at file (d ∷ ds) o h = length-write_from file (d ∷ ds) o h

get_elem?-overwrite :
    (file chunk : List ℕ) (x : ℕ)
    → get_elem? (overwrite file chunk) x
      ≡ (if ltb x (length chunk) then get_elem? chunk x else get_elem? file x)
unfolding overwrite
get_elem?-overwrite file [] x = ground arith
get_elem?-overwrite [] (d ∷ ds) zero = ground arith
get_elem?-overwrite [] (d ∷ ds) (suc x) = ground (arith, get_elem?_past ds x)
get_elem?-overwrite (b ∷ bs) (d ∷ ds) zero = ground arith
get_elem?-overwrite (b ∷ bs) (d ∷ ds) (suc x) = ground (arith, get_elem?-overwrite bs ds x)

abbrev pub is_inside : ℕ → List ℕ → ℕ → Bool
is_inside o chunk x = leb o x && ltb x (o + length chunk)

get_elem?-write_from :
    (file chunk : List ℕ) (o x : ℕ)
    → o ≤ length file
    → get_elem? (write_from file o chunk) x
      ≡ (if is_inside o chunk x then get_elem? chunk (x - o) else get_elem? file x)
unfolding write_from
get_elem?-write_from file chunk zero x h = ground (arith, get_elem?-overwrite file chunk x)
get_elem?-write_from [] chunk (suc o) x h = absurd (omega arith)
get_elem?-write_from (b ∷ bs) chunk (suc o) zero h = ground arith
get_elem?-write_from (b ∷ bs) chunk (suc o) (suc x) h =
    ground (arith, get_elem?-write_from bs chunk o x (omega arith))

-- After a write that begins within the file, a byte is the written one or what it was.
pub get_elem?-write_at :
    (file chunk : List ℕ) (o x : ℕ)
    → o ≤ length file
    → get_elem? (write_at file o chunk) x
      ≡ (if is_inside o chunk x then get_elem? chunk (x - o) else get_elem? file x)
unfolding write_at
get_elem?-write_at file [] o x h = ground arith
get_elem?-write_at file (d ∷ ds) o x h = get_elem?-write_from file (d ∷ ds) o x h
