-- ===== src/Tests/Marks.antt =====
-- Nullable texts and counts, written one after the other and read back, for the runs on a file. A
-- text is written with a mark before each character and another mark at its end.
use Prim.Native.String.{String, [], ◌∷◌}
use Prim.Native.Char.{Char, code}
use account_lookup_bc.Prelude.{
  none, some, Bool, ℕ, zero, suc, eqb, if◌then◌else◌, ◌≡◌, ◌≢◌, refl, ap,
}
use account_lookup_bc.Types.{Nullable}

abbrev more : Char
more = "1"

abbrev last : Char
last = "0"

abbrev is_more : Char → Bool
is_more c = eqb (code c) 49

abbrev write_text : String → String → String
write_text [] rest = last ∷ rest
write_text (c ∷ s) rest = more ∷ c ∷ write_text s rest

-- Reads a text that starts behind its first mark.
abbrev read_text : Char → String → String × String
read_text mark [] = ([], [])
read_text mark (c ∷ []) = if is_more mark then (c ∷ [], []) else ([], c ∷ [])
read_text mark (c ∷ next ∷ rest) =
    let (s, left) = read_text next rest in
    if is_more mark then (c ∷ s, left) else ([], c ∷ next ∷ rest)

abbrev read_marked : String → String × String
read_marked [] = ([], [])
read_marked (mark ∷ rest) = read_text mark rest

read_marked-write_text : (s rest : String) → read_marked (write_text s rest) ≡ (s, rest)
read_marked-write_text [] [] = refl
read_marked-write_text [] (c ∷ []) = refl
read_marked-write_text [] (c ∷ d ∷ rest) = refl
read_marked-write_text (c ∷ []) rest = ap (λ o. (c ∷ o.0, o.1)) (read_marked-write_text [] rest)
read_marked-write_text (c ∷ d ∷ s) rest =
    ap (λ o. (c ∷ o.0, o.1)) (read_marked-write_text (d ∷ s) rest)

abbrev pub write_nullable : Nullable → String → String
write_nullable none rest = last ∷ rest
write_nullable (some s) rest = more ∷ write_text s rest

abbrev pub read_nullable : String → Nullable × String
read_nullable [] = (none, [])
read_nullable (mark ∷ rest) =
    if is_more mark then (some (read_marked rest).0, (read_marked rest).1) else (none, rest)

pub read_nullable-write_nullable :
    (v : Nullable) (rest : String) → read_nullable (write_nullable v rest) ≡ (v, rest)
read_nullable-write_nullable none rest = refl
read_nullable-write_nullable (some s) rest =
    ap (λ o. (some o.0, o.1)) (read_marked-write_text s rest)

abbrev pub write_count : ℕ → String → String
write_count zero rest = last ∷ rest
write_count (suc n) rest = more ∷ write_count n rest

abbrev pub read_count : String → ℕ × String
read_count [] = (0, [])
read_count (mark ∷ rest) =
    let (n, left) = read_count rest in if is_more mark then (suc n, left) else (0, rest)

pub read_count-write_count : (n : ℕ) (rest : String) → read_count (write_count n rest) ≡ (n, rest)
read_count-write_count zero rest = refl
read_count-write_count (suc n) rest = ap (λ o. (suc o.0, o.1)) (read_count-write_count n rest)

pub write_count-nonempty : (n : ℕ) (rest : String) → write_count n rest ≢ ""
write_count-nonempty zero rest = λ e. cc
write_count-nonempty (suc n) rest = λ e. cc
