-- ===== src/Tests/Json.antt =====
-- A text form of an association that keeps its FSP id, for the runs on a store.
use Prim.Native.String.{String, [], ◌∷◌}
use account_lookup_bc.Prelude.{Option, none, some, ◌≡◌, ◌≢◌, refl}
use account_lookup_bc.Types.{Nullable, Association}

abbrev write_nullable : Nullable → String
write_nullable none = "0"
write_nullable (some s) = "1" ∷ ":" ∷ s

abbrev pub write : Association → String
write a = write_nullable a.fsp_id

abbrev pub read : String → Option Nullable
read [] = none
read (c ∷ []) = some none
read (c ∷ d ∷ s) = some (some s)

read-write_nullable : (v : Nullable) → read (write_nullable v) ≡ some v
read-write_nullable none = refl
read-write_nullable (some s) = refl

pub read-write : (a : Association) → read (write a) ≡ some a.fsp_id
read-write a = read-write_nullable a.fsp_id

write_nullable-nonempty : (v : Nullable) → write_nullable v ≢ ""
write_nullable-nonempty none = λ e. cc
write_nullable-nonempty (some s) = λ e. cc

pub write-nonempty : (a : Association) → write a ≢ ""
write-nonempty a = write_nullable-nonempty a.fsp_id
