-- ===== src/Implementations/Builtin/Concurrent/Coverage.antt =====
-- What each call in flight relies on: the association that was asked for behind what it carries.
use account_lookup_bc.Prelude.{none, List, ◌∷◌, ◌≡◌, refl, ◌⊎◌, inl, inr, arith}
use account_lookup_bc.Effect.{Error, ok, Action, or_throw, Result-cases}
use account_lookup_bc.Types.{Nullable, Association}
use account_lookup_bc.Implementations.Builtin.Lookup.{matches_own}
use account_lookup_bc.Implementations.Builtin.Concurrent.{
  Party, Call, reading, querying, saving, looking, inserting, caching, deleting, uncaching, found,
  done, failed, continue, party_key, document_of,
}
use account_lookup_bc.Implementations.Builtin.Concurrent.Backing.{
  Among, IsBacked, IsBackedKey, Among-cons, IsBackedKey-cons,
}

-- The answer of a lookup is null, or an FSP for which an association with the party's key was asked.
abbrev pub IsAnswer : List Association → Party → Nullable → Type 0
IsAnswer r p fsp_id = (fsp_id ≡ none) ⊎ IsBackedKey r (party_key p) fsp_id

abbrev pub IsCovered : List Association → Call → Type 0
IsCovered r (reading p) = Unit {0}
IsCovered r (querying p) = Unit {0}
IsCovered r (saving p fsp_id) = IsBacked r p fsp_id
IsCovered r (looking p fsp_id) = Among (document_of p fsp_id) r
IsCovered r (inserting p fsp_id) = Among (document_of p fsp_id) r
IsCovered r (caching p fsp_id) = IsBacked r p fsp_id
IsCovered r (deleting p fsp_id) = Unit {0}
IsCovered r (uncaching p fsp_id) = Unit {0}
IsCovered r (found p fsp_id) = IsAnswer r p fsp_id
IsCovered r done = Unit {0}
IsCovered r (failed e) = Unit {0}

pub IsCovered-cons :
    (r : List Association) (x : Association) (c : Call) → IsCovered r c → IsCovered (x ∷ r) c
IsCovered-cons r x (reading p) h = tt
IsCovered-cons r x (querying p) h = tt
IsCovered-cons r x (saving p fsp_id) h = Among-cons r x h
IsCovered-cons r x (looking p fsp_id) h = inr h
IsCovered-cons r x (inserting p fsp_id) h = inr h
IsCovered-cons r x (caching p fsp_id) h = Among-cons r x h
IsCovered-cons r x (deleting p fsp_id) h = tt
IsCovered-cons r x (uncaching p fsp_id) h = tt
IsCovered-cons r x (found p fsp_id) (inl h) = inl h
IsCovered-cons r x (found p fsp_id) (inr h) = inr (IsBackedKey-cons r x h)
IsCovered-cons r x done h = tt
IsCovered-cons r x (failed e) h = tt

pub IsBacked-own :
    (r : List Association) (p : Party) (fsp_id : Nullable)
    → Among (document_of p fsp_id) r
    → IsBacked r p fsp_id
IsBacked-own r p fsp_id h = record {
  origin = document_of p fsp_id;
  asked = h;
  matching = matches_own p.party_id fsp_id p.party_type p.party_sub_type p.currency;
  same_fsp = refl;
}

pub IsCovered-continue :
    {W A : Type 0} (r : List Association) (f : A → Call) (m : Action W A) (w : W)
    → ((a : A) → m w ≡ (ok a, (m w).1) → IsCovered r (f a))
    → IsCovered r (continue f (m w)).0
IsCovered-continue r f m w h = elim (Result-cases (m w).0) [
  | inl (a, e) ↦ rw e (h a (ground (arith, e)))
  | inr (x, e) ↦ rw e tt
]

pub or_throw_ok :
    {W A : Type 0} (m : Action W A) (e : Error) (w : W) (a : A)
    → or_throw m e w ≡ (ok a, (m w).1)
    → m w ≡ (ok a, (m w).1)
or_throw_ok m e w a h = ground arith
