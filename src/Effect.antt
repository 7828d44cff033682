-- ===== src/Effect.antt =====
-- How the code computes: an asynchronous method is a function of the state of the world which
-- resolves or rejects, and hands the state back in either case, since what was written stays
-- written. Errors are the error classes of packages/domain-lib/src/errors.ts,
-- packages/implementations-lib/src/errors.ts, packages/client-lib/src/errors.ts and the two that the
-- security library throws;
-- message texts are left out.
use account_lookup_bc.Prelude.{Bool, ◌≡◌, refl, ◌⊎◌, inl, inr, String, if◌then◌else◌}

pub data Error : Type 0 where
  -- packages/domain-lib/src/errors.ts
  participant_not_found unable_to_get_participant_fsp_id : Error
  unable_to_get_oracle_from_oracle_finder duplicate_oracle no_such_oracle_adapter : Error
  unable_to_remove_oracle oracle_not_found unable_to_get_oracle_associations : Error
  -- packages/implementations-lib/src/errors.ts
  no_such_oracle oracle_type_not_supported unable_to_get_participant : Error
  unable_to_init_oracle_provider unable_to_init_remote_oracle_provider : Error
  unable_to_get_oracle oracle_already_registered unable_to_register_oracle : Error
  unable_to_delete_oracle participant_association_already_exists : Error
  unable_to_associate_participant unable_to_disassociate_participant : Error
  unable_to_get_association unable_to_get_associations : Error
  unable_to_init_oracle_finder unable_to_close_database_connection : Error
  -- the security library
  unauthorized forbidden : Error
  -- packages/client-lib/src/errors.ts
  unable_to_get_fsp_id : Error
  -- any other value that is thrown
  other : String → Error

pub data Result {ℓ} (A : Type ℓ) : Type ℓ where
  ok : A → Result A
  err : Error → Result A

abbrev pub Action : Type 0 → Type 0 → Type 0
Action S A = S → Result A × S

module _ {S A : Type 0} where
  abbrev pub pure : A → Action S A
  pure a s = (ok a, s)

  abbrev pub throw : Error → Action S A
  throw e s = (err e, s)

  -- `try { return await m } catch (e) { … }`, with the outcome as a value.
  abbrev pub attempt : Action S A → Action S (Result A)
  attempt m s = let (r, s') = m s in (ok r, s')

  -- `m.catch(() => { throw e })`
  abbrev pub or_throw : Action S A → Error → Action S A
  or_throw m e s = let (r, s') = m s in (elim r [ ok a ↦ ok a | err _ ↦ err e ], s')

infixl 5 ◌>>=◌ ◌>>◌
abbrev pub ◌>>=◌ : {S A B : Type 0} → Action S A → (A → Action S B) → Action S B
◌>>=◌ m f s = let (r, s') = m s in elim r [ ok a ↦ f a s' | err e ↦ (err e, s') ]

abbrev pub ◌>>◌ : {S A B : Type 0} → Action S A → Action S B → Action S B
m >> k = m >>= λ _. k

abbrev pub guard : {S : Type 0} → Bool → Error → Action S (Unit {0})
guard b e s = (if b then ok tt else err e, s)

pub Result-cases {ℓ} :
    {A : Type ℓ} (r : Result A) → ((a : A) × (r ≡ ok a)) ⊎ ((e : Error) × (r ≡ err e))
Result-cases (ok a) = inl (a, refl)
Result-cases (err e) = inr (e, refl)
