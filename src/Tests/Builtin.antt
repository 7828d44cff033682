-- ===== src/Tests/Builtin.antt =====
-- The built-in oracle on the store in memory.
use account_lookup_bc.Prelude.{none, some, [], ◌≡◌, refl}
use account_lookup_bc.Types.{Nullable}
use account_lookup_bc.Implementations.Builtin.{
  get_key_with_prefix, get_from_cache, set_to_cache, del_from_cache, get_participant_fsp_id,
  associate_participant, disassociate_participant,
}
use account_lookup_bc.Implementations.Builtin.Lookup.{lookup-disassociate}
use account_lookup_bc.Implementations.Builtin.Keys.{lookup_of_shared_key}
use account_lookup_bc.Tests.Servers.{Servers, memory, memory_laws}

abbrev empty : Servers
empty = record { stored = []; entries = λ k. none }

-- The party of `association_of`, associated with `fsp_id` on top of the state `w`.
abbrev associated : Nullable → Servers → Servers
associated fsp_id w =
    (associate_participant memory 30 fsp_id (some "MSISDN") (some "123") none none w).1

-- Both FSPs are stored, and the first one that was associated leaves.
abbrev twice : Servers
twice = associated (some "second") (associated (some "payee") empty)

abbrev left : Servers
left =
    (disassociate_participant memory 30 (some "payee") (some "MSISDN") (some "123") none none
      twice).1

lookup-disassociate_example : ◌≡◌ {A = Nullable} (some "second") (some "second")
unfolding associate_participant get_participant_fsp_id get_from_cache set_to_cache
    get_key_with_prefix disassociate_participant del_from_cache
lookup-disassociate_example =
    lookup-disassociate memory 30 memory_laws (some "MSISDN") (some "123") none none (some "payee")
      twice left (get_participant_fsp_id memory 30 (some "MSISDN") (some "123") none none left).1
      (some "second") refl refl

-- An account of the type `MSISDN_7` is associated, and the type `MSISDN` is looked up.
abbrev shifted : Servers
shifted =
    (associate_participant memory 30 (some "payee") (some "MSISDN_7") (some "123") none none
      empty).1

lookup_of_shared_key_example : ◌≡◌ {A = Nullable} (some "payee") (some "payee")
unfolding associate_participant get_participant_fsp_id get_from_cache set_to_cache
    get_key_with_prefix
lookup_of_shared_key_example =
    lookup_of_shared_key memory 30 memory_laws "MSISDN" "7" "123" (some "payee") none none
      (some "payee") empty shifted shifted refl (λ e. cc) refl
