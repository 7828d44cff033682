-- ===== src/Tests/Concurrent.antt =====
-- Calls of the built-in oracle in flight together, on the store in memory.
use account_lookup_bc.Prelude.{none, some, [], ◌∷◌, ℕ, ◌≡◌, refl, eq_iff}
use account_lookup_bc.Effect.{Error, Result, ok, err}
use account_lookup_bc.Types.{Nullable}
use account_lookup_bc.Implementations.Builtin.{
  get_key_with_prefix, get_from_cache, set_to_cache, del_from_cache, get_participant_fsp_id,
  associate_participant, disassociate_participant,
}
use account_lookup_bc.Implementations.Builtin.Concurrent.{
  Party, Call, reading, saving, looking, found, done, update, party_key, document_of, advance,
  System, look_up, associate, go_on, Reach, here, next,
}
use account_lookup_bc.Implementations.Builtin.Concurrent.Backing.{FaultLaws}
use account_lookup_bc.Implementations.Builtin.Concurrent.Coverage.{IsAnswer}
use account_lookup_bc.Implementations.Builtin.Concurrent.Safety.{IsAnswer-requested}
use account_lookup_bc.Implementations.Builtin.Concurrent.Races.{
  lookup_outlives_disassociation, lookup_outlives_other_key,
}
use account_lookup_bc.Tests.Servers.{Servers, memory, memory_laws}

-- The store in memory rejects nothing.
never :
    {A B : Type 0} (a : A) (e : Error) (w w' : Servers)
    → ◌≡◌ {A = Result A × Servers} (ok a, w) (err e, w')
    → B
never a e w w' h = cc

abbrev memory_faults : FaultLaws memory memory_laws
memory_faults = record {
  find_one_fault = λ f e w w' h. never _ e _ w' h;
  insert_one_fault = λ d e w w' h. never _ e _ w' h;
  delete_one_fault = λ f e w w' h. never _ e _ w' h;
  get_fault = λ k e w w' h. never _ e _ w' h;
  setex_fault = λ k secs v e w w' h. never _ e _ w' h;
  del_fault = λ k e w w' h. never _ e _ w' h;
}

abbrev empty : Servers
empty = record { stored = []; entries = λ k. none }

abbrev account : Party
account = record {
  party_type = some "MSISDN";
  party_id = some "123";
  party_sub_type = none;
  currency = some "EUR";
}

abbrev any_currency : Party
any_currency = record account { currency = none }

abbrev State : Type 0
State = System memory 30

abbrev started : State
started = record { world = empty; calls = λ i. done; requested = [] }

abbrev go : State → ℕ → State
go s i = record s {
  world = (advance memory 30 (s.calls i) s.world).1;
  calls = update memory 30 s.calls i (advance memory 30 (s.calls i) s.world).0;
}

-- A lookup reads the cache between the two writes of an association, and answers from the
-- collection.
abbrev first : State
first = record started {
  calls = update memory 30 started.calls 0 (looking account (some "payee"));
  requested = document_of account (some "payee") ∷ [];
}

abbrev inserted : State
inserted = go (go first 0) 0

abbrev second : State
second = record inserted { calls = update memory 30 inserted.calls 1 (reading account) }

abbrev answered : State
answered = go (go (go (go second 1) 1) 0) 1

schedule : Reach memory 30 started answered
schedule =
    next
      (next
        (next
          (next
            (next
              (next (next (next here (associate started 0 account (some "payee"))) (go_on first 0))
                (go_on (go first 0) 0))
              (look_up inserted 1 account))
            (go_on second 1))
          (go_on (go second 1) 1))
        (go_on (go (go second 1) 1) 0))
      (go_on (go (go (go second 1) 1) 0) 1)

IsAnswer-requested_example : IsAnswer answered.requested account (some "payee")
unfolding advance get_from_cache set_to_cache get_key_with_prefix
IsAnswer-requested_example =
    IsAnswer-requested memory 30 memory_laws memory_faults (refl, λ k. refl, refl, λ i. refl)
      schedule 1 account (some "payee") refl

abbrev again : Call × Servers → Call × Servers
again (c, w) = advance memory 30 c w

alone_run : again (again (again (reading account, empty))) ≡ (found account none, empty)
unfolding advance get_from_cache get_key_with_prefix
alone_run = refl

abbrev stored : Servers
stored = record empty { stored = document_of account (some "payee") ∷ [] }

abbrev stored_twice : Servers
stored_twice = record stored {
  stored = document_of account (some "payee") ∷ document_of account (some "payee") ∷ [];
}

-- A lookup has read the account in `stored` when it is removed.
abbrev emptied : Servers
emptied =
    (disassociate_participant memory 30 (some "payee") (some "MSISDN") (some "123") none
      (some "EUR") stored).1

abbrev late : Servers
late = (advance memory 30 (saving account (some "payee")) emptied).1

lookup_outlives_disassociation_example :
    (late.stored ≡ []) × ◌≡◌ {A = Nullable} (some "payee") (some "payee")
unfolding advance get_from_cache set_to_cache del_from_cache get_key_with_prefix
    get_participant_fsp_id disassociate_participant
lookup_outlives_disassociation_example =
    lookup_outlives_disassociation memory 30 memory_laws account (some "payee") (some "payee")
      stored stored emptied late late refl refl refl (λ e. cc) refl

abbrev added : Servers
added =
    (associate_participant memory 30 (some "payee") (some "MSISDN") (some "123") none (some "EUR")
      empty).1

abbrev removed : Servers
removed =
    (disassociate_participant memory 30 (some "payee") (some "MSISDN") (some "123") none none
      added).1

-- Removed without a currency, and looked up with it.
lookup_outlives_other_key_example :
    (removed.stored ≡ []) × ◌≡◌ {A = Nullable} (some "payee") (some "payee")
unfolding associate_participant get_from_cache set_to_cache del_from_cache get_key_with_prefix
    get_participant_fsp_id disassociate_participant
lookup_outlives_other_key_example =
    lookup_outlives_other_key memory 30 memory_laws account (some "payee") any_currency
      (some "payee") empty added removed removed refl refl refl refl
      (λ e. cc ((eq_iff (party_key any_currency) (party_key account)).1 e)) (λ e. cc) refl
