-- ===== src/Implementations/Builtin/Concurrent/Alone.antt =====
-- A call that nothing interrupts does what the method does.
use account_lookup_bc.Prelude.{ℕ, ◌≡◌, arith}
use account_lookup_bc.Types.{Nullable}
use account_lookup_bc.Implementations.Store.{Store}
use account_lookup_bc.Implementations.Builtin.{
  get_participant_fsp_id, associate_participant, disassociate_participant,
}
use account_lookup_bc.Implementations.Builtin.Concurrent.{
  Party, Call, reading, looking, deleting, found, done, continue, advance,
}

module _ {W : Type 0} (st : Store W) (secs : ℕ) where
  abbrev again : Call × W → Call × W
  again (c, w) = advance st secs c w

  module _ (p : Party) (w : W) where
    -- Cut at each `await`, the three methods are what they are in one piece: a lookup and an
    -- association have settled after three answers, and a disassociation after two, with the same
    -- outcome and the same state of the servers.
    pub advance_alone :
        (fsp_id : Nullable)
        → (again (again (again (reading p, w)))
            ≡ continue (found p) (
                get_participant_fsp_id st secs p.party_type p.party_id p.party_sub_type p.currency
                  w))
          × (again (again (again (looking p fsp_id, w)))
              ≡ continue
                  (λ _. done)
                  (associate_participant st secs fsp_id p.party_type p.party_id p.party_sub_type
                    p.currency w))
          × (again (again (deleting p fsp_id, w))
              ≡ continue
                  (λ _. done)
                  (disassociate_participant st secs fsp_id p.party_type p.party_id p.party_sub_type
                    p.currency w))
    unfolding advance get_participant_fsp_id associate_participant disassociate_participant
    advance_alone fsp_id = (ground arith, ground arith, ground arith)
