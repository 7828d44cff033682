-- ===== src/Implementations/Builtin/Concurrent/Progress.antt =====
-- How long calls in flight take, counted in their own answers.
use account_lookup_bc.Prelude.{
  Option, none, some, List, [], ◌∷◌, ℕ, suc, ◌≤◌, ◌-◌, eqb, ◌≡◌, subst, arith, Bool-cases, inl, inr,
  if◌then◌else◌,
}
use account_lookup_bc.Effect.{Error, Result, ok, err}
use account_lookup_bc.Types.{Nullable, Association}
use account_lookup_bc.Implementations.Store.{Store}
use account_lookup_bc.Implementations.Builtin.Concurrent.{
  Party, Call, reading, querying, saving, looking, inserting, caching, deleting, uncaching, found,
  done, failed, continue, after_cache, after_query, after_look, advance, System, update,
}

-- The answers that a call awaits at most.
abbrev pub awaits : Call → ℕ
awaits (reading p) = 3
awaits (querying p) = 2
awaits (saving p fsp_id) = 1
awaits (looking p fsp_id) = 3
awaits (inserting p fsp_id) = 2
awaits (caching p fsp_id) = 1
awaits (deleting p fsp_id) = 2
awaits (uncaching p fsp_id) = 1
awaits (found p fsp_id) = 0
awaits done = 0
awaits (failed e) = 0

abbrev pub count : ℕ → List ℕ → ℕ
count i [] = 0
count i (j ∷ l) = if eqb j i then suc (count i l) else count i l

awaits_bound : (c : Call) → awaits c ≤ 3
awaits_bound (reading p) = omega arith
awaits_bound (querying p) = omega arith
awaits_bound (saving p fsp_id) = omega arith
awaits_bound (looking p fsp_id) = omega arith
awaits_bound (inserting p fsp_id) = omega arith
awaits_bound (caching p fsp_id) = omega arith
awaits_bound (deleting p fsp_id) = omega arith
awaits_bound (uncaching p fsp_id) = omega arith
awaits_bound (found p fsp_id) = omega arith
awaits_bound done = omega arith
awaits_bound (failed e) = omega arith

-- A call has resolved or rejected.
pub data IsSettled : Call → Type 0 where
  answered : (p : Party) (fsp_id : Nullable) → IsSettled (found p fsp_id)
  resolved : IsSettled done
  rejected : (e : Error) → IsSettled (failed e)

settled_of_awaits : (c : Call) → awaits c ≡ 0 → IsSettled c
settled_of_awaits (found p fsp_id) h = answered p fsp_id
settled_of_awaits done h = resolved
settled_of_awaits (failed e) h = rejected e
settled_of_awaits (reading p) h = cc
settled_of_awaits (querying p) h = cc
settled_of_awaits (saving p fsp_id) h = cc
settled_of_awaits (looking p fsp_id) h = cc
settled_of_awaits (inserting p fsp_id) h = cc
settled_of_awaits (caching p fsp_id) h = cc
settled_of_awaits (deleting p fsp_id) h = cc
settled_of_awaits (uncaching p fsp_id) h = cc

module _ {W : Type 0} (st : Store W) (secs : ℕ) where
  awaits-continue :
      {A : Type 0} (n : ℕ) (f : A → Call) (r : Result A) (w : W)
      → ((a : A) → awaits (f a) ≤ n)
      → awaits (continue f (r, w)).0 ≤ n
  awaits-continue n f (ok a) w h = h a
  awaits-continue n f (err e) w h = omega arith

  awaits-after_cache : (p : Party) (o : Option Nullable) → awaits (after_cache p o) ≤ 2
  awaits-after_cache p none = omega arith
  awaits-after_cache p (some fsp_id) = omega arith

  awaits-after_query : (p : Party) (o : Option Association) → awaits (after_query p o) ≤ 1
  awaits-after_query p none = omega arith
  awaits-after_query p (some d) = omega arith

  awaits-after_look :
      (p : Party) (fsp_id : Nullable) (o : Option Association) → awaits (after_look p fsp_id o) ≤ 2
  awaits-after_look p fsp_id none = omega arith
  awaits-after_look p fsp_id (some d) = omega arith

  -- Each answer brings a call on, whatever the answer is.
  awaits-advance : (c : Call) (w : W) → awaits (advance st secs c w).0 ≤ awaits c - 1
  unfolding advance
  awaits-advance (reading p) w = awaits-continue 2 (after_cache p) _ w (awaits-after_cache p)
  awaits-advance (querying p) w = awaits-continue 1 (after_query p) _ w (awaits-after_query p)
  awaits-advance (saving p fsp_id) w =
      awaits-continue 0 (λ _. found p fsp_id) _ w (λ _. omega arith)
  awaits-advance (looking p fsp_id) w =
      awaits-continue 2 (after_look p fsp_id) _ w (awaits-after_look p fsp_id)
  awaits-advance (inserting p fsp_id) w =
      awaits-continue 1 (λ _. caching p fsp_id) _ w (λ _. omega arith)
  awaits-advance (caching p fsp_id) w = awaits-continue 0 (λ _. done) _ w (λ _. omega arith)
  awaits-advance (deleting p fsp_id) w =
      awaits-continue 1 (λ _. uncaching p fsp_id) _ w (λ _. omega arith)
  awaits-advance (uncaching p fsp_id) w = awaits-continue 0 (λ _. done) _ w (λ _. omega arith)
  awaits-advance (found p fsp_id) w = omega arith
  awaits-advance done w = omega arith
  awaits-advance (failed e) w = omega arith

  -- The next answer of the call `i`.
  abbrev pub turn : System st secs → ℕ → System st secs
  turn s i = record s {
    world = (advance st secs (s.calls i) s.world).1;
    calls = update st secs s.calls i (advance st secs (s.calls i) s.world).0;
  }

  -- Answers arrive for the calls of the list, in its order.
  unfoldable pub run : List ℕ → System st secs → System st secs
  run [] s = s
  run (j ∷ schedule) s = run schedule (turn s j)

  awaits-turn :
      (s : System st secs) (i j : ℕ)
      → awaits ((turn s j).calls i) ≤ awaits (s.calls i) - (if eqb j i then 1 else 0)
  awaits-turn s i j = elim (Bool-cases (eqb j i)) [
    | inl own ↦
        let same : j ≡ i = ground (arith, own) in
        rw own (
          subst (λ k. awaits (advance st secs (s.calls j) s.world).0 ≤ awaits (s.calls k) - 1) same
            (awaits-advance (s.calls j) s.world))
    | inr other ↦ rw other (omega arith)
  ]

  awaits-run :
      (schedule : List ℕ) (s : System st secs) (i : ℕ)
      → awaits ((run schedule s).calls i) ≤ awaits (s.calls i) - count i schedule
  unfolding run
  awaits-run [] s i = omega arith
  awaits-run (j ∷ schedule) s i =
      ground (arith, awaits-run schedule (turn s j) i, awaits-turn s i j)

  -- A call is settled after at most three answers of its own, whatever they are, and however many
  -- answers of other calls come in between.
  pub run-IsSettled :
      (schedule : List ℕ) (s : System st secs) (i : ℕ)
      → 3 ≤ count i schedule
      → IsSettled ((run schedule s).calls i)
  run-IsSettled schedule s i often =
      settled_of_awaits ((run schedule s).calls i)
        (omega (arith, awaits-run schedule s i, awaits_bound (s.calls i), often))
