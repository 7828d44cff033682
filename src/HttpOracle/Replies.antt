-- ===== src/HttpOracle/Replies.antt =====
-- What the server of packages/http-oracle-svc/src/server/remote_oracle_routes.ts replies after a
-- change, and when it reports that a change has been made.
use account_lookup_bc.Prelude.{
  String, Option, none, some, Bool, true, false, is_some, ◌==◌, if◌then◌else◌, ◌≡◌, ap, ◌∙◌, arith,
  Option-cases, Bool-cases, inl, inr,
}
use account_lookup_bc.Effect.{Result, ok, err, Result-cases}
use account_lookup_bc.Types.{Nullable, Association}
use account_lookup_bc.HttpOracle.{
  Entries, Files, OracleState, map_get, map_set, map_delete, party_key, association_of_party,
  is_held_by, get_participant_fsp_id, associate_participant, disassociate_participant, save_to_file,
}
use account_lookup_bc.HttpOracle.Table.{IsKeyed, map_get-map_set, map_get-map_delete}
use account_lookup_bc.HttpOracle.Outcomes.{associate_new, disassociate_held}
use account_lookup_bc.HttpOracle.Server.{
  Params, get_request, post_request, delete_request, status_of, fetched_reply, serve,
}

abbrev pub key_of_params : Params → String
key_of_params p = party_key (some p.party_type) (some p.party_id) p.party_sub_type p.currency

abbrev pub is_ok : Result (Unit {0}) → Bool
is_ok (ok _) = true
is_ok (err _) = false

module _ {W : Type 0} (fs : Files W) (s : OracleState W) where
  abbrev pub fsp_in : Option Association → Nullable
  fsp_in none = none
  fsp_in (some a) = a.fsp_id

  pub serve_get :
      (p : Params)
      → serve fs true (get_request p) s
        ≡ (fetched_reply (fsp_in (map_get (key_of_params p) s.associations)), s)
  unfolding serve get_participant_fsp_id
  serve_get p = elim (Option-cases (map_get (key_of_params p) s.associations)) [
    | inl new ↦ ground (arith, new)
    | inr (a, known) ↦ ground (arith, known)
  ]

  module _ (p : Params) where
    abbrev entry_of_params : Association
    entry_of_params =
        association_of_party p.fsp_id (some p.party_type) (some p.party_id) p.party_sub_type
          p.currency

    abbrev pub posted : Entries
    posted = map_set (key_of_params p) entry_of_params s.associations

    abbrev pub deleted : Entries
    deleted = map_delete (key_of_params p) s.associations

    -- A valid POST is answered 200 exactly when the party's key has no entry and the file has been
    -- saved, and else 500.
    pub serve_post_status : status_of (serve fs true (post_request p) s).0 ≡ (
        if is_some (map_get (key_of_params p) s.associations)
        then 500
        else if is_ok (save_to_file fs posted s.files).0
        then 200
        else 500)
    unfolding serve associate_participant
    serve_post_status = elim (Option-cases (map_get (key_of_params p) s.associations)) [
      | inl new ↦ elim (Result-cases (save_to_file fs posted s.files).0) [
        | inl (_, saved) ↦ ground (arith, new, saved)
        | inr (e, lost) ↦ ground (arith, new, lost)
      ]
      | inr (a, known) ↦ ground (arith, known)
    ]

    serve_delete_status : status_of (serve fs true (delete_request p) s).0 ≡ (
        if is_held_by p.fsp_id (map_get (key_of_params p) s.associations)
        then if is_ok (save_to_file fs deleted s.files).0 then 200 else 500
        else 500)
    unfolding serve disassociate_participant
    serve_delete_status =
        elim (Bool-cases (is_held_by p.fsp_id (map_get (key_of_params p) s.associations))) [
          | inl held ↦ elim (Result-cases (save_to_file fs deleted s.files).0) [
            | inl (_, saved) ↦ ground (arith, held, saved)
            | inr (e, lost) ↦ ground (arith, held, lost)
          ]
          | inr free ↦ ground (arith, free)
        ]

    post_changes :
        map_get (key_of_params p) s.associations ≡ none
        → (serve fs true (post_request p) s).1.associations ≡ posted
    unfolding serve
    post_changes new =
        elim (Result-cases
          (associate_participant fs p.fsp_id (some p.party_type) (some p.party_id) p.party_sub_type
            p.currency s).0) [
              | inl (_, done) ↦ ground (
                arith,
                done,
                associate_new fs p.fsp_id (some p.party_type) (some p.party_id) p.party_sub_type
                    p.currency s new,
              )
              | inr (e, failed) ↦ ground (
                arith,
                failed,
                associate_new fs p.fsp_id (some p.party_type) (some p.party_id) p.party_sub_type
                    p.currency s new,
              )
            ]

    delete_changes :
        is_held_by p.fsp_id (map_get (key_of_params p) s.associations) ≡ true
        → (serve fs true (delete_request p) s).1.associations ≡ deleted
    unfolding serve
    delete_changes held =
        elim (Result-cases
          (disassociate_participant fs p.fsp_id (some p.party_type) (some p.party_id)
            p.party_sub_type p.currency s).0) [
              | inl (_, done) ↦ ground (
                arith,
                done,
                disassociate_held fs p.fsp_id (some p.party_type) (some p.party_id) p.party_sub_type
                    p.currency s held,
              )
              | inr (e, failed) ↦ ground (
                arith,
                failed,
                disassociate_held fs p.fsp_id (some p.party_type) (some p.party_id) p.party_sub_type
                    p.currency s held,
              )
            ]

module _ {W : Type 0} (fs : Files W) (s : OracleState W) (p p' : Params) where
  -- After a valid POST for a party whose key has no entry, also one that is answered 500 since the
  -- file could not be saved, a GET under the same key is answered with the FSP of the POST, and a
  -- GET under another key as before.
  pub serve_get-post :
      map_get (key_of_params p) s.associations ≡ none
      → (serve fs true (get_request p') (serve fs true (post_request p) s).1).0 ≡ (
          if key_of_params p == key_of_params p'
          then fetched_reply p.fsp_id
          else (serve fs true (get_request p') s).0)
  serve_get-post new =
      let s' = (serve fs true (post_request p) s).1 in
      ap (λ o. o.0) (serve_get fs s' p')
      ∙ ap (λ (m : Entries). fetched_reply (fsp_in fs s (map_get (key_of_params p') m)))
          (post_changes fs s p new)
      ∙ ground (
        arith,
        map_get-map_set (key_of_params p') (key_of_params p) (entry_of_params fs s p)
            s.associations,
        serve_get fs s p',
      )

  -- After a valid DELETE for a party that its FSP holds, on a well-formed map, a GET under the same
  -- key is answered 404, and a GET under another key as before, whatever the DELETE was answered.
  pub serve_get-delete :
      IsKeyed s.associations
      → is_held_by p.fsp_id (map_get (key_of_params p) s.associations) ≡ true
      → (serve fs true (get_request p') (serve fs true (delete_request p) s).1).0 ≡ (
          if key_of_params p == key_of_params p'
          then fetched_reply none
          else (serve fs true (get_request p') s).0)
  serve_get-delete keyed held =
      let s' = (serve fs true (delete_request p) s).1 in
      ap (λ o. o.0) (serve_get fs s' p')
      ∙ ap (λ (m : Entries). fetched_reply (fsp_in fs s (map_get (key_of_params p') m)))
          (delete_changes fs s p held)
      ∙ ground (
        arith,
        map_get-map_delete (key_of_params p') (key_of_params p) s.associations keyed,
        serve_get fs s p',
      )
