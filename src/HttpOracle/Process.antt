-- ===== src/HttpOracle/Process.antt =====
-- The life cycle of the oracle's process, the class `Service` of
-- packages/http-oracle-svc/src/service.ts, and what of its associations outlives it.
use account_lookup_bc.Prelude.{
  String, Bool, if◌then◌else◌, Bool-cases, some, true, [], ◌≡◌, refl, sym, ap, ◌∙◌, arith, eq_iff,
  inl, inr,
}
use account_lookup_bc.Effect.{Result, ok, Action, ◌>>◌, Result-cases}
use account_lookup_bc.Node.{Environment, text_or, Ending, exited, ending_of}
use account_lookup_bc.HttpOracle.{
  Entries, Files, OracleState, map_get, on_files, init, destroy, associate_participant,
}
use account_lookup_bc.HttpOracle.Table.{IsKeyed}
use account_lookup_bc.HttpOracle.Outcomes.{associate_resolved}
use account_lookup_bc.HttpOracle.Restart.{FilesLaws, init-associate_participant}
use account_lookup_bc.HttpOracle.Server.{
  Params, get_request, post_request, status_of, fetched_reply, serve,
}
use account_lookup_bc.HttpOracle.Replies.{key_of_params, fsp_in, serve_get, serve_get-post}

pub record OracleSettings : Type 0 where
  pub log_level : String
  pub port : String
  pub db_file_path : String

-- The default log level is `LogLevel.DEBUG` of the logging library.
unfoldable pub oracle_settings : String → Environment → OracleSettings
oracle_settings debug env = record {
  log_level = text_or env "LOG_LEVEL" debug;
  port = text_or env "REMOTE_ORACLE_PORT" "3031";
  db_file_path = text_or env "ORACLE_DB_FILE_PATH" "/app/data/db.json";
}

-- `listen` and `close` are those of the HTTP server; `close` rejects with the error that it is
-- called back with.
module _ {W : Type 0} (fs : Files W) (listen close : Action W (Unit {0})) where
  -- `start`, with the oracle that it makes by default: a new map, which `init` fills.
  unfoldable pub start : W → Result (Unit {0}) × OracleState W
  start w = (init fs >> on_files fs listen) (record { associations = []; files = w })

  -- `stop`
  unfoldable pub stop : Action (OracleState W) (Unit {0})
  stop = on_files fs close >> destroy fs

  -- `_handle_int_and_term_signals`, where `in_time` says that `stop` settles within five seconds
  unfoldable pub on_oracle_signal : Bool → OracleState W → Ending
  on_oracle_signal in_time s = if in_time then ending_of (stop s).0 else exited 99

  -- On a signal, the oracle's process ends with the code 0 only if its server has been closed within
  -- the time.
  pub on_oracle_signal-close :
      (in_time : Bool) (s : OracleState W)
      → on_oracle_signal in_time s ≡ exited 0
      → (in_time ≡ true) × ((close s.files).0 ≡ ok tt)
  unfolding on_oracle_signal stop
  on_oracle_signal-close in_time s h = elim (Bool-cases in_time) [
    | inr late ↦ ground (arith, late, h)
    | inl early ↦ elim (Result-cases (close s.files).0) [
      | inr (e, failed) ↦ ground (arith, early, failed, h)
      | inl (_, closed) ↦ (early, closed)
    ]
  ]

  module _ (laws : FilesLaws fs) (p p' : Params) (s s' s'' : OracleState W) where
    -- A POST that is answered 200 is an association that has resolved.
    posted :
        status_of (serve fs true (post_request p) s).0 ≡ 200
        → (serve fs true (post_request p) s).1 ≡ s'
        → associate_participant fs p.fsp_id
            (some p.party_type)
            (some p.party_id)
            p.party_sub_type
            p.currency
            s
          ≡ (ok tt, s')
    unfolding serve
    posted is_200 left =
        elim (Result-cases
          (associate_participant fs p.fsp_id (some p.party_type) (some p.party_id) p.party_sub_type
            p.currency s).0) [
              | inl (_, done) ↦ ground (arith, done, left)
              | inr (e, failed) ↦ ground (arith, failed, is_200)
            ]

    started :
        start s'.files ≡ (ok tt, s'')
        → (t : OracleState W) × (init fs (record { associations = []; files = s'.files })
            ≡ (ok tt, t))
          × (s''.associations ≡ t.associations)
    unfolding start
    started h =
        let out = init fs (record { associations = []; files = s'.files }) in
        elim (Result-cases out.0) [
          | inl (_, done) ↦ (out.1, ground (arith, done), ground (arith, done, h))
          | inr (e, failed) ↦ ground (arith, failed, h)
        ]

    -- Durability of a POST that runs alone: where the file system and JSON behave as documented,
    -- and no other call or save is in flight, so that the save has landed when the POST on a
    -- well-formed map is answered 200, then after a start that resolves on the file that it leaves,
    -- a GET under the same key is answered with the FSP of the POST, and every GET as before the
    -- process ended.
    pub serve_get-start :
        IsKeyed s.associations
        → status_of (serve fs true (post_request p) s).0 ≡ 200
        → (serve fs true (post_request p) s).1 ≡ s'
        → start s'.files ≡ (ok tt, s'')
        → ((serve fs true (get_request p') s'').0 ≡ (serve fs true (get_request p') s').0)
          × (key_of_params p ≡ key_of_params p'
              → (serve fs true (get_request p') s'').0 ≡ fetched_reply p.fsp_id)
    serve_get-start keyed is_200 left restarted =
        let (t, initialised, same) = started restarted in
        let kept =
          init-associate_participant fs laws p.fsp_id (some p.party_type) (some p.party_id)
            p.party_sub_type p.currency s s' (record { associations = []; files = s'.files }) t
            keyed (posted is_200 left) refl initialised in
        let associated = posted is_200 left in
        let (new, _) =
          associate_resolved fs p.fsp_id (some p.party_type) (some p.party_id) p.party_sub_type
            p.currency s s' associated in
        let as_before : (serve fs true (get_request p') s'').0
            ≡ (serve fs true (get_request p') s').0 =
          ap (λ o. o.0) (serve_get fs s'' p')
          ∙ ap (λ (m : Entries). fetched_reply (fsp_in fs s (map_get (key_of_params p') m)))
              (same ∙ kept)
          ∙ sym (ap (λ o. o.0) (serve_get fs s' p')) in
        (
          as_before,
          λ same_key.
              as_before
              ∙ ap (λ x. (serve fs true (get_request p') x).0) (sym left)
              ∙ serve_get-post fs s p p' new
              ∙ ground (arith, same_key, eq_iff (key_of_params p) (key_of_params p')),
        )
