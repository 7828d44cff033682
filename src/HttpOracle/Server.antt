-- ===== src/HttpOracle/Server.antt =====
-- The routes of the oracle's server: packages/http-oracle-svc/src/server/remote_oracle_routes.ts. A
-- request arrives with the verdict of express-validator.
use account_lookup_bc.Prelude.{String, none, some, Bool, ℕ, ◌==◌, if◌then◌else◌}
use account_lookup_bc.Effect.{ok, err, Action, pure, ◌>>=◌, ◌>>◌}
use account_lookup_bc.Types.{Nullable}
use account_lookup_bc.HttpOracle.{
  Files, OracleState, get_participant_fsp_id, associate_participant, disassociate_participant,
  health_check,
}

-- What `extractRequestParams` returns.
pub record Params : Type 0 where
  pub party_type : String
  pub party_id : String
  pub party_sub_type : Nullable
  pub currency : Nullable
  pub fsp_id : Nullable

pub data OracleRequest : Type 0 where
  get_request delete_request post_request : Params → OracleRequest
  health_request : OracleRequest

-- `res.sendStatus(code)`, `res.send({fspId})`, `res.send(fetched)`, and `res.status(code).json(…)`
-- with errors.
pub data Reply : Type 0 where
  status_only : ℕ → Reply
  fsp_sent : String → Reply
  health_sent : Bool → Reply
  error_sent : ℕ → Reply

abbrev pub status_of : Reply → ℕ
status_of (status_only code) = code
status_of (fsp_sent fsp_id) = 200
status_of (health_sent healthy) = 200
status_of (error_sent code) = code

-- `if (!fetched) … else …`
abbrev pub fetched_reply : Nullable → Reply
fetched_reply none = status_only 404
fetched_reply (some fsp_id) = if fsp_id == "" then status_only 404 else fsp_sent fsp_id

-- `try { … } catch (err) { … }` around the call
abbrev pub or_500 : {S : Type 0} → Action S Reply → S → Reply × S
or_500 m s = let (r, s') = m s in (elim r [ ok reply ↦ reply | err _ ↦ error_sent 500 ], s')

-- `if (!this.validateRequest(req, res)) return;`
abbrev pub if_valid_or_422 : {S : Type 0} → Bool → (S → Reply × S) → S → Reply × S
if_valid_or_422 valid m s = if valid then m s else (error_sent 422, s)

module _ {W : Type 0} (fs : Files W) (valid : Bool) where
  -- The handlers
  unfoldable pub serve : OracleRequest → OracleState W → Reply × OracleState W
  serve (get_request p) = if_valid_or_422 valid (
      or_500 (do
        fetched ←
            get_participant_fsp_id fs (some p.party_type) (some p.party_id) p.party_sub_type
              p.currency
        pure (fetched_reply fetched)))
  serve (delete_request p) = if_valid_or_422 valid (
      or_500 (do
        disassociate_participant fs p.fsp_id (some p.party_type) (some p.party_id) p.party_sub_type
            p.currency
        pure (status_only 200)))
  serve (post_request p) = if_valid_or_422 valid (
      or_500 (do
        associate_participant fs p.fsp_id (some p.party_type) (some p.party_id) p.party_sub_type
            p.currency
        pure (status_only 200)))
  serve health_request = or_500 (do healthy ← health_check fs; pure (health_sent healthy))
