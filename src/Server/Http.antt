-- ===== src/Server/Http.antt =====
-- internal/adapters/http/server.go: the key of a request, and the handlers of the two routes that change
-- something. A response is its status and its body.
pub mod Responses
use gocourier.Common.{
  ℕ, Bool, true, false, not, Option, none, some, List, [], ◌∷◌, String, if◌then◌else◌, any, str_eq,
  is_empty, ◌or_else◌,
}
use gocourier.Server.Failures.{
  Kind, Failure, Outcome, ok, err, is, err_validation, err_unauthorized,
}
use gocourier.Server.Schema.{IngestRequest, IngestResponse}
use gocourier.Server.Ports.{Fields, Prog, done, fail, call}
use gocourier.Server.Run.{Env, System, exec}
use gocourier.Server.Ingest.{ingest}
use gocourier.Server.Ingest
use gocourier.Server.Dispatch.{replay_delivery}
use gocourier.Server.Dispatch

pub data Body : Type 0 where
  error_body : String → Body
  ingest_body : IngestResponse → Body
  replay_body : String → Body

pub record Response : Type 0 where
  pub status : ℕ
  pub body : Body

abbrev pub write_error : ℕ → Failure → Response
write_error status e = record { status = status; body = error_body e.message }

-- `auth`, around the handler's response and what it leaves: the key is in the set of keys. `bearer` is the
-- header `Authorization` without the prefix `Bearer `, if it has it.
unfoldable pub auth : List String → String → String → Response × System → System → Response × System
auth keys api_key bearer next s =
    let key = if is_empty api_key then bearer else api_key in
    if any (λ k. str_eq k key) keys then next else (write_error 401 err_unauthorized, s)

abbrev pub ingest_error_status : Failure → ℕ
ingest_error_status e =
    if is Kind.validation e then 400 else if is Kind.unauthorized e then 401 else 500

abbrev pub ingest_reply : Outcome IngestResponse → Response
ingest_reply (ok resp) = record {
  status = if resp.duplicate then 200 else 202;
  body = ingest_body resp;
}
ingest_reply (err e) = write_error (ingest_error_status e) e

abbrev pub replay_reply : String → Outcome (Unit {0}) → Response
replay_reply id (ok _) = record { status = 200; body = replay_body id }
replay_reply id (err e) = write_error (if is Kind.not_found e then 404 else 500) e

module _ (env : Env) where
  -- The request, as the JSON decoder reads it, or its error.
  unfoldable pub handle_ingest : Ingest.Config → Outcome IngestRequest → System → Response × System
  unfolding ingest
  handle_ingest cfg (err e) s = (write_error 400 e, s)
  handle_ingest cfg (ok req) s = let (r, s') = exec env (ingest cfg req) s in (ingest_reply r, s')

  unfoldable pub handle_replay : Dispatch.Config → String → System → Response × System
  unfolding replay_delivery
  handle_replay cfg id s =
      let (r, s') = exec env (replay_delivery cfg id) s in
      if is_empty id then (write_error 400 err_validation, s) else (replay_reply id r, s')
