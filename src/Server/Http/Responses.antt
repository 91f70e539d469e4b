-- ===== src/Server/Http/Responses.antt =====
-- The responses to a request that is made twice, and to a replay of a delivery that does not exist.
use gocourier.Common.{suc, ◌+◌, ◌<◌, ◌≡◌, true, ap}
use gocourier.Api.Types.{Channel, Priority}
use gocourier.Server.Failures.{ok}
use gocourier.Server.Schema.{IngestRequest}
use gocourier.Server.Delivery.{Delivery}
use gocourier.Server.Run.{Env, System}
use gocourier.Server.Dispatch.Calm.{calm}
use gocourier.Server.Dispatch
use gocourier.Server.Ingest.{ingest}
use gocourier.Server.Ingest
use gocourier.Server.Ingest.Stored.{IsNew}
use gocourier.Server.Ingest.Runs.{IsValid, delivery_for}
use gocourier.Server.Ingest.Idempotency.{accepted_answer, ingest_twice}
use gocourier.Server.Http.{ingest_body, ingest_reply, handle_ingest}

-- A request with a new key is answered with the status 202. The same request, while the key has not expired,
-- is answered with 200 and the same id, and changes no table.
pub handle_ingest_twice :
    (env : Env) (cfg : Ingest.Config) (req v : IngestRequest) (ch : Channel) (pri : Priority)
    (s : System)
    → IsValid req v ch pri
    → IsNew (delivery_for env cfg v ch pri s) s.db
    → env.clock (suc (suc (suc (suc s.moment)))) < env.clock (suc s.moment) + cfg.idempotency_ttl
    → let answer = accepted_answer env cfg v ch pri s in
      let (first, s₁) = handle_ingest (calm env) cfg (ok req) s in
      let (second, s₂) = handle_ingest (calm env) cfg (ok req) s₁ in
      (first ≡ record { status = 202; body = ingest_body answer })
      × (second ≡ record { status = 200; body = ingest_body (record answer { duplicate = true }) })
      × (s₂.db ≡ s₁.db)
unfolding handle_ingest
handle_ingest_twice env cfg req v ch pri s h new live =
    let (first, second, same) = ingest_twice env cfg req v ch pri s h new live in
    (ap ingest_reply first, ap ingest_reply second, same)
