-- ===== src/Server/Ingest/Runs.antt =====
-- A request on its own: the answer and the tables, for a new key, a known one and one that has expired.
use gocourier.Common.{ℕ, suc, ◌≡◌, refl, Bool, true, false, [], String, if◌then◌else◌, ◌∙◌, ap}
use gocourier.Api.Types.{Channel, Priority, pending, queued, status_eq}
use gocourier.Server.Failures.{Outcome, ok}
use gocourier.Server.Schema.{IngestRequest, validate, parse_channel, parse_priority}
use gocourier.Server.Schema.Valid.{validate-validate}
use gocourier.Server.Delivery.{Delivery, new_delivery_from_request, should_schedule, queue}
use gocourier.Server.Ports
use gocourier.Server.Ports.{Op, Prog, done, fail, call, settle}
use gocourier.Server.Postgres.{find_by_idempotency_key}
use gocourier.Server.Run.{Env, System, perform, exec}
use gocourier.Server.Dispatch.Calm.{calm}
use gocourier.Server.Ingest.{
  Config, ingest, store, on_found, on_stored, invalid, ready, ingestion_of,
}

-- A request that is valid, what `Validate` makes of it, and its channel and priority.
pub record IsValid (req v : IngestRequest) (ch : Channel) (pri : Priority) : Type 0 where
  pub valid : validate req ≡ ok v
  pub channel_is : parse_channel v.channel ≡ ok ch
  pub priority_is : parse_priority v.priority ≡ ok pri

-- The delivery that is made of a valid request.
abbrev pub made : String → IngestRequest → Channel → Priority → ℕ → Delivery
made id v ch pri now = record {
  id = id;
  idempotency_key = v.idempotency_key;
  tenant_id = v.metadata.tenant_id;
  channel = ch;
  priority = pri;
  recipient = v.recipient;
  template = v.template;
  payload = v.payload;
  status = pending;
  attempts = [];
  scheduled_at = v.scheduled_at;
  correlation_id = v.metadata.correlation_id;
  causation_id = v.metadata.causation_id;
  created_at = now;
  updated_at = now;
  retry_count = 0;
  last_error = "";
}

new_delivery-made :
    (id : String) (req v : IngestRequest) (ch : Channel) (pri : Priority) (now : ℕ)
    → IsValid req v ch pri
    → new_delivery_from_request id v now ≡ ok (made id v ch pri now)
unfolding new_delivery_from_request
new_delivery-made id req v ch pri now h =
    rw (validate-validate req v h.valid, h.channel_is, h.priority_is) refl

-- The delivery that is stored: queued, unless it is scheduled.
abbrev pub readied : String → IngestRequest → Channel → Priority → ℕ → Bool → Delivery
readied id v ch pri now b = record (made id v ch pri now) { status = if b then pending else queued }

ready-readied :
    (id : String) (v : IngestRequest) (ch : Channel) (pri : Priority) (now : ℕ) (b : Bool)
    → ready now b (made id v ch pri now) ≡ ok (readied id v ch pri now b)
unfolding queue status_eq
ready-readied id v ch pri now true = refl
ready-readied id v ch pri now false = refl

module _ (env : Env) (cfg : Config) where
  -- Up to the answer about the key.
  pub ingest_valid :
      (req v : IngestRequest) (ch : Channel) (pri : Priority) (s : System)
      → IsValid req v ch pri
      → exec (calm env) (ingest cfg req) s
        ≡ exec
            (calm env)
            (on_found cfg v
              (find_by_idempotency_key (env.clock s.moment) v.idempotency_key ch s.db))
            (record s { moment = suc s.moment })
  unfolding ingest exec perform
  ingest_valid req v ch pri s h =
      ap
        (λ (r : Outcome IngestRequest).
          exec (calm env)
            (Ports.◌>>=◌ (settle (invalid r)) λ v'.
              Ports.◌>>=◌ (settle (parse_channel v'.channel))
                λ ch'. call (Op.find_by_idempotency_key v'.idempotency_key ch') (on_found cfg v'))
            s)
        h.valid
      ∙ ap
          (λ (r : Outcome Channel).
            exec (calm env)
              (Ports.◌>>=◌ (settle r)
                λ ch'. call (Op.find_by_idempotency_key v.idempotency_key ch') (on_found cfg v))
              s)
          h.channel_is

  abbrev pub is_scheduled : IngestRequest → Channel → Priority → System → Bool
  is_scheduled v ch pri s =
      should_schedule (env.clock (suc s.moment))
        (made (env.uuid (suc (suc s.moment))) v ch pri (env.clock (suc s.moment)))

  -- The delivery of the request, for the moment at which its key is not found.
  abbrev pub delivery_for : IngestRequest → Channel → Priority → System → Delivery
  delivery_for v ch pri s =
      readied (env.uuid (suc (suc s.moment))) v ch pri (env.clock (suc s.moment))
        (is_scheduled v ch pri s)

  pub store_valid :
      (req v : IngestRequest) (ch : Channel) (pri : Priority) (s : System)
      → IsValid req v ch pri
      → exec (calm env) (store cfg v) (record s { moment = suc s.moment })
        ≡ exec
            (calm env)
            (call
              (Op.ingest_transactional (
                ingestion_of cfg
                  (env.clock (suc s.moment))
                  (is_scheduled v ch pri s)
                  (delivery_for v ch pri s)))
              (on_stored (delivery_for v ch pri s)))
            (record s { moment = suc (suc (suc s.moment)) })
  unfolding store exec perform
  store_valid req v ch pri s h =
      let now = env.clock (suc s.moment) in
      let m = made (env.uuid (suc (suc s.moment))) v ch pri now in
      let after : System = record s { moment = suc (suc (suc s.moment)) } in
      ap
        (λ (r : Outcome Delivery).
          exec (calm env)
            (Ports.◌>>=◌ (settle (invalid r)) λ x.
              Ports.◌>>=◌ (settle (ready now (should_schedule now x) x)) λ d.
                call (Op.ingest_transactional (ingestion_of cfg now (should_schedule now x) d))
                  (on_stored d))
            after)
        (new_delivery-made (env.uuid (suc (suc s.moment))) req v ch pri now h)
      ∙ ap
          (λ (r : Outcome Delivery).
            exec (calm env)
              (Ports.◌>>=◌ (settle r) λ d.
                call (Op.ingest_transactional (ingestion_of cfg now (should_schedule now m) d))
                  (on_stored d))
              after)
          (ready-readied (env.uuid (suc (suc s.moment))) v ch pri now (should_schedule now m))
