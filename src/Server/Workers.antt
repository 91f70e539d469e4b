-- ===== src/Server/Workers.antt =====
-- The workers, the API and the publisher side by side: cmd/worker, cmd/api. Between two calls of one program
-- any other may make its own, and a process may end at any moment.
pub mod Protocol
pub mod Rows
mod Keeps
mod Quiet
mod Perform
mod Tables
mod Follows
pub mod Safety
use gocourier.Common.{
  ℕ, ◌≡◌, Option, some, List, [], ◌∷◌, ◌++◌, String, get_elem?, set, total, if◌then◌else◌, str_eq,
}
use gocourier.Server.Failures.{Failure, Outcome}
use gocourier.Server.Schema.{IngestRequest}
use gocourier.Server.Ports.{Fields, Op, Answer, Prog, done, fail, call, ◌>>=◌, ◌>>◌}
use gocourier.Server.Run.{Env, System, perform}
use gocourier.Server.Dispatch.{handle_message}
use gocourier.Server.Dispatch
use gocourier.Server.Ingest.{ingest}
use gocourier.Server.Ingest
use gocourier.Server.Outbox.{flush}

-- What the services are configured with.
pub record Settings : Type 0 where
  pub dispatch_config : Dispatch.Config
  pub ingest_config : Ingest.Config
  pub batch : ℕ

-- The calls that are under way, and what they act on.
pub record Workers : Type 0 where
  pub system : System
  pub programs : List (Prog (Unit {0}))

abbrev begun : Prog (Unit {0}) → Workers → Workers
begun p w = record w { programs = w.programs ++ p ∷ [] }

module _ (env : Env) (settings : Settings) where
  -- A message is consumed, as often as the broker delivers it; a request comes in; the publisher's ticker
  -- fires; a program makes its next call; a program ends with its process.
  pub data Step (w : Workers) : Workers → Type 0 where
    consume :
        (payload : Outcome Fields) (headers : Fields)
        → Step w (begun (handle_message settings.dispatch_config payload headers) w)
    request :
        (req : IngestRequest) → Step w (begun (ingest settings.ingest_config req >> done tt) w)
    tick : Step w (begun (flush settings.batch) w)
    proceed :
        (n : ℕ) (o : Op) (k : Outcome (Answer o) → Prog (Unit {0}))
        → get_elem? w.programs n ≡ some (call o k)
        → Step w (record {
          system = (perform env o w.system).1;
          programs = set w.programs n (k (perform env o w.system).0);
        })
    crash :
        (n : ℕ) (p : Prog (Unit {0})) (e : Failure)
        → get_elem? w.programs n ≡ some p
        → Step w (record w { programs = set w.programs n (fail e) })

  pub data Reach (w : Workers) : Workers → Type 0 where
    here : Reach w w
    next : {u v : Workers} → Reach w u → Step u v → Reach w v

-- How often the providers have accepted a delivery.
abbrev pub times_sent : String → System → ℕ
times_sent i s = total (λ j. if str_eq j i then 1 else 0) s.sent

abbrev sends : String → Prog (Unit {0}) → ℕ
sends i (call (Op.send d) k) = if str_eq d.id i then 1 else 0
sends i _ = 0

-- How many programs are about to hand a delivery to a provider.
abbrev pub sending : String → Workers → ℕ
sending i w = total (sends i) w.programs
