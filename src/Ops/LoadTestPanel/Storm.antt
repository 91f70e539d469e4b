-- ===== src/Ops/LoadTestPanel/Storm.antt =====
-- The duplicate storms that the panel of web/src/components/ops/LoadTestPanel.tsx starts.
use gocourier.Common.{
  ℕ, zero, suc, ◌≡◌, refl, ap, ◌∙◌, ◌⊎◌, inl, inr, Bool, Option, none, some, [], ◌∷◌, String, All,
  All-append, template, decimal, ltb, Bool-cases, subst, sym,
}
use gocourier.World.{World, date_now}
use gocourier.Api.Types.{SendNotificationReq, SendNotificationResp}
use gocourier.LoadTest.Config.{LoadScenarioId, duplicate_seq, duplicate_par, scenario_count}
use gocourier.LoadTest.Request.Scenario.{build_scenario_request-shared_key}
use gocourier.LoadTest.Run.{Pool, Reach, run_sequential}
use gocourier.LoadTest.Run.Claim.{build_all}
use gocourier.LoadTest.Run.Complete.{Reach-accounts}
use gocourier.LoadTest.Run.Sequential.{run_sequential-Completed}
use gocourier.Ops.LoadTestPanel.State.{Panel}
use gocourier.Ops.LoadTestPanel.Launch.{
  Launch, launched, start_scenario, shared_key_of, launch_build, launch_of,
}

module _ {Req : Type 0} (build : ℕ → World → Req × World) (P : Req → Type 0) where
  -- What holds of every request that is built holds of all of them.
  build_all-All :
      (n : ℕ) (w : World) → ((i : ℕ) (v : World) → P (build i v).0) → All P (build_all build n w).0
  unfolding build_all
  build_all-All zero w h = tt
  build_all-All (suc n) w h = All-append P _ _ (build_all-All n w h) (h n _, tt)

-- A request has an idempotency key; what is no request has any.
abbrev pub HasKey : String → Option SendNotificationReq → Type 0
HasKey key none = Unit
HasKey key (some req) = req.idempotency_key ≡ key

abbrev pub IsStorm : LoadScenarioId → Type 0
IsStorm id = (id ≡ duplicate_seq) ⊎ (id ≡ duplicate_par)

HasKey-of :
    (key : String) (o : Option SendNotificationReq)
    → ((req : SendNotificationReq) → o ≡ some req → req.idempotency_key ≡ key)
    → HasKey key o
HasKey-of key none h = tt
HasKey-of key (some req) h = h req refl

-- The key of a storm that starts in a world.
abbrev pub storm_key : World → String
storm_key w = template ("dup-storm-" ∷ decimal (w.clock w.ticked) ∷ [])

launch-HasKey :
    (l : Launch) (key : String)
    → IsStorm l.scenario
    → l.shared_key ≡ some key
    → (i : ℕ) (v : World) → HasKey key (launch_build l i v).0
unfolding launch_build
launch-HasKey l key storm shared i v = HasKey-of key _ (λ req h.
    build_scenario_request-shared_key l.scenario l.config i key v req storm (rw shared at h))

storm-shared_key :
    (id : LoadScenarioId) (w : World) → IsStorm id → (shared_key_of id w).0 ≡ some (storm_key w)
unfolding shared_key_of date_now
storm-shared_key id w (inl e) = rw e refl
storm-shared_key id w (inr e) = rw e refl

launch_is :
    (id : LoadScenarioId) (p : Panel) (w : World) (l : Launch)
    → (start_scenario id p w).0.1 ≡ launched l
    → launch_of id p.config (shared_key_of id w).0 ≡ l
unfolding start_scenario
launch_is id p w l h = elim (Bool-cases (ltb (scenario_count id p.config) 1)) [
  | inl few ↦ cc
  | inr enough ↦ cc
]

started-HasKey :
    (id : LoadScenarioId) (p : Panel) (w : World) (l : Launch)
    → IsStorm id
    → (start_scenario id p w).0.1 ≡ launched l
    → (i : ℕ) (v : World) → HasKey (storm_key w) (launch_build l i v).0
started-HasKey id p w l storm h =
    let e = launch_is id p w l h in
    launch-HasKey l (storm_key w) (subst (λ (x : Launch). IsStorm x.scenario) e storm)
      (sym (ap (λ (x : Launch). x.shared_key) e) ∙ storm-shared_key id w storm)

-- In a duplicate storm all requests that are ever sent, under every order of the replies in a parallel
-- run and in a sequential one, have one idempotency key, made of the time of its start.
pub storm-HasKey :
    (id : LoadScenarioId) (p : Panel) (w : World) (l : Launch)
    → IsStorm id
    → (start_scenario id p w).0.1 ≡ launched l
    → (timer : ℕ → ℕ) (watched : Bool) (concurrency stagger_ms : ℕ) (v : World)
      (reply : ℕ → Option SendNotificationResp)
    → ((n : ℕ) (s : Pool (Option SendNotificationReq))
        → Reach (launch_build l) timer watched l.count concurrency v reply n s
        → All (HasKey (storm_key w)) s.sent)
      × All
          (HasKey (storm_key w))
          (run_sequential (launch_build l) timer watched l.count stagger_ms reply v).sent
storm-HasKey id p w l storm h timer watched concurrency stagger_ms v reply =
    let built = started-HasKey id p w l storm h in
    let same =
      (run_sequential-Completed (launch_build l) timer watched l.count stagger_ms v
        reply).all_sent in
    (
      λ n s r.
          let (_, _, _, _, sent) =
            Reach-accounts (launch_build l) timer watched l.count concurrency v reply r in
          rw sent (build_all-All (launch_build l) _ _ v built),
      rw same (build_all-All (launch_build l) _ _ v built),
    )
