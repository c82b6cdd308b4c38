-- ===== src/Api/Engine/Answers.antt =====
-- What a call that was answered says of the action under it (crates/api/src/engine.rs).
use lumen.Base.{Result, ok, err, ok_inj, err_ok, map_err, ap, ap₂, ◌≡◌}
use lumen.Core.Error.{Outcome, done, failed, panicked}
use lumen.Core.Catalog.State.{Catalog, Action}
use lumen.Cluster.Client.{ClientError}
use lumen.Cluster.Client as Client
use lumen.Api.Errors.{ApiError, core, internal, from_client_error}
use lumen.Api.Engine.{core_result}
use lumen.Api.Engine.Standalone as Standalone
use lumen.Api.Engine.Clustered as Clustered

-- An action whose result the engine answers with was done.
pub run_done :
    {S A : Type 0} (f : Action S A) (a : A) (s s' : S)
    → Standalone.run f s ≡ (ok a, s')
    → f s ≡ (done a, s')
unfolding Standalone.run core_result
run_done {S = S} {A = A} f a s s' h = go (f s) h
  where
    go :
        (r : Outcome A × S)
        → ◌≡◌ {A = Result ApiError A × S} (core_result r.0, r.1) (ok a, s')
        → r ≡ (done a, s')
    go (done b, t) e = ap₂ (λ x y. (done x, y)) (ok_inj b a (ap (λ r. r.0) e)) (ap (λ r. r.1) e)
    go (failed x, t) e = absurd (err_ok (core x) a (ap (λ r. r.0) e))
    go (panicked, t) e = absurd (err_ok internal a (ap (λ r. r.0) e))

pub asked_ok :
    {Index A : Type 0} (m : Client.Call Index A) (a : A) (c c' : Catalog Index)
    → Clustered.asked m c ≡ (ok a, c')
    → m c ≡ (ok a, c')
unfolding Clustered.asked
asked_ok {Index = Index} {A = A} m a c c' h = go (m c) h
  where
    go :
        (r : Result ClientError A × Catalog Index)
        → ◌≡◌ {A = Result ApiError A × Catalog Index}
            (map_err from_client_error r.0, r.1)
            (ok a, c')
        → r ≡ (ok a, c')
    go (ok b, t) e = ap₂ (λ x y. (ok x, y)) (ok_inj b a (ap (λ r. r.0) e)) (ap (λ r. r.1) e)
    go (err x, t) e = absurd (err_ok (from_client_error x) a (ap (λ r. r.0) e))

pub client_run_ok :
    {Index A : Type 0} (f : Action (Catalog Index) A) (a : A) (c c' : Catalog Index)
    → Client.run f c ≡ (ok a, c')
    → f c ≡ (done a, c')
client_run_ok {Index = Index} {A = A} f a c c' h = go (f c) h
  where
    go :
        (r : Outcome A × Catalog Index)
        → ◌≡◌ {A = Result ClientError A × Catalog Index} (Client.client_result r.0, r.1) (ok a, c')
        → r ≡ (done a, c')
    go (done b, t) e = ap₂ (λ x y. (done x, y)) (ok_inj b a (ap (λ r. r.0) e)) (ap (λ r. r.1) e)
    go (failed x, t) e = absurd (err_ok (Client.core x) a (ap (λ r. r.0) e))
    go (panicked, t) e = absurd (err_ok Client.fatal a (ap (λ r. r.0) e))
