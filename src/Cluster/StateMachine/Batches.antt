-- ===== src/Cluster/StateMachine/Batches.antt =====
-- A batch of committed entries that is applied without an error
-- (`apply` of crates/cluster/src/state_machine.rs).
use lumen.Base.{List, ◌∷◌, Result, ok, err, err_ok, ok_inj, map_ok, ◌≡◌, refl, ap, ◌∙◌}
use lumen.Core.Json.{JsonApi}
use lumen.Core.Tantivy.{TantivyApi}
use lumen.Core.Wal.{Externals}
use lumen.Proto.Openraft.{MembershipApi}
use lumen.Cluster.Storage.{Stored}
use lumen.Cluster.StateMachine.{MachineCodec, StateMachine, Response, and_then}

map_ok-ok :
    {E A B : Type 0} (f : A → B) (r : Result E A) (b : B)
    → map_ok f r ≡ ok b
    → (a : A) × (r ≡ ok a) × (f a ≡ b)
map_ok-ok f (ok a) b h = (a, refl, ok_inj (f a) b h)
map_ok-ok f (err e) b h = absurd (err_ok e b h)

module _ (api : MembershipApi) (codec : MachineCodec api) {json : JsonApi}
    (tantivy : TantivyApi json) (ext : Externals) where
  open api use {Membership}
  open tantivy use {Index}

  -- A batch that goes through: its first entry did, and then the rest.
  pub and_then_ok :
      (k : StateMachine Membership Index → Stored (List Response) × StateMachine Membership Index)
      (r : Stored Response × StateMachine Membership Index) (rs : List Response)
      (s' : StateMachine Membership Index)
      → and_then api codec tantivy ext k r ≡ (ok rs, s')
      → (q : Response) × (qs : List Response) × (r ≡ (ok q, r.1))
        × (k r.1 ≡ (ok qs, s'))
        × (q ∷ qs ≡ rs)
  and_then_ok k (err e, s) rs s' h = absurd (err_ok e rs (ap (λ x. x.0) h))
  and_then_ok k (ok q, s) rs s' h =
      let (qs, e, same) = map_ok-ok (λ qs. q ∷ qs) (k s).0 rs (ap (λ x. x.0) h) in
      (q, qs, refl, ap (λ x. (x, (k s).1)) e ∙ ap (λ t. (ok qs, t)) (ap (λ x. x.1) h), same)
