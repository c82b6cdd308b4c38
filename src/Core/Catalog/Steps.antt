-- ===== src/Core/Catalog/Steps.antt =====
-- What the actions of crates/core/src/catalog.rs change when they succeed.
use lumen.Base.{
  ℕ, ◌+◌, ◌%◌, u64_mod, Text, text_ord, nat_ord, some, ok, err, get, insert, Option-cases,
  Result-cases, inl, inr, ◌≡◌, refl, ap, sym, ◌∙◌, ok_inj,
}
use lumen.Core.Error.{Fallible, Outcome, done, failed_done, done_inj}
use lumen.Core.Catalog.State.{Catalog, Entry, Action, lift, ◌>>=◌, bind_done}
use lumen.Core.Catalog.Store.{lookup, get_entry, with_index, next_seq}
use lumen.Core.Catalog.Writes.{log_op, wal_entry}
use lumen.Core.Wal.{Externals, append}
use lumen.Core.Log.{SegmentedLog}
use lumen.Proto.Command as Proto

module _ {S A : Type 0} where
  lift_done : (r : Fallible A) (a : A) (c d : S) → lift r c ≡ (done a, d) → (r ≡ ok a) × (c ≡ d)
  lift_done (ok b) a c d h = (ap ok (done_inj b a (ap (λ x. x.0) h)), ap (λ x. x.1) h)
  lift_done (err e) a c d h = absurd (failed_done e a (ap (λ x. x.0) h))

module _ {Index : Type 0} where
  get_entry_done :
      (name : Text) (entry : Entry) (c d : Catalog Index)
      → get_entry name c ≡ (done entry, d)
      → (get name c.collections ≡ some entry) × (c ≡ d)
  unfolding get_entry lookup
  get_entry_done name entry c d h = elim (Option-cases (get name c.collections)) [
    | inl e ↦ absurd (failed_done _ entry (ap (λ x. x.0) (rw (e, get_entry) at h)))
    | inr (found, e) ↦
        let (q, r) = lift_done (ok found) entry c d (rw (e, get_entry) at h) in
        (e ∙ ap some (ok_inj found entry q), r)
  ]

  module _ {A : Type 0} where
    pub with_index_done :
        (uuid : ℕ) (f : Index → Outcome A × Index) (a : A) (c d : Catalog Index)
        → with_index uuid f c ≡ (done a, d)
        → (i j : Index) × (get uuid c.dirs ≡ some i)
          × (f i ≡ (done a, j))
          × (record c { dirs = insert uuid j c.dirs } ≡ d)
    unfolding with_index
    with_index_done uuid f a c d h = elim (Option-cases (get uuid c.dirs)) [
      | inl e ↦ absurd (failed_done _ a (ap (λ x. x.0) (rw (e, with_index) at h)))
      | inr (i, e) ↦ (
        i,
        (f i).1,
        e,
        ap (λ o. (o, (f i).1)) (ap (λ x. x.0) (rw (e, with_index) at h)),
        ap (λ x. x.1) (rw (e, with_index) at h),
      )
    ]

  -- A logged operation takes the next number and changes the counter and the write-ahead log only.
  log_op_done :
      (ext : Externals) (op : Proto.Op) (seq : ℕ) (c d : Catalog Index)
      → log_op ext op c ≡ (done seq, d)
      → (wal : SegmentedLog) × ((c.seq + 1) % u64_mod ≡ seq)
        × (append ext (wal_entry seq op) c.wal ≡ ok wal)
        × (record c { seq = seq; wal = wal } ≡ d)
  unfolding log_op next_seq
  log_op_done ext op seq c d h =
      elim (Result-cases (append ext (wal_entry ((c.seq + 1) % u64_mod) op) c.wal)) [
        | inl (x, e) ↦ absurd (failed_done x seq (ap (λ r. r.0) (rw (e, log_op, next_seq) at h)))
        | inr (wal, e) ↦
            let numbered : (c.seq + 1) % u64_mod ≡ seq =
              done_inj ((c.seq + 1) % u64_mod) seq
                (ap (λ r. r.0) (rw (e, log_op, next_seq) at h)) in
            (
              wal,
              numbered,
              ap (λ n. append ext (wal_entry n op) c.wal) (sym numbered) ∙ e,
              ap (λ n. record c { seq = n; wal = wal }) (sym numbered)
                  ∙ ap (λ r. r.1) (rw (e, log_op, next_seq) at h),
            )
      ]

-- The same of the first action of a chain that succeeds, for a goal `P`.
module _ {S A B P : Type 0} where
  pub lift_then :
      (r : Fallible A) (f : A → Action S B) (b : B) (c d : S)
      → (lift r >>= f) c ≡ (done b, d)
      → ((a : A) → r ≡ ok a → f a c ≡ (done b, d) → P)
      → P
  lift_then (ok a) f b c d h k = k a refl h
  lift_then (err e) f b c d h k = absurd (failed_done e b (ap (λ x. x.0) h))

module _ {Index B P : Type 0} where
  pub entry_then :
      (name : Text) (f : Entry → Action (Catalog Index) B) (b : B) (c d : Catalog Index)
      → (get_entry name >>= f) c ≡ (done b, d)
      → ((entry : Entry) → get name c.collections ≡ some entry → f entry c ≡ (done b, d) → P)
      → P
  entry_then name f b c d h k =
      let (entry, c', e, h') = bind_done (get_entry name) f c b d h in
      let (found, same) = get_entry_done name entry c c' e in k entry found (ap (f entry) same ∙ h')

  pub log_then :
      (ext : Externals) (op : Proto.Op) (f : ℕ → Action (Catalog Index) B) (b : B)
      (c d : Catalog Index)
      → (log_op ext op >>= f) c ≡ (done b, d)
      → ((wal : SegmentedLog)
          → append ext (wal_entry ((c.seq + 1) % u64_mod) op) c.wal ≡ ok wal
          → f ((c.seq + 1) % u64_mod) (record c { seq = (c.seq + 1) % u64_mod; wal = wal })
            ≡ (done b, d)
          → P)
      → P
  log_then ext op f b c d h k =
      let (seq, c', e, h') = bind_done (log_op ext op) f c b d h in
      let (wal, numbered, logged, same) = log_op_done ext op seq c c' e in
      k wal (ap (λ n. append ext (wal_entry n op) c.wal) numbered ∙ logged)
        (ap (λ n. f n (record c { seq = n; wal = wal })) numbered ∙ ap (f seq) same ∙ h')

  module _ {A : Type 0} where
    pub index_then :
        (uuid : ℕ) (f : Index → Outcome A × Index) (g : A → Action (Catalog Index) B) (b : B)
        (c d : Catalog Index)
        → (with_index uuid f >>= g) c ≡ (done b, d)
        → ((a : A) (i j : Index)
            → get uuid c.dirs ≡ some i
            → f i ≡ (done a, j)
            → g a (record c { dirs = insert uuid j c.dirs }) ≡ (done b, d)
            → P)
        → P
    index_then uuid f g b c d h k =
        let (a, c', e, h') = bind_done (with_index uuid f) g c b d h in
        let (i, j, at, ran, same) = with_index_done uuid f a c c' e in
        k a i j at ran (ap (g a) same ∙ h')
