-- ===== src/Cluster/LogStore/Bounds.antt =====
-- The ranges of indexes that the log store is read in (`concrete_range` of
-- crates/cluster/src/log_store.rs) against what bounds mean.
use lumen.Base.{
  All-append, All-map, ℕ, suc, ◌+◌, ◌≤◌, ◌<◌, u64_mod, ltb, leb, Bool, true, ◌&&◌, Option, none,
  some, List, [], ◌∷◌, ◌++◌, length, All, retain, ◌≡◌, refl, sym, ap, ◌∙◌, ◌⊎◌, inl, inr, arith,
  saturating_suc, append-nil,
}
use lumen.Core.Log.{SegmentedLog, Records, last_index}
use lumen.Core.Log.Frame.{Bytes}
use lumen.Core.Log.Frame.Scan.{locs_of}
use lumen.Core.Log.Ranges.{in_range}
use lumen.Core.Log.Appending.{next_index}
use lumen.Core.Log.Segments.{
  Segment, Holds, IsChain, contents, contents_of, numbered, end_of, end_of-le, tagged, seg_records,
  records_of,
}
use lumen.Cluster.LogStore.{
  Bound, included, excluded, unbounded, concrete_range, range_from, range_to,
}

-- The index is on the right side of the bound.
abbrev pub after : Bound → ℕ → Bool
after (included s) index = leb s index
after (excluded s) index = ltb s index
after unbounded index = true

abbrev pub before : Bound → ℕ → Bool
before (included e) index = leb index e
before (excluded e) index = ltb index e
before unbounded index = true

abbrev pub within : Bound × Bound → ℕ → Bool
within (start, end) index = after start index && before end index

-- The last index, if there is one, is the one before the end.
abbrev EndsAt : ℕ → Option ℕ → Type 0
EndsAt end none = Unit
EndsAt end (some l) = suc l ≡ end

in_range_exact :
    (bounds : Bound × Bound) (last : Option ℕ) (end index from to : ℕ)
    → EndsAt end last
    → index < end
    → end < u64_mod
    → (last ≡ none → ⊥)
    → concrete_range bounds last ≡ (from, to)
    → in_range from to index ≡ within bounds index
unfolding concrete_range range_from range_to saturating_suc
in_range_exact bounds none end index from to e below bound there h = absurd (there refl)
in_range_exact (start, stop) (some l) end index from to e below bound there h =
    ap (λ r. in_range r.0 r.1 index) (sym h) ∙ exact start stop
  where
    exact :
        (start stop : Bound)
        → in_range
            (concrete_range (start, stop) (some l)).0
            (concrete_range (start, stop) (some l)).1
            index
          ≡ within (start, stop) index
    exact (included s) (included t) = ground arith
    exact (included s) (excluded t) = ground arith
    exact (included s) unbounded = ground arith
    exact (excluded s) (included t) = ground arith
    exact (excluded s) (excluded t) = ground arith
    exact (excluded s) unbounded = ground arith
    exact unbounded (included t) = ground arith
    exact unbounded (excluded t) = ground arith
    exact unbounded unbounded = ground arith

last_index-append :
    (xs ys : Records) (l : ℕ) → last_index ys ≡ some l → last_index (xs ++ ys) ≡ some l
unfolding last_index
last_index-append [] ys l h = h
last_index-append (x ∷ []) [] l h = ground arith
last_index-append (x ∷ []) (y ∷ ys) l h = h
last_index-append (x ∷ (x' ∷ xs)) ys l h = last_index-append (x' ∷ xs) ys l h

abbrev LastAt : Records → ℕ → Type 0
LastAt records end = (l : ℕ) × (last_index records ≡ some l) × (suc l ≡ end)

tagged-LastAt :
    (s index offset : ℕ) (ps : List Bytes)
    → 0 < length ps
    → LastAt (tagged s (locs_of index offset ps)) (index + length ps)
unfolding last_index
tagged-LastAt s index offset [] h = absurd (omega arith)
tagged-LastAt s index offset (p ∷ []) h = (index, refl, omega arith)
tagged-LastAt s index offset (p ∷ (q ∷ ps)) h =
    let (l, e, f) = tagged-LastAt s (index + 1) (offset + 8 + length p) (q ∷ ps) (omega arith) in
    (l, e, omega arith)

records_of-LastAt :
    (n : ℕ) (s : Segment) (r : List Segment)
    → IsChain n (s ∷ r)
    → LastAt (records_of (s ∷ r)) (end_of n (s ∷ r))
records_of-LastAt n s [] c =
    let (l, e, f) = tagged-LastAt s.start s.start 0 s.payloads c.2 in
    (l, ap last_index (append-nil (seg_records s)) ∙ e, omega (arith, c.0))
records_of-LastAt n s (t ∷ r) c =
    let (l, e, f) = records_of-LastAt (n + length s.payloads) t r c.3 in
    (l, last_index-append (seg_records s) (records_of (t ∷ r)) l e, f)

numbered-below :
    (index k : ℕ) (ps : List Bytes)
    → index + length ps ≤ k
    → All (λ (r : ℕ × Bytes). r.0 < k) (numbered index ps)
numbered-below index k [] h = tt
numbered-below index k (p ∷ ps) h = (omega arith, numbered-below (index + 1) k ps (omega arith))

contents_of-below :
    (n k : ℕ) (segs : List Segment)
    → IsChain n segs
    → end_of n segs ≤ k
    → All (λ (r : ℕ × Bytes). r.0 < k) (contents_of segs)
contents_of-below n k [] c h = tt
contents_of-below n k (s ∷ r) c h =
    All-append (λ r. r.0 < k) (numbered s.start s.payloads) (contents_of r)
      (numbered-below s.start k s.payloads
        (omega (arith, c.0, end_of-le (n + length s.payloads) r)))
      (contents_of-below (n + length s.payloads) k r c.3 h)

-- A log holds nothing, or its last index is the one before the next.
records-LastAt :
    (n start : ℕ) (closed : List Segment) (ps : List Bytes)
    → IsChain n closed
    → start ≡ end_of n closed
    → (contents_of closed ++ numbered start ps ≡ [])
      ⊎ LastAt (records_of closed ++ tagged start (locs_of start 0 ps)) (start + length ps)
records-LastAt n start closed (p ∷ ps) c h =
    let (l, e, f) = tagged-LastAt start start 0 (p ∷ ps) (omega arith) in
    inr (l, last_index-append (records_of closed) _ l e, f)
records-LastAt n start [] [] c h = inl refl
records-LastAt n start (s ∷ r) [] c h =
    let (l, e, f) = records_of-LastAt n s r c in
    inr (l, ap last_index (append-nil (records_of (s ∷ r))) ∙ e, omega (arith, h))

retain-same :
    (p q : ℕ → Bool) (rs : List (ℕ × Bytes))
    → All (λ (r : ℕ × Bytes). p r.0 ≡ q r.0) rs
    → retain (λ r. p r.0) rs ≡ retain (λ r. q r.0) rs
unfolding retain
retain-same p q [] h = refl
retain-same p q (r ∷ rs) h = rw (h.0, retain-same p q rs h.1) refl

-- Of the records of a log, the range has those that are within the bounds.
pub in_range-within :
    (crc32c : Bytes → ℕ) (log : SegmentedLog) (n : ℕ) (closed : List Segment) (last : Segment)
    (bounds : Bound × Bound) (from to : ℕ)
    → Holds crc32c log n closed last
    → concrete_range bounds (last_index log.records) ≡ (from, to)
    → retain (λ r. in_range from to r.0) (contents closed last)
      ≡ retain (λ r. within bounds r.0) (contents closed last)
in_range-within crc32c log n closed last bounds from to h range =
    elim (records-LastAt n last.start closed last.payloads h.chain h.last_start) [
      | inl e ↦ rw e (unfold retain in refl)
      | inr (l, e, f) ↦
          let known : last_index log.records ≡ some l = ap last_index h.records ∙ e in
          retain-same (in_range from to) (within bounds) (contents closed last) (
            All-map
              (λ r below.
                in_range_exact bounds (some l) (next_index last) r.0 from to f below h.sized.1
                  (λ q. ground arith) (ap (concrete_range bounds) (sym known) ∙ range))
              (contents closed last)
              (All-append (λ r. r.0 < next_index last) (contents_of closed)
                (numbered last.start last.payloads)
                (contents_of-below n (next_index last) closed h.chain (omega (arith, h.last_start)))
                (numbered-below last.start (next_index last) last.payloads (omega arith))))
    ]
