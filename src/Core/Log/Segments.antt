-- ===== src/Core/Log/Segments.antt =====
-- What a segmented log holds: segments of payloads with contiguous indexes. The last segment is
-- the active one; the others are closed and hold at least one record.
use lumen.Base.{
  ℕ, ◌+◌, ◌≤◌, ◌<◌, u64_mod, ◌≡◌, refl, sym, ap, ◌∙◌, some, List, [], ◌∷◌, ◌++◌, append_assoc,
  append-nil, length, All, arith, BTreeMap, nat_ord, Above, Above-append, insert-Above,
}
use lumen.Core.Log.{RecordLoc, SegmentedLog, Disk, Records, index_locs}
use lumen.Core.Log.Frame.{Bytes}
use lumen.Core.Log.Frame.Scan.{Fits, frames, locs_of}

pub record Segment : Type 0 where
  pub start : ℕ
  pub payloads : List Bytes

abbrev pub IsSized : Segment → Type 0
IsSized s = All Fits s.payloads × (s.start + length s.payloads < u64_mod)

-- Closed segments from index `n` on.
abbrev pub IsChain : ℕ → List Segment → Type 0
IsChain n [] = Unit
IsChain n (s ∷ r) =
    (s.start ≡ n) × IsSized s × (0 < length s.payloads) × IsChain (n + length s.payloads) r

-- The index that follows the closed segments.
abbrev pub end_of : ℕ → List Segment → ℕ
end_of n [] = n
end_of n (s ∷ r) = end_of (n + length s.payloads) r

abbrev pub tagged : ℕ → List (ℕ × ℕ × ℕ) → Records
tagged s [] = []
tagged s ((index, offset, len) ∷ locs) =
    (index, record { segment_start = s; payload_offset = offset; len = len }) ∷ tagged s locs

abbrev pub seg_records : Segment → Records
seg_records s = tagged s.start (locs_of s.start 0 s.payloads)

abbrev pub records_of : List Segment → Records
records_of [] = []
records_of (s ∷ r) = seg_records s ++ records_of r

abbrev pub starts_of : List Segment → List ℕ
starts_of [] = []
starts_of (s ∷ r) = s.start ∷ starts_of r

abbrev pub numbered : ℕ → List Bytes → List (ℕ × Bytes)
numbered index [] = []
numbered index (p ∷ ps) = (index, p) ∷ numbered (index + 1) ps

abbrev pub contents_of : List Segment → List (ℕ × Bytes)
contents_of [] = []
contents_of (s ∷ r) = numbered s.start s.payloads ++ contents_of r

module _ (crc32c : Bytes → ℕ) where
  abbrev pub disk_of : List Segment → Disk
  disk_of [] = []
  disk_of (s ∷ r) = (s.start, frames crc32c s.payloads) ∷ disk_of r

  -- The log, the files and the index in memory hold the closed segments and then the last one.
  pub record Holds (log : SegmentedLog) (n : ℕ) (closed : List Segment) (last : Segment)
      : Type 0 where
    pub disk : log.disk ≡ disk_of closed ++ (last.start, frames crc32c last.payloads) ∷ []
    pub starts : log.starts ≡ starts_of closed ++ last.start ∷ []
    pub records : log.records ≡ records_of closed ++ seg_records last
    pub active :
        log.active
        ≡ some (record { start = last.start; bytes = length (frames crc32c last.payloads) })
    pub chain : IsChain n closed
    pub last_start : last.start ≡ end_of n closed
    pub sized : IsSized last

-- The records that a log holds, in index order.
abbrev pub contents : List Segment → Segment → List (ℕ × Bytes)
contents closed last = contents_of closed ++ numbered last.start last.payloads

pub end_of-le : (n : ℕ) (segs : List Segment) → n ≤ end_of n segs
end_of-le n [] = omega arith
end_of-le n (s ∷ r) = omega (arith, end_of-le (n + length s.payloads) r)

module _ {V : Type 0} where
  pub Above-mono : (m : BTreeMap ℕ V) {j k : ℕ} → j ≤ k → Above j m → Above k m
  Above-mono [] h a = tt
  Above-mono ((i, v) ∷ m) {j} {k} h a = (ground arith, Above-mono m h a.1)

pub disk_of-Above :
    (crc32c : Bytes → ℕ) (n k : ℕ) (segs : List Segment)
    → IsChain n segs
    → end_of n segs ≤ k
    → Above k (disk_of crc32c segs)
disk_of-Above crc32c n k [] c h = tt
disk_of-Above crc32c n k (s ∷ r) c h =
    let e : s.start < k = omega (arith, end_of-le (n + length s.payloads) r) in
    (ground arith, disk_of-Above crc32c (n + length s.payloads) k r c.3 h)

pub tagged-Above :
    (s index offset k : ℕ) (ps : List Bytes)
    → index + length ps ≤ k
    → Above k (tagged s (locs_of index offset ps))
tagged-Above s index offset k [] h = tt
tagged-Above s index offset k (p ∷ ps) h =
    let e : index < k = omega arith in
    (ground arith, tagged-Above s (index + 1) (offset + 8 + length p) k ps (omega arith))

pub records_of-Above :
    (n k : ℕ) (segs : List Segment) → IsChain n segs → end_of n segs ≤ k → Above k (records_of segs)
records_of-Above n k [] c h = tt
records_of-Above n k (s ∷ r) c h =
    Above-append k (seg_records s) (records_of r)
      (tagged-Above s.start s.start 0 k s.payloads
        (omega (arith, end_of-le (n + length s.payloads) r)))
      (records_of-Above (n + length s.payloads) k r c.3 h)

-- Locations above all others are put at the end of the index.
pub index_locs-Above :
    (s index offset : ℕ) (ps : List Bytes) (records : Records)
    → Above index records
    → index_locs s (locs_of index offset ps) records ≡ records ++ tagged s (locs_of index offset ps)
unfolding index_locs
index_locs-Above s index offset [] records a = sym (append-nil records)
index_locs-Above s index offset (p ∷ ps) records a =
    let loc : RecordLoc = record {
      segment_start = s;
      payload_offset = offset + 8;
      len = length p;
    } in
    rw (index_locs, insert-Above index loc records a)
      (index_locs-Above s (index + 1) (offset + 8 + length p) ps (records ++ (index, loc) ∷ []) (
          Above-append (index + 1) records ((index, loc) ∷ []) (Above-mono records (omega arith) a)
            (ground arith, tt))
        ∙ append_assoc records ((index, loc) ∷ [])
            (tagged s (locs_of (index + 1) (offset + 8 + length p) ps)))

pub records_of-append :
    (xs : List Segment) (s : Segment) → records_of (xs ++ s ∷ []) ≡ records_of xs ++ seg_records s
records_of-append [] s = append-nil (seg_records s)
records_of-append (x ∷ xs) s =
    rw (records_of-append xs s) (sym (append_assoc (seg_records x) (records_of xs) (seg_records s)))

pub contents_of-append :
    (xs : List Segment) (s : Segment)
    → contents_of (xs ++ s ∷ []) ≡ contents_of xs ++ numbered s.start s.payloads
contents_of-append [] s = append-nil (numbered s.start s.payloads)
contents_of-append (x ∷ xs) s = rw (contents_of-append xs s) (
    sym (append_assoc (numbered x.start x.payloads) (contents_of xs) (numbered s.start s.payloads)))

pub starts_of-append :
    (xs : List Segment) (s : Segment) → starts_of (xs ++ s ∷ []) ≡ starts_of xs ++ s.start ∷ []
starts_of-append [] s = refl
starts_of-append (x ∷ xs) s = ap (λ l. x.start ∷ l) (starts_of-append xs s)

pub disk_of-append :
    (crc32c : Bytes → ℕ) (xs : List Segment) (s : Segment)
    → disk_of crc32c (xs ++ s ∷ []) ≡ disk_of crc32c xs ++ (s.start, frames crc32c s.payloads) ∷ []
disk_of-append crc32c [] s = refl
disk_of-append crc32c (x ∷ xs) s =
    ap (λ l. (x.start, frames crc32c x.payloads) ∷ l) (disk_of-append crc32c xs s)

pub end_of-append :
    (n : ℕ) (xs : List Segment) (s : Segment)
    → end_of n (xs ++ s ∷ []) ≡ end_of n xs + length s.payloads
end_of-append n [] s = refl
end_of-append n (x ∷ xs) s = end_of-append (n + length x.payloads) xs s

pub IsChain-append :
    (n : ℕ) (xs : List Segment) (s : Segment)
    → IsChain n xs
    → s.start ≡ end_of n xs
    → IsSized s
    → 0 < length s.payloads
    → IsChain n (xs ++ s ∷ [])
IsChain-append n [] s c e z h = (e, z, h, tt)
IsChain-append n (x ∷ xs) s c e z h =
    (c.0, c.1, c.2, IsChain-append (n + length x.payloads) xs s c.3 e z h)
