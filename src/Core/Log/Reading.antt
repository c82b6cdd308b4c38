-- ===== src/Core/Log/Reading.antt =====
-- What `read_all` of crates/core/src/log.rs returns from a log that holds given segments.
use lumen.Base.{
  ℕ, suc, ◌+◌, ◌≤◌, ◌<◌, ◌≡◌, refl, sym, ap, ◌∙◌, some, List, [], ◌∷◌, ◌++◌, append_assoc, length,
  take, drop, All, All-map, arith, BTreeMap, nat_ord, get, get-Above, length-append, take-append,
  drop-append, drop_add, le→leb, ok, ◌>>=◌,
}
use lumen.Core.Log.{SegmentedLog, Disk, Records, read_exact_at, read_locs, read_all}
use lumen.Core.Log.Frame.{Bytes, frame, to_le_bytes}
use lumen.Core.Log.Frame.Scan.{frames, locs_of, length-frame}
use lumen.Core.Log.Segments.{
  Segment, IsChain, end_of, tagged, seg_records, records_of, numbered, contents_of, contents,
  disk_of, disk_of-Above, Holds,
}

module _ {V : Type 0} where
  get-append_some :
      (k : ℕ) (v : V) (m n : BTreeMap ℕ V) → get k m ≡ some v → get k (m ++ n) ≡ some v
  unfolding get
  get-append_some k v [] n h = cc
  get-append_some k v ((j, w) ∷ m) n h = ground (arith, get-append_some k v m n)

  get-cons_above : (k j : ℕ) (w : V) (m : BTreeMap ℕ V) → j < k → get k ((j, w) ∷ m) ≡ get k m
  unfolding get
  get-cons_above k j w m h = ground arith

module _ (crc32c : Bytes → ℕ) where
  -- The file of each segment is in the directory.
  abbrev pub Stored : Disk → List Segment → Type 0
  Stored disk = All (λ s. get s.start disk ≡ some (frames crc32c s.payloads))

  abbrev From : ℕ → List Segment → Type 0
  From n = All (λ s. n ≤ s.start)

  IsChain-From : (m n : ℕ) (segs : List Segment) → m ≤ n → IsChain n segs → From m segs
  IsChain-From m n [] h c = tt
  IsChain-From m n (s ∷ r) h c =
      (omega arith, IsChain-From m (n + length s.payloads) r (omega arith) c.3)

  Stored-cons :
      (j : ℕ) (b : Bytes) (disk : Disk) (segs : List Segment)
      → From (suc j) segs
      → Stored disk segs
      → Stored ((j, b) ∷ disk) segs
  Stored-cons j b disk [] f h = tt
  Stored-cons j b disk (s ∷ r) f h =
      (get-cons_above s.start j b disk f.0 ∙ h.0, Stored-cons j b disk r f.1 h.1)

  disk_of-Stored :
      (n : ℕ) (segs : List Segment) → IsChain n segs → Stored (disk_of crc32c segs) segs
  disk_of-Stored n [] c = tt
  disk_of-Stored n (s ∷ r) c = (
    (unfold get in ground arith),
    Stored-cons s.start (frames crc32c s.payloads) (disk_of crc32c r) r
        (IsChain-From (suc s.start) (n + length s.payloads) r (omega arith) c.3)
        (disk_of-Stored (n + length s.payloads) r c.3),
  )

  -- Also with the active segment's file, whatever its bytes, behind the closed ones.
  pub closed-Stored :
      (n k : ℕ) (b : Bytes) (closed : List Segment)
      → IsChain n closed
      → Stored (disk_of crc32c closed ++ (k, b) ∷ []) closed
  closed-Stored n k b closed c =
      All-map
        (λ s.
          get-append_some s.start (frames crc32c s.payloads) (disk_of crc32c closed) ((k, b) ∷ []))
        closed (disk_of-Stored n closed c)

  pub last-stored :
      (n k : ℕ) (b : Bytes) (closed : List Segment)
      → IsChain n closed
      → end_of n closed ≤ k
      → get k (disk_of crc32c closed ++ (k, b) ∷ []) ≡ some b
  last-stored n k b closed c h =
      get-Above k b (disk_of crc32c closed) (disk_of-Above crc32c n k closed c h)

  -- The payload of a frame that stands behind `pre`.
  read_frame :
      (pre p rest : Bytes)
      → read_exact_at (pre ++ (frame crc32c p ++ rest)) (length p) (length pre + 8) ≡ ok p
  unfolding read_exact_at
  read_frame pre p rest =
      let bs = pre ++ (frame crc32c p ++ rest) in
      let e : take (length p) (drop (length pre + 8) bs) ≡ p =
        rw (drop_add (length pre) 8 bs, drop-append pre (frame crc32c p ++ rest))
          (unfold frame to_le_bytes in take-append p rest) in
      let e1 : length bs ≡ length pre + (length p + 8 + length rest) = omega (
        arith,
        length-append pre (frame crc32c p ++ rest),
        length-append (frame crc32c p) rest,
        length-frame crc32c p,
      ) in
      rw (le→leb (length pre + 8 + length p) (length bs) (omega arith), e)

  read_locs_segment :
      (disk : Disk) (s index : ℕ) (pre : Bytes) (ps : List Bytes)
      → get s disk ≡ some (pre ++ frames crc32c ps)
      → read_locs disk (tagged s (locs_of index (length pre) ps)) ≡ ok (numbered index ps)
  unfolding read_locs
  read_locs_segment disk s index pre [] h = refl
  read_locs_segment disk s index pre (p ∷ ps) h =
      let f = frame crc32c p in
      let e : length pre + 8 + length p ≡ length (pre ++ f) =
        omega (arith, length-append pre f, length-frame crc32c p) in
      let ih =
        read_locs_segment disk s (index + 1) (pre ++ f) ps
          (h ∙ ap some (sym (append_assoc pre f (frames crc32c ps)))) in
      rw (h, read_frame pre p (frames crc32c ps), e, ih)

  read_locs-bind :
      (disk : Disk) (xs ys : Records)
      → read_locs disk (xs ++ ys) ≡ (do a ← read_locs disk xs; b ← read_locs disk ys; ok (a ++ b))
  unfolding read_locs
  read_locs-bind disk [] ys = ground arith
  read_locs-bind disk ((i, loc) ∷ xs) ys = ground (arith, read_locs-bind disk xs ys)

  read_locs-append :
      (disk : Disk) (xs ys : Records) {us vs : List (ℕ × Bytes)}
      → read_locs disk xs ≡ ok us
      → read_locs disk ys ≡ ok vs
      → read_locs disk (xs ++ ys) ≡ ok (us ++ vs)
  read_locs-append disk xs ys hx hy = rw (read_locs-bind disk xs ys, hx, hy)

  read_locs_closed :
      (disk : Disk) (segs : List Segment)
      → Stored disk segs
      → read_locs disk (records_of segs) ≡ ok (contents_of segs)
  read_locs_closed disk [] h = unfold read_locs in refl
  read_locs_closed disk (s ∷ r) h =
      read_locs-append disk (seg_records s) (records_of r)
        (read_locs_segment disk s.start s.start [] s.payloads h.0) (read_locs_closed disk r h.1)

  -- Every record that the log holds is read, in index order, and no other.
  pub read_all-Holds :
      (log : SegmentedLog) (n : ℕ) (closed : List Segment) (last : Segment)
      → Holds crc32c log n closed last
      → read_all log ≡ ok (contents closed last)
  unfolding read_all
  read_all-Holds log n closed last h =
      rw (h.disk, h.records)
        (read_locs-append _ (records_of closed) (seg_records last)
          (read_locs_closed _ closed (closed-Stored n last.start _ closed h.chain))
          (read_locs_segment _ last.start last.start [] last.payloads
            (last-stored n last.start _ closed h.chain (omega (arith, h.last_start)))))
