-- ===== src/Api/Peers/Parsed.antt =====
-- What the parsing of addresses accepts (crates/api/src/cluster.rs).
use lumen.Base.{
  ℕ, ◌+◌, ◌-◌, ◌*◌, ◌<◌, u64_mod, ltb, ltb→lt, leb, ◌==◌, ==_iff, ==_refl, ◌&&◌, ◌↔◌, Bool, true,
  false, Bool-cases, Text, some, [], ◌∷◌, ◌++◌, ok, split_once, All, ◌≡◌, refl, ap, ◌∙◌, subst,
  some_inj, none_some, Option-cases, inl, inr, err_ok, ok_inj, arith,
}
use lumen.Api.Peers.{parse_digits, parse_u64, parse_peer}

and_right : (a b : Bool) → (a && b) ≡ true → b ≡ true
and_right a b h = ground arith

-- A text without the separator.
abbrev pub IsFree : ℕ → Text → Type 0
IsFree sep = All (λ c. (c == sep) ≡ false)

-- What `split_once` gives is the text cut at its first separator.
IsSplit : ℕ → Text → Text × Text → Type 0
IsSplit sep t halves = (t ≡ halves.0 ++ sep ∷ halves.1) × IsFree sep halves.0

split_once-IsSplit :
    (sep : ℕ) (t : Text) (halves : Text × Text)
    → split_once sep t ≡ some halves
    → IsSplit sep t halves
unfolding split_once IsSplit
split_once-IsSplit sep [] halves h = absurd (none_some halves h)
split_once-IsSplit sep (c ∷ cs) halves h = elim (Bool-cases (c == sep)) [
  | inl e ↦
      subst (IsSplit sep (c ∷ cs)) (some_inj ([], cs) halves (rw (e, split_once) at h))
        (ap (λ x. x ∷ cs) ((==_iff c sep).0 e), tt)
  | inr e ↦ elim (Option-cases (split_once sep cs)) [
    | inl q ↦ absurd (none_some halves (rw (e, split_once, q) at h))
    | inr (rest, q) ↦
        let (same, free) = split_once-IsSplit sep cs rest q in
        subst (IsSplit sep (c ∷ cs))
          (some_inj (c ∷ rest.0, rest.1) halves (rw (e, split_once, q) at h))
          (ap (λ t. c ∷ t) same, (e, free))
  ]
]

split_once-append :
    (sep : ℕ) (a b : Text) → IsFree sep a → split_once sep (a ++ sep ∷ b) ≡ some (a, b)
unfolding split_once
split_once-append sep [] b free = rw (==_refl sep, split_once) refl
split_once-append sep (c ∷ a) b free =
    rw (free.0, split_once, split_once-append sep a b free.1) refl

parse_digits-lt : (n : ℕ) (t : Text) (m : ℕ) → n < u64_mod → parse_digits n t ≡ some m → m < u64_mod
unfolding parse_digits
parse_digits-lt n [] m lt h = subst (λ x. x < u64_mod) (some_inj n m h) lt
parse_digits-lt n (c ∷ cs) m lt h =
    elim (Bool-cases (leb 48 c && leb c 57 && ltb (n * 10 + (c - 48)) u64_mod)) [
      | inl e ↦
          parse_digits-lt (n * 10 + (c - 48)) cs m
            (ltb→lt (n * 10 + (c - 48)) u64_mod
              (and_right (leb 48 c && leb c 57) (ltb (n * 10 + (c - 48)) u64_mod) e))
            (rw (e, parse_digits) at h)
      | inr e ↦ absurd (none_some m (rw (e, parse_digits) at h))
    ]

-- A number that is read is a `u64`.
parse_u64-lt : (t : Text) (m : ℕ) → parse_u64 t ≡ some m → m < u64_mod
unfolding parse_u64
parse_u64-lt [] m h = absurd (none_some m h)
parse_u64-lt (c ∷ []) m h = parse_digits-lt 0 (c ∷ []) m (omega arith) h
parse_u64-lt (c ∷ d ∷ cs) m h = elim (Bool-cases (c == 43)) [
  | inl e ↦ parse_digits-lt 0 (d ∷ cs) m (omega arith) (rw (e, parse_u64) at h)
  | inr e ↦ parse_digits-lt 0 (c ∷ d ∷ cs) m (omega arith) (rw (e, parse_u64) at h)
]

-- A peer is read exactly from a text that has an id before its first equals sign, with the address
-- after it.
pub parse_peer_iff :
    (value addr : Text) (id : ℕ)
    → (parse_peer value ≡ ok (id, addr))
      ↔ ((text : Text) × (value ≡ text ++ 61 ∷ addr) × IsFree 61 text × (parse_u64 text ≡ some id))
unfolding parse_peer IsSplit
parse_peer_iff value addr id = (accepted, given)
  where
    accepted :
        parse_peer value ≡ ok (id, addr)
        → (text : Text) × (value ≡ text ++ 61 ∷ addr) × IsFree 61 text × (parse_u64 text ≡ some id)
    accepted h = elim (Option-cases (split_once 61 value)) [
      | inl e ↦ absurd (err_ok _ (id, addr) (rw (e, parse_peer) at h))
      | inr (halves, e) ↦ elim (Option-cases (parse_u64 halves.0)) [
        | inl q ↦ absurd (err_ok _ (id, addr) (rw (e, parse_peer, q) at h))
        | inr (n, q) ↦
            let same = ok_inj (n, halves.1) (id, addr) (rw (e, parse_peer, q) at h) in
            let (cut, free) = split_once-IsSplit 61 value halves e in
            (
              halves.0,
              cut ∙ ap (λ t. halves.0 ++ 61 ∷ t) (ap (λ x. x.1) same),
              free,
              q ∙ ap some (ap (λ x. x.0) same),
            )
      ]
    ]

    given :
        (text : Text) × (value ≡ text ++ 61 ∷ addr) × IsFree 61 text × (parse_u64 text ≡ some id)
        → parse_peer value ≡ ok (id, addr)
    given (text, cut, free, q) =
        ap parse_peer cut ∙ rw (split_once-append 61 text addr free, parse_peer, q) refl

-- The id of a peer that is read is below 2^64.
pub parse_peer-lt : (value addr : Text) (id : ℕ) → parse_peer value ≡ ok (id, addr) → id < u64_mod
parse_peer-lt value addr id h =
    let (text, cut, free, q) = (parse_peer_iff value addr id).0 h in parse_u64-lt text id q
