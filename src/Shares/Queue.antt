-- ===== src/Shares/Queue.antt =====
-- The queue of a session of crates/rowd-core/src/managed.rs.
use rowd.Base.{
  Text, text_eq, text_eq_iff, text_eq_refl, Option, Bool, true, false, not, leb, List, [], ◌∷◌,
  length, All, All-map, Result, ok, err, ensure-bind, >>=-eq-ok, if-split, Bool-cases, inl, inr,
  ◌≡◌, subst, refl, sym, ap, ◌∙◌, arith,
}
use rowd.Config.{ShareDefinition}
use rowd.Ignore.{validate}
use rowd.Paths.{validate_hash}
use rowd.Shares.{
  ShareFault, duplicate_identity, too_many_shares, on_hash, on_rules, contains, validate_each,
  validate_shares, eligible, share_queue, retain_unskipped, take_share, kept, take_all, in_focus,
}

-- Each text once.
abbrev pub Once : List Text → Type 0
Once [] = Unit
Once (x ∷ xs) = (contains xs x ≡ false) × Once xs

kept-ok :
    (candidate : Text) (r : Result ShareFault (List Text)) (q : List Text)
    → kept candidate r ≡ ok q
    → (more : List Text) × (r ≡ ok more) × (q ≡ candidate ∷ more)
kept-ok candidate (ok more) q h = (more, refl, ap (λ r. elim r [ ok x ↦ x | err e ↦ q ]) (sym h))
kept-ok candidate (err e) q h = cc

record Taken (queue : List Text) (id : Text) (q : List Text) : Type 0 where
  was : contains queue id ≡ true
  gone : Once queue → contains q id ≡ false
  others : (k : Text) → contains q k ≡ true → contains queue k ≡ true
  once : Once queue → Once q

take_share-Taken :
    (queue : List Text) (id : Text) (q : List Text) → take_share queue id ≡ ok q → Taken queue id q
unfolding take_share
take_share-Taken [] id q h = cc
take_share-Taken (c ∷ queue) id q h = elim (if-split (text_eq c id) _ _ h) [
  | inl (here, is) ↦
      let same = (text_eq_iff c id).0 here in
      let rest = ap (λ r. elim r [ ok x ↦ x | err e ↦ q ]) (sym is) in
      subst (Taken (c ∷ queue) id) (sym rest) (record {
        was = rw ((text_eq_iff id c).1 (sym same)) refl;
        gone = λ o. subst (λ x. contains queue x ≡ false) same o.0;
        others = λ k there. ground (arith, there);
        once = λ o. o.1;
      })
  | inr (away, is) ↦
      let (more, taken, whole) = kept-ok c (take_share queue id) q is in
      let t = take_share-Taken queue id more taken in
      subst (Taken (c ∷ queue) id) (sym whole) (record {
        was = ground (arith, t.was);
        gone = λ o. ground (arith, away, text_eq_iff c id, text_eq_iff id c, t.gone o.1);
        others = λ k there. ground (arith, there, t.others k);
        once = λ o. (ground (arith, o.0, t.others c), t.once o.1);
      })
]

All-member :
    (P : Text → Type 0) (ids : List Text) (id : Text) → All P ids → contains ids id ≡ true → P id
All-member P [] id h c = cc
All-member P (x ∷ ids) id h c = elim (Bool-cases (text_eq id x)) [
  | inl same ↦ subst P (sym ((text_eq_iff id x).0 same)) h.0
  | inr apart ↦ All-member P ids id h.1 (ground (arith, apart, c))
]

clash : {b : Bool} → b ≡ true → b ≡ false → ⊥
clash t f = let k : true ≡ false = sym t ∙ f in cc

take_all-Once :
    (queue ids q : List Text)
    → Once queue
    → take_all queue ids ≡ ok q
    → Once ids × All (λ id. contains queue id ≡ true) ids
unfolding take_all
take_all-Once queue [] q o h = (tt, tt)
take_all-Once queue (id ∷ ids) q o h =
    let (rest, taken, others) = >>=-eq-ok (take_share queue id) _ h in
    let t = take_share-Taken queue id rest taken in
    let (once, within) = take_all-Once rest ids q (t.once o) others in
    (
      (
        elim (Bool-cases (contains ids id)) [
          | inl again ↦
              absurd
                (clash (All-member (λ k. contains rest k ≡ true) ids id within again) (t.gone o))
          | inr fresh ↦ fresh
        ],
        once,
      ),
      (t.was, All-map (λ k c. t.others k c) ids within),
    )

not_first :
    (ids : List Text) (k id : Text)
    → contains ids k ≡ true
    → not (contains ids id) ≡ true
    → text_eq k id ≡ false
not_first ids k id c n = elim (Bool-cases (text_eq k id)) [
  | inl same ↦
      let there : contains ids id ≡ true =
        subst (λ x. contains ids x ≡ true) ((text_eq_iff k id).0 same) c in
      absurd (clash there (ground (arith, n)))
  | inr apart ↦ apart
]

-- The shares of one queue, which are named once and are eligible.
validate_each-Fresh :
    (ids : List Text) (shares : List ShareDefinition) (available : List Text)
    (focus : Option (List Text))
    → validate_each ids shares ≡ ok tt
    → Once (share_queue shares available focus)
      × ((k : Text)
          → contains ids k ≡ true
          → contains (share_queue shares available focus) k ≡ false)
unfolding validate_each share_queue
validate_each-Fresh ids [] available focus h = (tt, λ k c. refl)
validate_each-Fresh ids (s ∷ shares) available focus h =
    let (_, _, h1) = >>=-eq-ok (on_hash (validate_hash s.share_id)) _ h in
    let (new, h2) = ensure-bind (not (contains ids s.share_id)) duplicate_identity _ h1 in
    let (_, _, h3) = >>=-eq-ok (on_rules (validate s.ignore_rules)) _ h2 in
    let (once, fresh) = validate_each-Fresh (s.share_id ∷ ids) shares available focus h3 in
    let mine = fresh s.share_id (ground (arith, text_eq_refl s.share_id)) in
    let other : (k : Text) → contains ids k ≡ true → text_eq k s.share_id ≡ false =
      λ k c. not_first ids k s.share_id c new in
    elim (Bool-cases (eligible available focus s)) [
      | inl on ↦ rw on ((mine, once), λ k c. ground (arith, other k c, fresh k (ground (arith, c))))
      | inr off ↦ rw off (once, λ k c. fresh k (ground (arith, c)))
    ]

share_queue-eligible :
    (shares : List ShareDefinition) (available : List Text) (focus : Option (List Text)) (id : Text)
    → contains (share_queue shares available focus) id ≡ true
    → (contains available id ≡ true) × (in_focus focus id ≡ true)
unfolding share_queue
share_queue-eligible [] available focus id h = cc
share_queue-eligible (s ∷ shares) available focus id h =
    elim (Bool-cases (eligible available focus s)) [
      | inl on ↦ elim (Bool-cases (text_eq id s.share_id)) [
        | inl same ↦
            subst (λ x. (contains available x ≡ true) × (in_focus focus x ≡ true))
              (sym ((text_eq_iff id s.share_id).0 same)) (ground (arith, on), ground (arith, on))
        | inr apart ↦
            share_queue-eligible shares available focus id (ground (arith, apart, rw on at h))
      ]
      | inr off ↦ share_queue-eligible shares available focus id (rw off at h)
    ]

-- The Shares that failed before, out of a queue.
retain_unskipped-contains :
    (skipped queue : List Text) (id : Text)
    → contains (retain_unskipped skipped queue) id ≡ true
    → (contains queue id ≡ true) × (contains skipped id ≡ false)
unfolding retain_unskipped
retain_unskipped-contains skipped [] id h = cc
retain_unskipped-contains skipped (x ∷ queue) id h = elim (Bool-cases (contains skipped x)) [
  | inl out ↦
      let (there, fresh) = retain_unskipped-contains skipped queue id (rw out at h) in
      (ground (arith, there), fresh)
  | inr stays ↦ elim (Bool-cases (text_eq id x)) [
    | inl same ↦ (
      ground (arith, same),
      subst (λ k. contains skipped k ≡ false) (sym ((text_eq_iff id x).0 same)) stays,
    )
    | inr apart ↦
        let (there, fresh) =
          retain_unskipped-contains skipped queue id (ground (arith, apart, rw stays at h)) in
        (ground (arith, there), fresh)
  ]
]

retain_unskipped-Once :
    (skipped queue : List Text) → Once queue → Once (retain_unskipped skipped queue)
unfolding retain_unskipped
retain_unskipped-Once skipped [] o = tt
retain_unskipped-Once skipped (x ∷ queue) o =
    let rest = retain_unskipped-Once skipped queue o.1 in
    elim (Bool-cases (contains skipped x)) [
      | inl out ↦ rw out rest
      | inr stays ↦ rw stays (
        elim (Bool-cases (contains (retain_unskipped skipped queue) x)) [
          | inl again ↦ absurd (clash ((retain_unskipped-contains skipped queue x again).0) o.0)
          | inr fresh ↦ fresh
        ],
        rest,
      )
    ]

-- Whatever the phone has, the focus is and failed before, of the Shares of an accepted list those that a session takes with success are
-- taken once each, did not fail before, and are on the phone and in the focus.
pub take_all-share_queue :
    (shares : List ShareDefinition) (available : List Text) (focus : Option (List Text))
    (skipped ids q : List Text)
    → validate_shares shares ≡ ok tt
    → take_all (retain_unskipped skipped (share_queue shares available focus)) ids ≡ ok q
    → Once ids
      × All
          (λ id.
            (contains available id ≡ true)
            × (in_focus focus id ≡ true)
            × (contains skipped id ≡ false))
          ids
unfolding validate_shares
take_all-share_queue shares available focus skipped ids q h taken =
    let (_, each) = ensure-bind (leb (length shares) 256) too_many_shares _ h in
    let (queue, _) = validate_each-Fresh [] shares available focus each in
    let (once, within) =
      take_all-Once (retain_unskipped skipped (share_queue shares available focus)) ids q
        (retain_unskipped-Once skipped (share_queue shares available focus) queue) taken in
    (
      once,
      All-map
          (λ id c.
            let (there, fresh) =
              retain_unskipped-contains skipped (share_queue shares available focus) id c in
            let (on_phone, focused) = share_queue-eligible shares available focus id there in
            (on_phone, focused, fresh))
          ids within,
    )
