-- ===== src/Dispatch/Seats/Reassignment.antt =====
-- reassignmentFailed of takt/dispatch/seat.go: what a failed reassignment is evidence of.
use mathlib.Core.Path.{subst}
use mathlib.Core.List.{append_assoc, append-nil}
use takt_ai.Base.{
  and_true, String, ◌≡◌, refl, sym, ap, ◌∙◌, inl, inr, true, false, ◌&&◌, List, [], ◌∷◌, ◌++◌,
  arith, eq_iff, ◌==◌, Bool-cases, all, All,
}
use takt_ai.History.Kinds.{Kind, is_kind_terminated, is_kind_launched}
use takt_ai.History.Entry.{Entry}
use takt_ai.Dispatch.Seats.{
  SeatScan, no_scan, is_failure, is_latest, is_reassignment, scan_step, scan_seat,
  reassignment_failed,
}

module _ (root agent : String) where
  -- No later reassignment of the seat in the root.
  abbrev pub Unreplaced : List Entry → Type 0
  Unreplaced es = All (λ e. (e.session == root && is_reassignment agent e) ≡ false) es

  abbrev pub OfAttempt : Kind → Entry → Entry → Type 0
  OfAttempt k r e =
      (e.kind ≡ k) × (e.session ≡ root) × (e.work_unit ≡ r.work_unit) × (e.attempt ≡ r.attempt)

  -- The latest reassignment of the seat, with what follows it.
  pub record Latest (es : List Entry) (r : Entry) (after : List Entry) : Type 0 where
    pub before : List Entry
    pub whole : es ≡ before ++ r ∷ after
    pub reassigns : is_reassignment agent r ≡ true
    pub own : r.session ≡ root
    pub unreplaced : Unreplaced after

  -- In this order: a launch of the reassignment's attempt and its failed or interrupted end.
  abbrev pub LaunchedIn : Entry → List Entry → Type 0
  LaunchedIn r after =
      (b : List Entry) × (e : Entry) × (c : List Entry) × (after ≡ b ++ e ∷ c)
      × OfAttempt Kind.launched r e

  abbrev pub FailedIn : Entry → List Entry → Type 0
  FailedIn r after =
      (b : List Entry) × (e : Entry) × (c : List Entry) × (after ≡ b ++ e ∷ c)
      × OfAttempt Kind.terminated r e
      × (is_failure e.outcome ≡ true)
      × LaunchedIn r b

  -- What the loop's variables tell of the entries it has passed.
  pub data Scanned (es : List Entry) (s : SeatScan) : Type 0 where
    unseen : s.unit ≡ "" → s.launched ≡ false → s.failed ≡ false → Scanned es s
    seen :
        (r : Entry) (after : List Entry)
        → Latest es r after
        → s.unit ≡ r.work_unit
        → s.attempt ≡ r.attempt
        → (s.launched ≡ true → LaunchedIn r after)
        → (s.failed ≡ true → FailedIn r after)
        → Scanned es s

  extend_after :
      (e : Entry) (b : List Entry) (x : Entry) (c after : List Entry)
      → after ≡ b ++ x ∷ c
      → after ++ e ∷ [] ≡ b ++ x ∷ (c ++ e ∷ [])
  extend_after e b x c after h = ap (λ es. es ++ e ∷ []) h ∙ append_assoc b (x ∷ c) (e ∷ [])

  All-snoc :
      (after : List Entry) (e : Entry)
      → Unreplaced after
      → (e.session == root && is_reassignment agent e) ≡ false
      → Unreplaced (after ++ e ∷ [])
  All-snoc [] e all h = (h, tt)
  All-snoc (x ∷ xs) e all h = (all.0, All-snoc xs e all.1 h)

  later_launch :
      (r e : Entry) (after : List Entry) → LaunchedIn r after → LaunchedIn r (after ++ e ∷ [])
  later_launch r e after (b, x, c, whole, of) =
      (b, x, c ++ e ∷ [], extend_after e b x c after whole, of)

  later_failure :
      (r e : Entry) (after : List Entry) → FailedIn r after → FailedIn r (after ++ e ∷ [])
  later_failure r e after (b, x, c, whole, of, fails, launch) =
      (b, x, c ++ e ∷ [], extend_after e b x c after whole, of, fails, launch)

  later-Latest :
      (es after : List Entry) (r e : Entry)
      → (e.session == root && is_reassignment agent e) ≡ false
      → Latest es r after
      → Latest (es ++ e ∷ []) r (after ++ e ∷ [])
  later-Latest es after r e h last = record {
    before = last.before;
    whole = extend_after e last.before r after es last.whole;
    reassigns = last.reassigns;
    own = last.own;
    unreplaced = All-snoc after e last.unreplaced h;
  }

  -- An entry that changes no variable.
  passes :
      (es : List Entry) (s : SeatScan) (e : Entry)
      → (e.session == root && is_reassignment agent e) ≡ false
      → Scanned es s
      → Scanned (es ++ e ∷ []) s
  passes es s e h (unseen u l f) = unseen u l f
  passes es s e h (seen r after last unit attempt launched failed) =
      seen r (after ++ e ∷ []) (later-Latest es after r e h last) unit attempt
        (λ x. later_launch r e after (launched x)) (λ x. later_failure r e after (failed x))

  restarts :
      (es : List Entry) (e : Entry)
      → e.session ≡ root
      → is_reassignment agent e ≡ true
      → Scanned
          (es ++ e ∷ [])
          (record { unit = e.work_unit; attempt = e.attempt; launched = false; failed = false })
  restarts es e own h =
      seen e [] (record { before = es; whole = refl; reassigns = h; own = own; unreplaced = tt })
        refl refl (λ x. cc) (λ x. cc)

  of_latest :
      (k : Kind) (s : SeatScan) (r e : Entry)
      → e.kind ≡ k
      → e.session ≡ root
      → is_latest s e ≡ true
      → s.unit ≡ r.work_unit
      → s.attempt ≡ r.attempt
      → OfAttempt k r e
  of_latest k s r e kind own h unit attempt = (
    kind,
    own,
    (eq_iff e.work_unit s.unit).0 (ground arith) ∙ unit,
    (eq_iff e.attempt s.attempt).0 (ground arith) ∙ attempt,
  )

  launches :
      (es : List Entry) (s : SeatScan) (e : Entry)
      → e.kind ≡ Kind.launched
      → e.session ≡ root
      → is_latest s e ≡ true
      → (e.session == root && is_reassignment agent e) ≡ false
      → Scanned es s
      → Scanned (es ++ e ∷ []) (record s { launched = true })
  launches es s e kind own h other (unseen u l f) = absurd (cc (rw u at h))
  launches es s e kind own h other (seen r after last unit attempt launched failed) =
      seen r (after ++ e ∷ []) (later-Latest es after r e other last) unit attempt
        (λ x. (after, e, [], refl, of_latest Kind.launched s r e kind own h unit attempt))
        (λ x. later_failure r e after (failed x))

  terminates :
      (es : List Entry) (s : SeatScan) (e : Entry)
      → e.kind ≡ Kind.terminated
      → e.session ≡ root
      → is_latest s e ≡ true
      → (e.session == root && is_reassignment agent e) ≡ false
      → Scanned es s
      → Scanned (es ++ e ∷ []) (record s { failed = s.launched && is_failure e.outcome })
  terminates es s e kind own h other (unseen u l f) = unseen u l (rw l refl)
  terminates es s e kind own h other (seen r after last unit attempt launched failed) =
      seen r (after ++ e ∷ []) (later-Latest es after r e other last) unit attempt
        (λ x. later_launch r e after (launched x))
        (λ x. (
          after,
          e,
          [],
          refl,
          of_latest Kind.terminated s r e kind own h unit attempt,
          (and_true s.launched (is_failure e.outcome) x).1,
          launched (and_true s.launched (is_failure e.outcome) x).0,
        ))

  is_launched : (k : Kind) → is_kind_launched k ≡ true → k ≡ Kind.launched
  is_launched Kind.launched h = refl
  is_launched _ h = cc

  is_terminated : (k : Kind) → is_kind_terminated k ≡ true → k ≡ Kind.terminated
  is_terminated Kind.terminated h = refl
  is_terminated _ h = cc

  scan_step-Scanned :
      (es : List Entry) (s : SeatScan) (e : Entry)
      → Scanned es s
      → Scanned (es ++ e ∷ []) (scan_step root agent s e)
  unfolding scan_step
  scan_step-Scanned es s e inv = elim (Bool-cases (e.session == root)) [
    | inr away ↦ rw away (passes es s e (rw away refl) inv)
    | inl here ↦
        let own = (eq_iff e.session root).0 here in
        elim (Bool-cases (is_reassignment agent e)) [
          | inl again ↦ rw (here, again) (restarts es e own again)
          | inr other ↦
              let skip = ap (λ b. b && is_reassignment agent e) here ∙ other in
              elim (Bool-cases (is_kind_launched e.kind && is_latest s e)) [
                | inl launch ↦
                    let (kind, current) =
                      and_true (is_kind_launched e.kind) (is_latest s e) launch in
                    rw (here, other, launch)
                      (launches es s e (is_launched e.kind kind) own current skip inv)
                | inr idle ↦ elim (Bool-cases (is_kind_terminated e.kind && is_latest s e)) [
                  | inl ends ↦
                      let (kind, current) =
                        and_true (is_kind_terminated e.kind) (is_latest s e) ends in
                      rw (here, other, idle, ends)
                        (terminates es s e (is_terminated e.kind kind) own current skip inv)
                  | inr still ↦ rw (here, other, idle, still) (passes es s e skip inv)
                ]
              ]
        ]
  ]

  scan-Scanned :
      (done todo : List Entry) (s : SeatScan)
      → Scanned done s
      → Scanned (done ++ todo) (scan_seat root agent s todo)
  unfolding scan_seat
  scan-Scanned done [] s inv = subst (λ es. Scanned es s) (sym (append-nil done)) inv
  scan-Scanned done (e ∷ es) s inv =
      subst (λ all. Scanned all (scan_seat root agent (scan_step root agent s e) es))
        (append_assoc done (e ∷ []) es)
        (scan-Scanned (done ++ e ∷ []) es (scan_step root agent s e)
          (scan_step-Scanned done s e inv))

  failure_evidence :
      (es : List Entry) (s : SeatScan)
      → Scanned es s
      → s.failed ≡ true
      → (r : Entry) × (after : List Entry) × Latest es r after × FailedIn r after
  failure_evidence es s (unseen u l f) h = cc
  failure_evidence es s (seen r after last unit attempt launched failed) h =
      (r, after, last, failed h)

  -- A substitute's condition is earned: where reassignmentFailed says yes, the root's latest model
  -- reassignment of the seat is recorded, after it a launch of its attempt, and after that an end of
  -- the same attempt that failed or was interrupted.
  pub reassignment_failed-evidence :
      (es : List Entry)
      → reassignment_failed es root agent ≡ true
      → (r : Entry) × (after : List Entry) × Latest es r after × FailedIn r after
  unfolding reassignment_failed
  reassignment_failed-evidence es h =
      failure_evidence es _ (scan-Scanned [] es no_scan (unseen refl refl refl)) h
