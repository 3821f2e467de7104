-- ===== src/Dispatch/Admission/Cases.antt =====
-- What an admission decision is: a denial with its cause, or an admission below the ceiling.
use takt_ai.Base.Words.{raised}
use takt_ai.Base.{
  ℕ, ◌<◌, String, ◌≡◌, refl, ◌⊎◌, inl, inr, Bool, true, false, not, ◌&&◌, Option, none, some, arith,
  eq_iff, leb, ◌==◌, if◌then◌else◌, Bool-cases,
}
use takt_ai.Base.Dict.{size}
use takt_ai.History.Kinds.{is_state_in_flight, is_state_withdrawn}
use takt_ai.History.Entry.{Entry}
use takt_ai.History.Projection.{
  WorkUnit, Recovery, Strengthening, Budgets, Projection, find_unit, budgets_of, in_flight,
  scope_of, qa_round_for, strengthening_used, allowance_key, allowance_of,
}
use takt_ai.History.Fold.{bound_recovery_actions, bound_recovery_attempts}
use takt_ai.Dispatch.Policy.{AdmissionPolicy, bound_unplanned, bound_qa_rounds, Refusal}
use takt_ai.Dispatch.Admission.{
  AdmissionRequest, admission_entry, deny, attempts_made, ceiling_of, decide_recovery, decide_unit,
  decide,
}

-- A decision from `entry`: an admission where `P` holds, or, where it fails, a denial with a cause.
abbrev pub Decided : Type 0 → Entry → Entry × Option Refusal → Type 0
Decided P entry d =
    ((d ≡ (entry, none)) × P)
    ⊎ ((cause : String) × (r : Refusal) × (d ≡ deny entry cause r) × ((cause == "") ≡ false) × ¬ P)

-- What a recovery scope leaves to an admission: it is open, its consumption is established, and both
-- budgets have room. Work outside every scope has no such bound.
abbrev pub InBudget : Budgets → String → Recovery → Type 0
InBudget b objective r =
    (objective ≡ "")
    ⊎ ((r.is_open ≡ true)
        × (r.unreconciled ≡ false)
        × (size (attempts_made r)
            < raised r.attempts (allowance_of b (allowance_key bound_recovery_attempts objective)))
        × (r.used
            < raised r.actions (allowance_of b (allowance_key bound_recovery_actions objective))))

abbrev pub RoundFits : AdmissionPolicy → Budgets → String × Strengthening → Type 0
RoundFits policy b (version, r) =
    (version ≡ "")
    ⊎ (r.started ≡ true)
    ⊎ (strengthening_used b r.round.objective
        < raised policy.max_attempts
            (allowance_of b (allowance_key bound_qa_rounds r.round.objective)))

abbrev pub UnitFits : AdmissionPolicy → Budgets → Option WorkUnit → Type 0
UnitFits policy b none =
    b.unplanned < raised policy.unplanned_units (allowance_of b bound_unplanned)
UnitFits policy b (some u) =
    (is_state_in_flight u.state ≡ false) × (is_state_withdrawn u.state ≡ false)

-- Every bound that an admission respects.
pub record Fits (p : Projection) (policy : AdmissionPolicy) (req : AdmissionRequest) : Type 0 where
  pub slot : in_flight p < ceiling_of policy (budgets_of p req.session)
  pub unit : UnitFits policy (budgets_of p req.session) (find_unit p req.session req.event)
  pub round :
      RoundFits policy
        (budgets_of p req.session)
        (qa_round_for (budgets_of p req.session) req.event)
  pub recovery :
      InBudget
        (budgets_of p req.session)
        (scope_of (budgets_of p req.session) req.event).0
        (scope_of (budgets_of p req.session) req.event).1

below : (m n : ℕ) → leb m n ≡ false → n < m
below m n h = ground arith

above : (m n : ℕ) → n < m → leb m n ≡ false
above m n h = ground arith

-- One case of the `switch`: it denies where its test holds, and otherwise the rest decides.
guarded :
    (P Q : Type 0) (entry : Entry) (t : Bool) (cause : String) (r : Refusal)
    (d : Entry × Option Refusal)
    → (cause == "") ≡ false
    → (t ≡ false → P → Q)
    → (Q → (t ≡ false) × P)
    → Decided P entry d
    → Decided Q entry (if t then deny entry cause r else d)
guarded P Q entry true cause r d named keep back rest =
    inr (cause, r, refl, named, λ q. cc ((back q).0))
guarded P Q entry false cause r d named keep back (inl (e, h)) = inl (e, keep refl h)
guarded P Q entry false cause r d named keep back (inr (c, x, e, n, fails)) =
    inr (c, x, e, n, λ q. fails (back q).1)

opened : (o : Bool) → o ≡ true → not o ≡ false
opened o h = ground arith

open_scope-Decided :
    (b : Budgets) (entry : Entry) (objective : String) (r : Recovery)
    → Decided
        ((r.is_open ≡ true)
          × (r.unreconciled ≡ false)
          × (size (attempts_made r)
              < raised r.attempts
                  (allowance_of b (allowance_key bound_recovery_attempts objective)))
          × (r.used
              < raised r.actions (allowance_of b (allowance_key bound_recovery_actions objective))))
        entry
        (let attempts =
            raised r.attempts (allowance_of b (allowance_key bound_recovery_attempts objective)) in
          let actions =
            raised r.actions (allowance_of b (allowance_key bound_recovery_actions objective)) in
          if not r.is_open
          then deny entry bound_recovery_attempts Refusal.recovery_abandoned
          else if r.unreconciled
          then deny entry bound_recovery_actions Refusal.recovery_unreconciled
          else if leb attempts (size (attempts_made r))
          then deny entry bound_recovery_attempts Refusal.attempts_spent
          else if leb actions r.used
          then deny entry bound_recovery_actions Refusal.actions_spent
          else (entry, none))
open_scope-Decided b entry objective r =
    let attempts =
      raised r.attempts (allowance_of b (allowance_key bound_recovery_attempts objective)) in
    let actions =
      raised r.actions (allowance_of b (allowance_key bound_recovery_actions objective)) in
    guarded ((r.unreconciled ≡ false) × (size (attempts_made r) < attempts) × (r.used < actions)) _
      entry (not r.is_open) _ _ _ refl (λ h x. (ground arith, x.0, x.1, x.2))
      (λ q. (opened r.is_open q.0, (q.1, q.2, q.3)))
      (guarded ((size (attempts_made r) < attempts) × (r.used < actions)) _ entry r.unreconciled _ _
        _ refl (λ h x. (h, x.0, x.1)) (λ q. (q.0, (q.1, q.2)))
        (guarded (r.used < actions) _ entry (leb attempts (size (attempts_made r))) _ _ _ refl
          (λ h x. (ground arith, x)) (λ q. (above _ _ q.0, q.1))
          (guarded (Unit {0}) _ entry (leb actions r.used) _ _ _ refl (λ h x. ground arith)
            (λ q. (above _ _ q, tt)) (inl (refl, tt)))))

in_scope :
    (b : Budgets) (objective : String) (r : Recovery)
    → (objective == "") ≡ false
    → InBudget b objective r
    → (r.is_open ≡ true)
      × (r.unreconciled ≡ false)
      × (size (attempts_made r)
          < raised r.attempts (allowance_of b (allowance_key bound_recovery_attempts objective)))
      × (r.used
          < raised r.actions (allowance_of b (allowance_key bound_recovery_actions objective)))
in_scope b objective r inside (inl outside) = cc ((eq_iff objective "").1 outside)
in_scope b objective r inside (inr fits) = fits

exchange :
    (P Q : Type 0) (entry : Entry) (d : Entry × Option Refusal)
    → (P → Q)
    → (Q → P)
    → Decided P entry d
    → Decided Q entry d
exchange P Q entry d f g (inl (e, h)) = inl (e, f h)
exchange P Q entry d f g (inr (c, x, e, n, fails)) = inr (c, x, e, n, λ q. fails (g q))

recovery-Decided :
    (b : Budgets) (entry : Entry) (objective : String) (r : Recovery)
    → Decided (InBudget b objective r) entry (decide_recovery b entry objective r)
unfolding decide_recovery
recovery-Decided b entry objective r = elim (Bool-cases (objective == "")) [
  | inl outside ↦ rw outside (inl (refl, inl ((eq_iff objective "").0 outside)))
  | inr inside ↦ rw inside (
      exchange _ _ entry _ inr (in_scope b objective r inside)
        (open_scope-Decided b entry objective r))
]

spent_below :
    (version : String) (started spent : Bool)
    → (version == "") ≡ false
    → started ≡ false
    → (not (version == "") && (not started && spent)) ≡ false
    → spent ≡ false
spent_below version started spent v s h = ground arith

round_fits :
    (policy : AdmissionPolicy) (b : Budgets) (version : String) (r : Strengthening)
    → (not (version == "")
        && (not r.started
            && leb
                (raised policy.max_attempts
                  (allowance_of b (allowance_key bound_qa_rounds r.round.objective)))
                (strengthening_used b r.round.objective)))
      ≡ false
    → RoundFits policy b (version, r)
round_fits policy b version r h = elim (Bool-cases (version == "")) [
  | inl none_declared ↦ inl ((eq_iff version "").0 none_declared)
  | inr declares ↦ inr (elim (Bool-cases r.started) [
    | inl started ↦ inl started
    | inr waiting ↦ inr (below _ _ (spent_below version r.started _ declares waiting h))
  ])
]

round_open :
    (version : String) (started spent : Bool)
    → (version ≡ "") ⊎ (started ≡ true) ⊎ (spent ≡ false)
    → (not (version == "") && (not started && spent)) ≡ false
round_open version started spent (inl h) = rw ((eq_iff version "").1 h) refl
round_open version started spent (inr (inl h)) = ground arith
round_open version started spent (inr (inr h)) = ground arith

round_unspent :
    (policy : AdmissionPolicy) (b : Budgets) (version : String) (r : Strengthening)
    → RoundFits policy b (version, r)
    → (version ≡ "")
      ⊎ (r.started ≡ true)
      ⊎ (leb
            (raised policy.max_attempts
              (allowance_of b (allowance_key bound_qa_rounds r.round.objective)))
            (strengthening_used b r.round.objective)
          ≡ false)
round_unspent policy b version r (inl h) = inl h
round_unspent policy b version r (inr (inl h)) = inr (inl h)
round_unspent policy b version r (inr (inr h)) = inr (inr (above _ _ h))

round-Decided :
    (policy : AdmissionPolicy) (b : Budgets) (version : String) (r : Strengthening)
    (objective : String) (scope : Recovery) (entry : Entry)
    → Decided (RoundFits policy b (version, r) × InBudget b objective scope) entry (
        if not (version == "")
          && (not r.started
              && leb
                  (raised policy.max_attempts
                    (allowance_of b (allowance_key bound_qa_rounds r.round.objective)))
                  (strengthening_used b r.round.objective))
        then deny entry bound_qa_rounds Refusal.rounds_spent
        else decide_recovery b entry objective scope)
round-Decided policy b version r objective scope entry =
    guarded (InBudget b objective scope) _ entry _ _ _ _ refl
      (λ h x. (round_fits policy b version r h, x))
      (λ q. (round_open version r.started _ (round_unspent policy b version r q.0), q.1))
      (recovery-Decided b entry objective scope)

unit-Decided :
    (policy : AdmissionPolicy) (b : Budgets) (u : Option WorkUnit) (req : AdmissionRequest)
    (entry : Entry)
    → Decided
        (UnitFits policy b u
          × RoundFits policy b (qa_round_for b req.event)
          × InBudget b (scope_of b req.event).0 (scope_of b req.event).1)
        entry
        (decide_unit policy b u req entry)
unfolding decide_unit
unit-Decided policy b none req entry =
    guarded
      (RoundFits policy b (qa_round_for b req.event)
        × InBudget b (scope_of b req.event).0 (scope_of b req.event).1)
      _ entry (leb (raised policy.unplanned_units (allowance_of b bound_unplanned)) b.unplanned) _ _
      _ refl (λ h x. (below _ _ h, x.0, x.1)) (λ q. (above _ _ q.0, (q.1, q.2)))
      (round-Decided policy b (qa_round_for b req.event).0 (qa_round_for b req.event).1
        (scope_of b req.event).0 (scope_of b req.event).1 entry)
unit-Decided policy b (some u) req entry =
    guarded
      ((is_state_withdrawn u.state ≡ false)
        × RoundFits policy b (qa_round_for b req.event)
        × InBudget b (scope_of b req.event).0 (scope_of b req.event).1)
      _ entry (is_state_in_flight u.state) _ _ _ refl (λ h x. ((h, x.0), x.1, x.2))
      (λ q. (q.0.0, (q.0.1, q.1, q.2)))
      (guarded
        (RoundFits policy b (qa_round_for b req.event)
          × InBudget b (scope_of b req.event).0 (scope_of b req.event).1)
        _ entry (is_state_withdrawn u.state) _ _ _ refl (λ h x. (h, x.0, x.1))
        (λ q. (q.0, (q.1, q.2)))
        (round-Decided policy b (qa_round_for b req.event).0 (qa_round_for b req.event).1
          (scope_of b req.event).0 (scope_of b req.event).1 entry))

-- decide admits with an entry for the requested unit exactly when the concurrency ceiling, the unit's
-- state, its strengthening round and its recovery scope all leave room. Otherwise it denies, with
-- a named cause and an error.
pub decide_cases :
    (p : Projection) (policy : AdmissionPolicy) (req : AdmissionRequest)
    → Decided (Fits p policy req) (admission_entry p req) (decide p policy req)
unfolding decide
decide_cases p policy req =
    let b = budgets_of p req.session in
    guarded
      (UnitFits policy b (find_unit p req.session req.event)
        × RoundFits policy b (qa_round_for b req.event)
        × InBudget b (scope_of b req.event).0 (scope_of b req.event).1)
      _ (admission_entry p req) (leb (ceiling_of policy b) (in_flight p)) _ _ _ refl
      (λ h x. record { slot = below _ _ h; unit = x.0; round = x.1; recovery = x.2 })
      (λ q. (above _ _ q.slot, (q.unit, q.round, q.recovery)))
      (unit-Decided policy b (find_unit p req.session req.event) req (admission_entry p req))
