-- ===== src/History/Projection.antt =====
-- The derived state of takt/history/projection.go and execution.go: work units, activities,
-- recoveries, budgets and executions, and the questions asked of them.
use takt_ai.Base.{
  String, Bool, true, false, ℕ, Option, none, some, List, [], ◌∷◌, not, ◌&&◌, ◌||◌, ◌==◌, leb,
  if◌then◌else◌, contains,
}
use takt_ai.Base.Dict.{Dict, lookup, count_where, find, get_or}
use takt_ai.Base.Text.{
  ℤ, pos, negsuc, max_ℤ, next_ℤ, ◌<>◌, codes, atoi, atoi_codes, itoa, trim_prefix, digits,
}
use takt_ai.History.Kinds.{
  Author, NodeKind, State, Flight, Outcome, ResultStatus, is_state_in_flight, is_state_settled,
}
use takt_ai.History.Entry.{Entry, QaRound, first_attempt}

-- The prevailing result of a unit's current attempt.
pub record Assurance : Type 0 where
  pub status : ResultStatus
  pub revision : Option ℕ
  pub evidence : String
  pub author : Author

-- `Unit`
pub record WorkUnit : Type 0 where
  pub session : String
  pub work_unit : String
  pub node_kind : NodeKind
  pub attempt : String
  pub dispatch : String
  pub agent : String
  pub state : State
  pub flight : Flight
  pub outcome : Outcome
  pub assurance : Option Assurance
  pub launched : Bool
  pub cancel_requested : Bool
  pub committed : Bool
  pub contract : String
  pub prerequisites : List String

pub record Activity : Type 0 where
  pub activity : String
  pub session : String
  pub node_kind : NodeKind
  pub state : State
  pub flight : Flight
  pub outcome : Outcome
  pub owner : String

-- `attempted` is `none` where the source's map is nil.
pub record Recovery : Type 0 where
  pub is_open : Bool
  pub failures : ℕ
  pub work_unit : String
  pub result : String
  pub scope : List String
  pub actions : ℕ
  pub attempts : ℕ
  pub used : ℕ
  pub attempted : Option (Dict Bool)
  pub cursor : ℤ
  pub unreconciled : Bool
  pub backtracked : Bool
  pub restored : Bool
  pub cause : String

pub record Strengthening : Type 0 where
  pub round : QaRound
  pub started : Bool

pub record Budgets : Type 0 where
  pub qa_rounds : Dict Strengthening
  pub unplanned : ℕ
  pub contests : Dict Bool
  pub recoveries : Dict Recovery
  pub allowance : Dict ℕ
  pub stopped : ℕ
  pub escalated : ℕ
  pub plan_version : String
  pub holder : String
  pub holder_agent : String
  pub holder_artifact : String

pub record Execution : Type 0 where
  pub dispatch : String
  pub root : String
  pub work_unit : String
  pub attempt : String
  pub agent : String
  pub caller : String
  pub child : String
  pub background : Bool
  pub admitted_at : ℕ
  pub inputs : List ℕ
  pub delivery : List ℕ
  pub cycle : String
  pub role : String
  pub prompted : String
  pub ready : Bool
  pub terminated : Bool
  pub settled : Bool
  pub model : String
  pub substitute : Bool
  pub owner : String

pub record Projection : Type 0 where
  pub inputs : Dict (List ℕ)
  pub executions : Dict Execution
  pub leases : Dict ℕ
  pub units : Dict WorkUnit
  pub activities : Dict Activity
  pub sessions : Dict Budgets

-- Zero values.
abbrev pub no_unit : WorkUnit
no_unit = record {
  session = "";
  work_unit = "";
  node_kind = NodeKind.unset;
  attempt = "";
  dispatch = "";
  agent = "";
  state = State.unset;
  flight = Flight.unset;
  outcome = Outcome.unset;
  assurance = none;
  launched = false;
  cancel_requested = false;
  committed = false;
  contract = "";
  prerequisites = [];
}

abbrev pub no_recovery : Recovery
no_recovery = record {
  is_open = false;
  failures = 0;
  work_unit = "";
  result = "";
  scope = [];
  actions = 0;
  attempts = 0;
  used = 0;
  attempted = none;
  cursor = pos 0;
  unreconciled = false;
  backtracked = false;
  restored = false;
  cause = "";
}

abbrev pub no_round : Strengthening
no_round = record { round = record { objective = ""; units = [] }; started = false }

abbrev pub no_budgets : Budgets
no_budgets = record {
  qa_rounds = [];
  unplanned = 0;
  contests = [];
  recoveries = [];
  allowance = [];
  stopped = 0;
  escalated = 0;
  plan_version = "";
  holder = "";
  holder_agent = "";
  holder_artifact = "";
}

abbrev pub no_execution : Execution
no_execution = record {
  dispatch = "";
  root = "";
  work_unit = "";
  attempt = "";
  agent = "";
  caller = "";
  child = "";
  background = false;
  admitted_at = 0;
  inputs = [];
  delivery = [];
  cycle = "";
  role = "";
  prompted = "";
  ready = false;
  terminated = false;
  settled = false;
  model = "";
  substitute = false;
  owner = "";
}

-- newProjection
abbrev pub new_projection : Projection
new_projection = record {
  inputs = [];
  executions = [];
  leases = [];
  units = [];
  activities = [];
  sessions = [];
}

-- The NUL character that separates a session from a unit.
abbrev pub nul : String
nul = String.◌∷◌ (Prim.Native.Char.nul) String.[]

-- UnitKey
unfoldable pub unit_key : String → String → String
unit_key session unit = session <> (nul <> unit)

-- Projection.Unit: `none` where the unit is not known.
unfoldable pub find_unit : Projection → String → String → Option WorkUnit
find_unit p session unit = lookup (unit_key session unit) p.units

-- Projection.Budgets: a session with nothing recorded has the zero budgets.
unfoldable pub budgets_of : Projection → String → Budgets
budgets_of p session = get_or no_budgets (lookup session p.sessions)

abbrev pub is_in_flight : WorkUnit → Bool
is_in_flight u = is_state_in_flight u.state

-- Projection.InFlight
unfoldable pub in_flight : Projection → ℕ
in_flight p = count_where is_in_flight p.units

abbrev pub recovery_of : Budgets → String → Recovery
recovery_of b objective = get_or no_recovery (lookup objective b.recoveries)

-- Recovery.Unresolved
abbrev pub is_unresolved : Recovery → Bool
is_unresolved r = r.is_open || (r.backtracked && not r.restored)

abbrev pub or_no_recovery : Option (String × Recovery) → String × Recovery
or_no_recovery none = ("", no_recovery)
or_no_recovery (some r) = r

-- Budgets.Scope
unfoldable pub scope_of : Budgets → String → String × Recovery
scope_of b unit =
    or_no_recovery (find (λ _ r. is_unresolved r && contains r.scope unit) b.recoveries)

abbrev pub or_no_round : Option (String × Strengthening) → String × Strengthening
or_no_round none = ("", no_round)
or_no_round (some r) = r

-- Budgets.QARoundFor
unfoldable pub qa_round_for : Budgets → String → String × Strengthening
qa_round_for b unit = or_no_round (find (λ _ r. contains r.round.units unit) b.qa_rounds)

-- Budgets.StrengtheningUsed
unfoldable pub strengthening_used : Budgets → String → ℕ
strengthening_used b objective =
    count_where (λ r. r.round.objective == objective && r.started) b.qa_rounds

-- AllowanceKey
unfoldable pub allowance_key : String → String → String
allowance_key bound objective = if objective == "" then bound else bound <> ("/" <> objective)

abbrev pub allowance_of : Budgets → String → ℕ
allowance_of b key = get_or 0 (lookup key b.allowance)

abbrev pub parsed_or : ℤ → ℤ × Bool → ℤ
parsed_or d (n, true) = n
parsed_or d (n, false) = d

-- refSeq: the bus position that a reference names, or -1.
unfoldable pub ref_seq : String → ℤ
unfolding digits
ref_seq ref =
    if ref == ""
    then negsuc 0
    else parsed_or (negsuc 0) (atoi_codes (trim_prefix (codes "journal/") (codes ref)))

-- Assurance.prevails, for the current assurance and an incoming result.
abbrev pub at_least : Option ℕ → ℕ → Bool
at_least none m = false
at_least (some n) m = leb m n

abbrev pub prevails_over : Option ℕ → Option ℕ → Bool
prevails_over none incoming = true
prevails_over (some n) incoming = at_least incoming n

unfoldable pub prevails : Option Assurance → Entry → Bool
prevails none e = true
prevails (some a) e = prevails_over a.revision e.revision

-- The largest attempt among the executions of one unit, as NextAttempt's loop finds it.
unfoldable pub last_attempt : String → String → ℤ → Dict Execution → ℤ
last_attempt root unit n [] = n
last_attempt root unit n ((_, d) ∷ ds) =
    last_attempt root unit
      (if d.root == root && d.work_unit == unit then max_ℤ n (atoi d.attempt).0 else n) ds

abbrev pub retry_of : ℤ × Bool → String
retry_of (n, true) = itoa (next_ℤ n)
retry_of (n, false) = first_attempt

abbrev pub attempt_after : Option WorkUnit → String → String
attempt_after (some u) fresh =
    if is_state_settled u.state then retry_of (atoi u.attempt) else first_attempt
attempt_after none fresh = fresh

-- Projection.NextAttempt
unfoldable pub next_attempt : Projection → String → String → String
unfolding last_attempt
next_attempt p root unit =
    attempt_after (find_unit p root unit)
      (itoa (next_ℤ (last_attempt root unit (pos 0) p.executions)))
