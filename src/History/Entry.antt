-- ===== src/History/Entry.antt =====
-- `Entry` of takt/history/history.go with every field of the source. Go's `int` fields that only
-- hold counts and times are natural numbers; an absent pointer is `none`.
use takt_ai.Base.{
  String, Bool, false, ℕ, Option, none, some, List, [], not, ◌&&◌, ◌==◌, if◌then◌else◌,
}
use takt_ai.History.Kinds.{Author, NodeKind, Kind, Outcome, ResultStatus, same_node_kind}

-- A plan's declared authoring membership (projection.go).
pub record QaRound : Type 0 where
  pub objective : String
  pub units : List String

pub record Entry : Type 0 where
  pub seq : ℕ
  pub author : Author
  pub kind : Kind
  pub session : String
  pub work_unit : String
  pub attempt : String
  pub activity : String
  pub node_kind : NodeKind
  pub dispatch : String
  pub agent : String
  pub cause : String
  pub journal_ref : String
  pub outcome : Outcome
  pub policy_ref : String
  pub objective : String
  pub bound : String
  pub allowance : ℕ
  pub result : String
  pub scope : List String
  pub artifact : String
  pub actions : ℕ
  pub attempts : ℕ
  pub evidence : String
  pub status : ResultStatus
  pub revision : Option ℕ
  pub plan_version : String
  pub qa_round : Option QaRound
  pub contract : String
  pub prerequisites : List String
  pub base_version : String
  pub classification : String
  pub reason : String
  pub caller : String
  pub child : String
  pub background : Bool
  pub created_at : ℕ
  pub result_ids : List ℕ
  pub no_results : Bool
  pub cycle : String
  pub role : String
  pub phase : String
  pub owner : String
  pub model : String
  pub substitute : Bool

-- The zero value of an entry of one author and kind, from which the code's literals are written.
abbrev pub blank : Author → Kind → Entry
blank a k = record {
  seq = 0;
  author = a;
  kind = k;
  session = "";
  work_unit = "";
  attempt = "";
  activity = "";
  node_kind = NodeKind.unset;
  dispatch = "";
  agent = "";
  cause = "";
  journal_ref = "";
  outcome = Outcome.unset;
  policy_ref = "";
  objective = "";
  bound = "";
  allowance = 0;
  result = "";
  scope = [];
  artifact = "";
  actions = 0;
  attempts = 0;
  evidence = "";
  status = ResultStatus.unset;
  revision = none;
  plan_version = "";
  qa_round = none;
  contract = "";
  prerequisites = [];
  base_version = "";
  classification = "";
  reason = "";
  caller = "";
  child = "";
  background = false;
  created_at = 0;
  result_ids = [];
  no_results = false;
  cycle = "";
  role = "";
  phase = "";
  owner = "";
  model = "";
  substitute = false;
}

abbrev pub first_attempt : String
first_attempt = "1"

abbrev pub cause_none : String
cause_none = "none"

abbrev pub cause_uncaptured : String
cause_uncaptured = "uncaptured"

abbrev pub tactical : String
tactical = "tactical"

abbrev pub strategic : String
strategic = "strategic"

-- `activityKindOf` by the entry's kind: the classification of an activity record, `none` where the
-- entry is a work entry.
unfoldable pub activity_kind : Kind → Entry → Option NodeKind
unfolding same_node_kind
activity_kind Kind.activity_started e = some NodeKind.orchestrator
activity_kind Kind.activity_finished e = some NodeKind.orchestrator
activity_kind Kind.maintenance_started e = some NodeKind.maintenance
activity_kind Kind.maintenance_finished e = some NodeKind.maintenance
activity_kind Kind.unmonitored e =
    if not (e.activity == "") && same_node_kind e.node_kind NodeKind.orchestrator
    then some NodeKind.orchestrator
    else none
activity_kind _ e = none

abbrev pub activity_kind_of : Entry → Option NodeKind
activity_kind_of e = activity_kind e.kind e
