-- ===== src/Pipeline/Scope.antt =====
-- pipeline.py: the scope of a call, and `_record`: the metric, the audit line and the one log line
-- that a call leaves. The message's text is left out; what it is made of is kept.
use beherouter.Prelude.{
  ℕ, String, Bool, false, ◌||◌, Option, none, some, List, [], ◌∷◌, elem, ◌===◌, if◌then◌else◌,
}
use beherouter.Errors.{Exc}
use beherouter.Audit.{Caller, AuditLine, emit}
use beherouter.Outcomes.{Phase, Outcome, or_else}
use beherouter.Gates.Rate.{round_div}

pub record CallScope : Type 0 where
  pub surface : String
  pub tool : String
  pub call_id : String
  pub caller : Caller
  pub phase : Phase
  pub inner_tool : Option String
  pub identity_keys : List String

pub data Level : Type 0 where
  debug info warning error : Level

-- What the log line shows of the failure: nothing, its text, or its traceback.
pub data Shown : Type 0 where
  nothing message traceback : Shown

pub record LogLine : Type 0 where
  pub level : Level
  pub shown : Shown
  pub call_id : String
  pub surface : String
  pub tool : String
  pub inner_tool : Option String
  pub outcome : String
  pub reason : Option String
  pub latency_ms : ℕ
  pub subject : Option String
  pub mode : String
  pub keys : List String

-- `metrics.observe_call`; the seconds in nanoseconds.
pub record Observation : Type 0 where
  pub surface : String
  pub tool : String
  pub kind : String
  pub seconds : ℕ

-- What calls left behind, the latest first.
pub record Trace : Type 0 where
  pub observed : List Observation
  pub audit : List AuditLine
  pub log : List LogLine

-- `round(seconds * 1000)`
abbrev pub millis : ℕ → ℕ
millis seconds = round_div seconds 1_000_000

-- `outcome.reason in _CALLER_TEXT`
abbrev pub is_caller_text : Option String → Bool
is_caller_text none = false
is_caller_text (some r) = elem r ("unknown_tool" ∷ "bad_arguments" ∷ [])

abbrev level_of : String → Level
level_of kind = if kind === "unavailable" || kind === "timeout" then error else warning

-- The branches of the log call: the level, and what is shown of the failure.
unfoldable pub entry_of : Bool → Outcome → Option Exc → Level × Shown
entry_of audited outcome none = (if audited then debug else info, nothing)
entry_of audited outcome (some e) =
    if outcome.kind === "internal"
    then (error, traceback)
    else (level_of outcome.kind, if is_caller_text outcome.reason then nothing else message)

abbrev pub is_blocked : Option String → Bool
is_blocked none = false
is_blocked (some r) = r === "caller_blocked"

unfoldable pub record_call : Bool → String → CallScope → Outcome → Option Exc → ℕ → Trace → Trace
unfolding entry_of
record_call audited mode scope outcome failure seconds t = record {
  observed =
      record {
        surface = scope.surface;
        tool = or_else scope.inner_tool scope.tool;
        kind = outcome.kind;
        seconds = seconds;
      }
      ∷ t.observed;
  audit =
      emit audited
        (record {
          call_id = scope.call_id;
          surface = scope.surface;
          tool = scope.tool;
          inner_tool = scope.inner_tool;
          caller = scope.caller;
          outcome = outcome;
          latency_ms = millis seconds;
        })
        t.audit;
  log =
      record {
        level = (entry_of audited outcome failure).0;
        shown = (entry_of audited outcome failure).1;
        call_id = scope.call_id;
        surface = scope.surface;
        tool = scope.tool;
        inner_tool = scope.inner_tool;
        outcome = outcome.kind;
        reason = outcome.reason;
        latency_ms = millis seconds;
        subject = if is_blocked outcome.reason then none else scope.caller.sub;
        mode = mode;
        keys = scope.identity_keys;
      }
      ∷ t.log;
}
