-- ===== src/Learner.antt =====
-- internal/g0efilter/learner.go: the values that are seen in learning mode and their way to the policy
-- file. A log line is its message with the value.
pub mod Lists
pub mod Queued
pub mod Written
use g0efilter.Prelude.{
  if◌then◌else◌, ℕ, ◌≡◌, Bool, true, false, not, ◌||◌, Option, none, some, List, [], ◌∷◌, ◌++◌, leb,
  length, map,
}
use g0efilter.Text.{Bytes, codes, equal, is_empty}
use g0efilter.Pattern.{Env}
use g0efilter.PolicyFile.{PolicyError, Yaml, PolicyFile, append_domain, append_ip}

-- `learnerMaxSeen`
abbrev pub learner_max_seen : ℕ
learner_max_seen = 10000

-- `learnEntry`
pub record LearnEntry : Type 0 where
  pub kind : Bytes
  pub value : Bytes

-- `learner`; `seen` is in the order of arrival.
pub record Learner : Type 0 where
  pub seen : List Bytes
  pub pending : List LearnEntry
  pub cap_warned : Bool

pub data Line : Type 0 where
  cap_reached : Bytes → Line
  append_failed : LearnEntry → PolicyError → Line
  learned : LearnEntry → Line

-- `newLearner`
abbrev pub new_learner : Learner
new_learner = record { seen = []; pending = []; cap_warned = false }

abbrev pub key_of : LearnEntry → Bytes
key_of e = e.kind ++ (codes ":" ++ e.value)

abbrev pub in_keys : Bytes → List Bytes → Bool
in_keys key [] = false
in_keys key (k ∷ ks) = equal k key || in_keys key ks

-- `record`
unfoldable pub record_value : Learner → LearnEntry → List Line × Learner
record_value l e =
    let key = key_of e in
    if is_empty e.value
    then ([], l)
    else if in_keys key l.seen
    then ([], l)
    else if leb learner_max_seen (length l.seen)
    then (if l.cap_warned then ([], l) else (cap_reached key ∷ [], record l { cap_warned = true }))
    else ([], record l { seen = l.seen ++ (key ∷ []); pending = l.pending ++ (e ∷ []) })

-- What the filters and the ticker of `run` do.
pub data Call : Type 0 where
  observe : LearnEntry → Call
  tick : Call

-- The learner, the policy file, and the lines that were logged.
pub record World (yaml : Yaml) : Type 0 where
  pub learner : Learner
  pub file : PolicyFile yaml
  pub lines : List Line

module _ (yaml : Yaml) (env : Env) where
  -- The switch of `flush`.
  abbrev pub append_entry : PolicyFile yaml → LearnEntry → Option PolicyError × PolicyFile yaml
  append_entry file e =
      if equal e.kind (codes "ip")
      then append_ip yaml env file e.value
      else append_domain yaml env file e.value

  abbrev pub line_of : LearnEntry → Option PolicyError → Line
  line_of e none = learned e
  line_of e (some err) = append_failed e err

  -- The loop of `flush`.
  unfoldable pub flush_batch : List LearnEntry → PolicyFile yaml → List Line × PolicyFile yaml
  flush_batch [] file = ([], file)
  flush_batch (e ∷ batch) file =
      let r = append_entry file e in
      let rest = flush_batch batch r.1 in (line_of e r.0 ∷ rest.0, rest.1)

  -- `flush`
  unfoldable pub flush : Learner → PolicyFile yaml → List Line × Learner × PolicyFile yaml
  unfolding flush_batch
  flush l file = let r = flush_batch l.pending file in (r.0, record l { pending = [] }, r.1)

  unfoldable pub step : World yaml → Call → World yaml
  unfolding record_value flush
  step w (observe e) =
      let r = record_value w.learner e in record w { learner = r.1; lines = w.lines ++ r.0 }
  step w tick =
      let r = flush w.learner w.file in
      record w { learner = r.1; file = r.2; lines = w.lines ++ r.0 }

  unfoldable pub run : World yaml → List Call → World yaml
  unfolding step
  run w [] = w
  run w (c ∷ calls) = run (step w c) calls

-- The entries that the lines of the flushes are about, in their order.
unfoldable pub handed : List Line → List LearnEntry
handed [] = []
handed (learned e ∷ lines) = e ∷ handed lines
handed (append_failed e err ∷ lines) = e ∷ handed lines
handed (cap_reached key ∷ lines) = handed lines

-- The entries of the calls of `record`.
unfoldable pub observed : List Call → List LearnEntry
observed [] = []
observed (observe e ∷ calls) = e ∷ observed calls
observed (tick ∷ calls) = observed calls
