-- ===== src/Tests/Learning.antt =====
-- The policy file and the learner.
use g0efilter.Prelude.{◌≡◌, refl, sym, ◌||◌, false, inl, inr, Any, none, some, List, [], ◌∷◌}
use g0efilter.Text.{codes, equal, trim_space}
use g0efilter.Pattern.{Env}
use g0efilter.PolicyFile.{
  Config, Policy, Yaml, RoundTrips, PolicyFile, Environment, ok, load_config, read_config, read,
  domains_field,
}
use g0efilter.PolicyFile.Readable.{IsReadable}
use g0efilter.PolicyFile.Append.{Outcome, append, append-IsReadable}
use g0efilter.PolicyFile.Read.{IsChecked, read-IsChecked}
use g0efilter.Learner.{learned, handed, observed, LearnEntry, Call, observe, tick, run}
use g0efilter.Learner.Queued.{IsQueued, start, learner_stays-IsQueued}
use g0efilter.Learner.Written.{IsCutLine, IsSound, learner_stays-IsSound}

abbrev env : Env
env = record {
  regexp_compile = λ s. none;
  to_ascii = λ s. some s;
  parse_ip = λ s. equal s (codes "192.0.2.1") || equal s (codes "198.51.100.7");
  parse_cidr = λ s. false;
  is_upper = λ _. false;
}

abbrev yaml : Yaml
yaml = record { Document = Config; unmarshal = some; marshal = some }

yaml-RoundTrips : RoundTrips yaml
yaml-RoundTrips cfg text e = sym e

abbrev config : Config
config = record {
  default_action = codes "Deny";
  allow_list = record { ips = codes "192.0.2.1" ∷ []; domains = codes " Example.com " ∷ [] };
  deny_list = record { ips = []; domains = [] };
}

abbrev file : PolicyFile yaml
file = record { content = some config; writes = [] }

config_loads : load_config yaml file ≡ ok config
unfolding load_config
config_loads = refl

abbrev policy : Policy
policy = record {
  default_action = codes "deny";
  allow_ips = codes "192.0.2.1" ∷ [];
  allow_domains = codes "Example.com" ∷ [];
  deny_ips = [];
  deny_domains = [];
}

config_accepted : read_config env config ≡ ok policy
unfolding read_config trim_space g0efilter.Text.lower g0efilter.Entry.validate_ip
    g0efilter.Text.contains g0efilter.Entry.validate_domain g0efilter.Pattern.is_regex_pattern
    g0efilter.Text.trim_suffix g0efilter.Entry.validate_labels g0efilter.Text.split
    g0efilter.Entry.validate_label g0efilter.Entry.validate_label_chars
    g0efilter.Entry.is_all_digits g0efilter.Text.Runes.runes
config_accepted = refl

config-IsReadable : IsReadable env config
config-IsReadable = (policy, config_accepted)

abbrev unset : Environment
unset = record { allow_ips = []; allow_domains = codes " "; deny_ips = []; deny_domains = [] }

file_read : read yaml env unset file ≡ ok policy
unfolding read load_config trim_space
file_read = config_accepted

read-IsChecked_example : IsChecked env policy
read-IsChecked_example = read-IsChecked env yaml unset file policy file_read

append-IsReadable_example :
    Outcome yaml env yaml-RoundTrips domains_field file config
      (codes " b.example.com")
      (append yaml env domains_field file (codes " b.example.com"))
append-IsReadable_example =
    append-IsReadable yaml env yaml-RoundTrips domains_field file config (codes " b.example.com")
      config_loads config-IsReadable

abbrev seen_domain : LearnEntry
seen_domain = record { kind = codes "domain"; value = codes "b.example.com" }

abbrev seen_ip : LearnEntry
seen_ip = record { kind = codes "ip"; value = codes "198.51.100.7" }

abbrev calls : List Call
calls = observe seen_domain ∷ observe seen_ip ∷ tick ∷ observe seen_domain ∷ tick ∷ []

learner_stays-IsQueued_example :
    IsQueued
      (observed calls)
      (handed (run yaml env (start yaml env file) calls).lines)
      (run yaml env (start yaml env file) calls).learner
learner_stays-IsQueued_example = learner_stays-IsQueued yaml env file calls

both_learned :
    (run yaml env (start yaml env file) calls).lines ≡ learned seen_domain ∷ learned seen_ip ∷ []
unfolding run g0efilter.PolicyFile.append_domain g0efilter.PolicyFile.append_ip trim_space
    g0efilter.Entry.validate_domain g0efilter.Entry.validate_ip g0efilter.Pattern.is_regex_pattern
    g0efilter.Text.contains g0efilter.Text.trim_suffix g0efilter.Entry.validate_labels
    g0efilter.Text.split g0efilter.Entry.validate_label g0efilter.Entry.validate_label_chars
    g0efilter.Text.lower g0efilter.Entry.is_all_digits g0efilter.Text.Runes.runes
both_learned = refl

none_cut : ¬ (Any (IsCutLine yaml env) (run yaml env (start yaml env file) calls).lines)
none_cut = rw both_learned (λ h. elim h [ inl a ↦ a | inr k ↦ elim k [ inl b ↦ b | inr c ↦ c ] ])

learner_stays-IsSound_example :
    IsSound yaml env yaml-RoundTrips (run yaml env (start yaml env file) calls)
learner_stays-IsSound_example =
    learner_stays-IsSound yaml env yaml-RoundTrips file config calls config_loads config-IsReadable
      none_cut
