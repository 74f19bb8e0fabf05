-- ===== src/Nftables/Script.antt =====
-- What nft does with a script of these commands, as its manual documents it: `table` creates a table
-- that is missing, `delete table` fails on a table that is missing, a table with a body adds to
-- what the table holds, and a script that fails anywhere changes nothing.
use g0efilter.Prelude.{Option, none, some, List, [], ◌∷◌}
use g0efilter.Nftables.{Family, v4, v6, Chain, filter_output, nat_output, Table}
use g0efilter.Nftables.Kernel.{Hook, filter_hook, nat_hook}

-- `ip g0efilter_v4`, `ip g0efilter_nat_v4`, `ip6 g0efilter_v6` and `ip6 g0efilter_nat_v6`
pub data TableName : Type 0 where
  table_name : Family → Hook → TableName

pub data Command : Type 0 where
  create delete : TableName → Command
  load : Table → Command

-- The bodies that were loaded into each table since it was created, the latest first.
pub record Loaded : Type 0 where
  pub filter_v4 : Option (List Table)
  pub nat_v4 : Option (List Table)
  pub filter_v6 : Option (List Table)
  pub nat_v6 : Option (List Table)

abbrev pub get : TableName → Loaded → Option (List Table)
get (table_name v4 filter_hook) l = l.filter_v4
get (table_name v4 nat_hook) l = l.nat_v4
get (table_name v6 filter_hook) l = l.filter_v6
get (table_name v6 nat_hook) l = l.nat_v6

abbrev pub put : TableName → Option (List Table) → Loaded → Loaded
put (table_name v4 filter_hook) o l = record l { filter_v4 = o }
put (table_name v4 nat_hook) o l = record l { nat_v4 = o }
put (table_name v6 filter_hook) o l = record l { filter_v6 = o }
put (table_name v6 nat_hook) o l = record l { nat_v6 = o }

abbrev pub hook_of : Chain → Hook
hook_of (filter_output policy rules) = filter_hook
hook_of (nat_output rules) = nat_hook

unfoldable pub name_of : Table → TableName
name_of t = table_name t.family (hook_of t.chain)

abbrev pub bodies : Option (List Table) → List Table
bodies none = []
bodies (some ts) = ts

unfoldable pub run_command : Command → Loaded → Option Loaded
run_command (create n) l = some (put n (some (bodies (get n l))) l)
run_command (delete n) l = elim (get n l) [ none ↦ none | some ts ↦ some (put n none l) ]
run_command (load t) l = some (put (name_of t) (some (t ∷ bodies (get (name_of t) l))) l)

unfoldable pub run_script : List Command → Loaded → Option Loaded
unfolding run_command
run_script [] l = some l
run_script (c ∷ cs) l = elim (run_command c l) [ none ↦ none | some l' ↦ run_script cs l' ]
