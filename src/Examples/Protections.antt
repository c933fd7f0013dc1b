-- ===== src/Examples/Protections.antt =====
-- CPAS and IAP on concrete grants.
use sas_core.Prelude.{◌≡◌, none, some, [], ◌∷◌, ◌++◌, any}
use sas_core.Prelude.Int.{pos}
use sas_core.Cpas.Decisions.{CpasDecision, merge_constraint_decisions}
use sas_core.Cpas.Apply.{apply_cpas_decisions}
use sas_core.Cpas.Merged.{terminating, merge-terminating}
use sas_core.Cpas.Lowered.{AllTamer}
use sas_core.Cpas.Applied.{apply_cpas-AllTamer}
use sas_core.Examples.Data.{tables}

abbrev weaken : CpasDecision
weaken = record {
  grant_pk = some 7;
  grant_id = "grant/a";
  cbsd_id = "fcc/1";
  reason = "iap";
  action = "reduce_power";
  authorized_eirp = some (pos 10000);
  explanation = "";
}

abbrev stop : CpasDecision
stop = record weaken { reason = "peer_ppa"; action = "terminate"; authorized_eirp = none }

merge-terminating_example :
    any (terminating 7) (merge_constraint_decisions (stop ∷ []) (weaken ∷ []) [])
    ≡ any (terminating 7) ((stop ∷ []) ++ ((weaken ∷ []) ++ []))
merge-terminating_example = merge-terminating (stop ∷ []) (weaken ∷ []) [] 7

apply_cpas-AllTamer_example :
    AllTamer 5 (apply_cpas_decisions tables ((1, weaken) ∷ (2, stop) ∷ [])).0.grants tables.grants
apply_cpas-AllTamer_example = apply_cpas-AllTamer 5 tables ((1, weaken) ∷ (2, stop) ∷ []) (tt, tt)
