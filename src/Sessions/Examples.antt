-- ===== src/Sessions/Examples.antt =====
-- The theorems on the table of conversations at concrete tables.
use cpa_codex_quota_schedule.Common.{
  ◌*◌, true, [], ◌∷◌, ◌≡◌, refl, arith, Text, text, Dict, second, revise,
}
use cpa_codex_quota_schedule.Concurrency.Ledger.{Gate}
use cpa_codex_quota_schedule.Sessions.Table.{
  Binding, Host, Table, snapshot_sessions, restore_sessions, is_hash, valid_only,
}
use cpa_codex_quota_schedule.Sessions.Bounds.{IsTable, binds, prunes, restores, run, run-IsTable}
use cpa_codex_quota_schedule.Sessions.Saved.{restore-snapshot}

abbrev idle_gate : Gate
idle_gate = record {
  requests = [];
  tokens = [];
  completed = [];
  completed_ids = [];
  completed_next = 0;
  aliases = [];
  supported = true;
  waiting = 0;
  waits = 0;
  rejected = 0;
  sequence = 0;
  rejections = [];
}

abbrev host : Host
host = record { sticky_seconds = 60; gate = idle_gate; pending = [] }

abbrev hash : Text
hash = text "00112233445566778899aabbccddeeff"

abbrev binding : Binding
binding = record { auth_id = text "a"; auth_index = text "1"; last_used_at = 5 * second }

abbrev none_bound : Table
none_bound = record { sessions = []; pruned_at = 0; switches = 0; clock = 0 }

abbrev one_bound : Table
one_bound = record none_bound { sessions = (hash, binding) ∷ [] }

run-IsTable_example : IsTable (
    run one_bound (
      (host, binds (text "other") (text "b") (text "2") (6 * second))
      ∷ (host, prunes (90 * second))
      ∷ (host, restores ((hash, binding) ∷ []) (7 * second))
      ∷ []))
run-IsTable_example = run-IsTable one_bound _ (record { is_map = (tt, tt); bounded = omega arith })

restore-snapshot_example :
    let saved = snapshot_sessions one_bound host (9 * second) in
    ((restore_sessions none_bound host saved (20 * second)).sessions
      ≡ revise (valid_only host (20 * second)) saved)
    × (revise (valid_only host (9 * second)) saved ≡ saved)
unfolding is_hash
restore-snapshot_example =
    restore-snapshot one_bound none_bound host host (9 * second) (20 * second) (tt, tt) (refl, tt)
      refl (λ e. ground arith)

abbrev two_bound : Dict Binding
two_bound = (text "x", record binding { last_used_at = 7 * second }) ∷ (text "y", binding) ∷ []
