-- ===== src/Examples/Roles.antt =====
-- The theorems on node policies, applied.
use pinsight.Common.{
  ℕ, true, false, Option, none, some, List, [], ◌∷◌, if◌then◌else◌, ◌==◌, codes, str_eq, ◌≡◌, refl,
  arith,
}
use pinsight.Common.Int.{pos, negsuc}
use pinsight.Config.Mode.{leader_per_node, rotate_per_node, anyone_per_node, policy_off}
use pinsight.Node.{
  NodeState, launcher_topology_env, topology_from_env, local_rank, node_role, look_up, set_value,
  local_rank_from_env,
}
use pinsight.Node.Roles.{values, IsFirstValid, topology_from_env-IsFirstValid, node_role-leader}
use pinsight.Node.Stable.{Call, call, after_calls, node_role-stable}

-- Slurm runs local rank 2; nothing else is set.
abbrev slurm : List ℕ → Option (List ℕ)
slurm name = if str_eq name (codes "SLURM_LOCALID") then some (codes "2") else none

abbrev no_roles : NodeState
no_roles = record { claims = []; roles = [] }

topology_from_env-IsFirstValid_example :
    IsFirstValid
      (pos 0)
      (values slurm false launcher_topology_env)
      (topology_from_env slurm false (pos 0))
topology_from_env-IsFirstValid_example = topology_from_env-IsFirstValid slurm false (pos 0)

slurm-rank : local_rank slurm (negsuc 0) ≡ pos 2
unfolding local_rank local_rank_from_env topology_from_env str_eq
slurm-rank = refl

slurm-undecided : set_value (slurm (codes "PINSIGHT_NODE_LEADER")) ≡ none
unfolding str_eq
slurm-undecided = refl

nothing-cached : look_up (codes "energy") no_roles.roles ≡ none
unfolding look_up
nothing-cached = refl

node_role-leader_example :
    ((node_role slurm (negsuc 0) true (codes "energy") leader_per_node no_roles).1
      ≡ (if 2 == 0 then 1 else 0))
    × ((node_role slurm (negsuc 0) true (codes "energy") rotate_per_node no_roles).1
        ≡ (if 2 == 0 then 1 else 0))
node_role-leader_example =
    node_role-leader slurm (negsuc 0) true (codes "energy") no_roles 2 slurm-undecided slurm-rank
      nothing-cached

abbrev first_call : Call
first_call = record {
  env = slurm;
  mpi_local_rank = negsuc 0;
  acquired = true;
  lockname = codes "energy";
  policy = anyone_per_node;
}

abbrev later_call : Call
later_call = record first_call { acquired = false; policy = policy_off }

node_role-stable_example :
    (call later_call (after_calls (first_call ∷ later_call ∷ []) (call first_call no_roles).0)).1
    ≡ (call first_call no_roles).1
node_role-stable_example =
    node_role-stable first_call later_call (first_call ∷ later_call ∷ []) no_roles (omega arith)
      (omega arith) refl
