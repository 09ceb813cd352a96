-- ===== src/Node.antt =====
-- src/trace_config.c: the node policies, which process of a node makes a measurement. `env` is
-- getenv and `mpi_local_rank`, `mpi_ranks_per_node` are the values that the MPI wrappers publish.
-- `acquired` is whether the lock file was opened and flock gave the lock. Numbers that atoi reads
-- are assumed to fit an `int`.
pub mod Policy
pub mod Roles
pub mod Stable
use pinsight.Common.{
  ℕ, zero, suc, ◌+◌, ◌-◌, ◌*◌, Bool, true, false, not, ◌&&◌, ◌||◌, Option, none, some, List, [],
  ◌∷◌, ◌++◌, length, ltb, ◌==◌, if◌then◌else◌, codes, str_eq, is_space, is_digit,
}
use pinsight.Common.Int.{ℤ, pos, negsuc, ltb_ℤ}
use pinsight.Config.Mode.{
  NodePolicy, policy_off, policy_on, anyone_per_node, leader_per_node, rotate_per_node,
}

-- The digits at the start of a text, after `n`.
unfoldable pub read_digits : ℕ → List ℕ → ℕ
read_digits n [] = n
read_digits n (c ∷ s) =
    let rest = read_digits (n * 10 + (c - 48)) s in if is_digit c then rest else n

-- -n.
abbrev pub negated : ℕ → ℤ
negated zero = pos zero
negated (suc n) = negsuc n

abbrev pub read_signed : List ℕ → ℤ
read_signed [] = pos 0
read_signed (c ∷ s) =
    if c == 45
    then negated (read_digits 0 s)
    else if c == 43
    then pos (read_digits 0 s)
    else pos (read_digits 0 (c ∷ s))

-- atoi of the C library.
unfoldable pub atoi : List ℕ → ℤ
unfolding read_digits
atoi [] = pos 0
atoi (c ∷ s) = let rest = atoi s in if is_space c then rest else read_signed (c ∷ s)

pub record LauncherEnv : Type 0 where
  pub rank : List ℕ
  pub size : Option (List ℕ)

abbrev pub launcher_topology_env : List LauncherEnv
launcher_topology_env =
    record { rank = codes "FLUX_TASK_LOCAL_ID"; size = none }
    ∷ record { rank = codes "SLURM_LOCALID"; size = some (codes "SLURM_NTASKS_PER_NODE") }
    ∷ record {
      rank = codes "OMPI_COMM_WORLD_LOCAL_RANK";
      size = some (codes "OMPI_COMM_WORLD_LOCAL_SIZE");
    }
    ∷ record { rank = codes "MPI_LOCALRANKID"; size = some (codes "MPI_LOCALNRANKS") }
    ∷ []

abbrev pub column : Bool → LauncherEnv → Option (List ℕ)
column want_size l = if want_size then l.size else some l.rank

-- The value of a variable that is set and not empty.
abbrev pub set_value : Option (List ℕ) → Option (List ℕ)
set_value none = none
set_value (some []) = none
set_value (some (c ∷ s)) = some (c ∷ s)

abbrev pub variable : (List ℕ → Option (List ℕ)) → Option (List ℕ) → Option (List ℕ)
variable env none = none
variable env (some name) = set_value (env name)

-- The loop of topology_from_env.
unfoldable pub first_valid : (List ℕ → Option (List ℕ)) → Bool → ℤ → List LauncherEnv → ℤ
unfolding atoi
first_valid env want_size min_valid [] = negsuc 0
first_valid env want_size min_valid (l ∷ ls) =
    let rest = first_valid env want_size min_valid ls in
    elim (variable env (column want_size l)) [
      | none ↦ rest
      | some v ↦ if ltb_ℤ (atoi v) min_valid then rest else atoi v
    ]

unfoldable pub topology_from_env : (List ℕ → Option (List ℕ)) → Bool → ℤ → ℤ
unfolding first_valid
topology_from_env env want_size min_valid =
    first_valid env want_size min_valid launcher_topology_env

unfoldable pub local_rank_from_env : (List ℕ → Option (List ℕ)) → ℤ
unfolding topology_from_env
local_rank_from_env env = topology_from_env env false (pos 0)

-- pinsight_local_rank.
unfoldable pub local_rank : (List ℕ → Option (List ℕ)) → ℤ → ℤ
unfolding local_rank_from_env
local_rank env mpi_local_rank = elim (local_rank_from_env env) [
  | pos r ↦ pos r
  | negsuc _ ↦ mpi_local_rank
]

-- pinsight_ranks_per_node.
unfoldable pub ranks_per_node : (List ℕ → Option (List ℕ)) → ℤ → ℤ
unfolding topology_from_env
ranks_per_node env mpi_ranks_per_node =
    if ltb_ℤ (pos 0) mpi_ranks_per_node
    then mpi_ranks_per_node
    else topology_from_env env true (pos 1)

pub data NodeLeaderStatus : Type 0 where
  node_unknown node_nonleader node_leader : NodeLeaderStatus

abbrev pub leader_of_rank : ℕ → NodeLeaderStatus
leader_of_rank r = if r == 0 then node_leader else node_nonleader

abbrev pub is_one : ℤ → Bool
is_one (pos n) = n == 1
is_one (negsuc n) = false

unfoldable pub node_leader_status : (List ℕ → Option (List ℕ)) → ℤ → NodeLeaderStatus
unfolding local_rank_from_env atoi
node_leader_status env mpi_local_rank = elim (set_value (env (codes "PINSIGHT_NODE_LEADER"))) [
  | some v ↦ if is_one (atoi v) then node_leader else node_nonleader
  | none ↦ elim (local_rank_from_env env) [
    | pos r ↦ leader_of_rank r
    | negsuc _ ↦ elim mpi_local_rank [ pos r ↦ leader_of_rank r | negsuc _ ↦ node_unknown ]
  ]
]

-- An entry of a static cache: the first 31 bytes of a name, and a value.
pub record Cached : Type 0 where
  pub name : List ℕ
  pub value : ℕ

unfoldable pub look_up : List ℕ → List Cached → Option ℕ
look_up name [] = none
look_up name (c ∷ cs) =
    let rest = look_up name cs in if str_eq c.name name then some c.value else rest

-- strncpy into a field of 32 bytes that is zero.
abbrev pub take : ℕ → List ℕ → List ℕ
take zero s = []
take (suc n) [] = []
take (suc n) (c ∷ s) = c ∷ take n s

-- The caches have room for eight entries.
unfoldable pub remember : List ℕ → ℕ → List Cached → List Cached
remember name value cs =
    if ltb (length cs) 8 then cs ++ record { name = take 31 name; value = value } ∷ [] else cs

-- The static variables of claim_node_singleton and pinsight_node_role.
pub record NodeState : Type 0 where
  pub claims : List Cached
  pub roles : List Cached

unfoldable pub claim_node_singleton : Bool → List ℕ → NodeState → NodeState × ℕ
unfolding look_up remember
claim_node_singleton acquired name s = elim (look_up name s.claims) [
  | some won ↦ (s, won)
  | none ↦
      let won = if acquired then 1 else 0 in (record s { claims = remember name won s.claims }, won)
]

abbrev pub claim_unless : NodeLeaderStatus → NodeState → NodeState × ℕ → NodeState × ℕ
claim_unless node_leader s claimed = (s, 1)
claim_unless node_nonleader s claimed = (s, 0)
claim_unless node_unknown s claimed = claimed

-- The switch of pinsight_node_role.
unfoldable pub elect :
    (List ℕ → Option (List ℕ)) → ℤ → Bool → List ℕ → NodePolicy → NodeState → NodeState × ℕ
unfolding claim_node_singleton node_leader_status
elect env mpi_local_rank acquired lockname policy_off s = (s, 0)
elect env mpi_local_rank acquired lockname policy_on s = (s, 1)
elect env mpi_local_rank acquired lockname anyone_per_node s =
    claim_node_singleton acquired lockname s
elect env mpi_local_rank acquired lockname leader_per_node s =
    claim_unless (node_leader_status env mpi_local_rank) s
      (claim_node_singleton acquired lockname s)
elect env mpi_local_rank acquired lockname rotate_per_node s =
    claim_unless (node_leader_status env mpi_local_rank) s
      (claim_node_singleton acquired lockname s)

unfoldable pub node_role :
    (List ℕ → Option (List ℕ)) → ℤ → Bool → List ℕ → NodePolicy → NodeState → NodeState × ℕ
unfolding look_up elect remember
node_role env mpi_local_rank acquired lockname policy s = elim (look_up lockname s.roles) [
  | some role ↦ (s, role)
  | none ↦
      let (s', role) = elect env mpi_local_rank acquired lockname policy s in
      (record s' { roles = remember lockname role s'.roles }, role)
]
