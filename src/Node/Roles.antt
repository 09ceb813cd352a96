-- ===== src/Node/Roles.antt =====
-- Which process of a node gets the role, and that the answer does not change.
use pinsight.Common.{
  ℕ, Bool, true, false, Option, none, some, List, [], ◌∷◌, ◌==◌, if◌then◌else◌, codes, ◌≡◌, arith,
  inl, inr, Bool-cases, Option-cases,
}
use pinsight.Common.Int.{ℤ, pos, negsuc, ltb_ℤ}
use pinsight.Config.Mode.{leader_per_node, rotate_per_node}
use pinsight.Node.{
  atoi, LauncherEnv, launcher_topology_env, column, set_value, variable, first_valid,
  topology_from_env, local_rank, node_leader_status, leader_of_rank, look_up, NodeState, elect,
  node_role,
}

-- The numbers in the variables that are set, in probe order.
unfoldable pub values : (List ℕ → Option (List ℕ)) → Bool → List LauncherEnv → List ℤ
values env want_size [] = []
values env want_size (l ∷ ls) =
    let rest = values env want_size ls in
    elim (variable env (column want_size l)) [ none ↦ rest | some v ↦ atoi v ∷ rest ]

-- `r` is the first of the numbers that is not below `min_valid`, and -1 if there is none.
pub data IsFirstValid (min_valid : ℤ) : List ℤ → ℤ → Type 0 where
  none_valid : IsFirstValid min_valid [] (negsuc 0)
  skipped :
      {n r : ℤ} {ns : List ℤ}
      → ltb_ℤ n min_valid ≡ true
      → IsFirstValid min_valid ns r
      → IsFirstValid min_valid (n ∷ ns) r
  first : {r : ℤ} {ns : List ℤ} → ltb_ℤ r min_valid ≡ false → IsFirstValid min_valid (r ∷ ns) r

first_valid-IsFirstValid :
    (env : List ℕ → Option (List ℕ)) (want_size : Bool) (min_valid : ℤ) (ls : List LauncherEnv)
    → IsFirstValid min_valid (values env want_size ls) (first_valid env want_size min_valid ls)
unfolding values first_valid
first_valid-IsFirstValid env want_size min_valid [] = none_valid
first_valid-IsFirstValid env want_size min_valid (l ∷ ls) =
    let rest = first_valid-IsFirstValid env want_size min_valid ls in
    elim (Option-cases (variable env (column want_size l))) [
      | inl e ↦ rw (e, values, first_valid) rest
      | inr (v, e) ↦ elim (Bool-cases (ltb_ℤ (atoi v) min_valid)) [
        | inl b ↦ rw (e, values, first_valid, b) (skipped b rest)
        | inr b ↦ rw (e, values, first_valid, b) (first b)
      ]
    ]

-- topology_from_env returns the first number of the launchers' variables, in probe order, that is
-- not below the least valid one, and -1 if there is none.
pub topology_from_env-IsFirstValid :
    (env : List ℕ → Option (List ℕ)) (want_size : Bool) (min_valid : ℤ)
    → IsFirstValid min_valid
        (values env want_size launcher_topology_env)
        (topology_from_env env want_size min_valid)
unfolding topology_from_env
topology_from_env-IsFirstValid env want_size min_valid =
    first_valid-IsFirstValid env want_size min_valid launcher_topology_env

status :
    (env : List ℕ → Option (List ℕ)) (mpi_local_rank : ℤ) (r : ℕ)
    → set_value (env (codes "PINSIGHT_NODE_LEADER")) ≡ none
    → local_rank env mpi_local_rank ≡ pos r
    → node_leader_status env mpi_local_rank ≡ leader_of_rank r
unfolding node_leader_status local_rank
status env mpi_local_rank r he hr = ground arith

-- With PINSIGHT_NODE_LEADER not set and the local rank known, from the environment or from MPI,
-- the first answer of pinsight_node_role under the policies leader_per_node and rotate_per_node
-- is 1 for local rank 0 and 0 for every other rank, whatever the lock file says.
pub node_role-leader :
    (env : List ℕ → Option (List ℕ)) (mpi_local_rank : ℤ) (acquired : Bool) (lockname : List ℕ)
    (s : NodeState) (r : ℕ)
    → set_value (env (codes "PINSIGHT_NODE_LEADER")) ≡ none
    → local_rank env mpi_local_rank ≡ pos r
    → look_up lockname s.roles ≡ none
    → ((node_role env mpi_local_rank acquired lockname leader_per_node s).1
        ≡ (if r == 0 then 1 else 0))
      × ((node_role env mpi_local_rank acquired lockname rotate_per_node s).1
          ≡ (if r == 0 then 1 else 0))
unfolding node_role elect node_leader_status local_rank
node_role-leader env mpi_local_rank acquired lockname s r he hr hl =
    ground (arith, status env mpi_local_rank r he hr)
