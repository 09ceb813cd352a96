-- ===== src/Node/Stable.antt =====
-- The cache of pinsight_node_role: a process keeps the role it was given.
use pinsight.Common.{
  ℕ, zero, suc, ◌<◌, ◌≤◌, Bool, true, Option, none, some, List, [], ◌∷◌, ◌++◌, length, ltb, str_eq,
  ◌≡◌, refl, arith, inl, inr, Bool-cases, Option-cases, ap,
}
use pinsight.Common.Int.{ℤ}
use pinsight.Config.Mode.{
  NodePolicy, policy_off, policy_on, anyone_per_node, leader_per_node, rotate_per_node,
}
use pinsight.Node.{
  NodeLeaderStatus, node_unknown, node_leader, node_nonleader, node_leader_status, claim_unless,
  Cached, look_up, take, remember, NodeState, claim_node_singleton, elect, node_role,
}

-- A call of pinsight_node_role, in the environment it finds.
pub record Call : Type 0 where
  pub env : List ℕ → Option (List ℕ)
  pub mpi_local_rank : ℤ
  pub acquired : Bool
  pub lockname : List ℕ
  pub policy : NodePolicy

abbrev pub call : Call → NodeState → NodeState × ℕ
call c s = node_role c.env c.mpi_local_rank c.acquired c.lockname c.policy s

unfoldable pub after_calls : List Call → NodeState → NodeState
after_calls [] s = s
after_calls (c ∷ cs) s = after_calls cs (call c s).0

look_up-append :
    (name : List ℕ) (cs ds : List Cached) (v : ℕ)
    → look_up name cs ≡ some v
    → look_up name (cs ++ ds) ≡ some v
unfolding look_up
look_up-append name [] ds v h = cc
look_up-append name (c ∷ cs) ds v h = elim (Bool-cases (str_eq c.name name)) [
  | inl e ↦ ground arith
  | inr e ↦ ground (arith, look_up-append name cs ds v)
]

str_eq-take : (n : ℕ) (s : List ℕ) → length s ≤ n → str_eq (take n s) s ≡ true
unfolding str_eq
str_eq-take zero [] h = refl
str_eq-take zero (c ∷ s) h = absurd (omega arith)
str_eq-take (suc n) [] h = refl
str_eq-take (suc n) (c ∷ s) h = ground (arith, str_eq-take n s)

look_up-last :
    (name : List ℕ) (cs : List Cached) (d : Cached)
    → look_up name cs ≡ none
    → str_eq d.name name ≡ true
    → look_up name (cs ++ d ∷ []) ≡ some d.value
unfolding look_up
look_up-last name [] d h e = ground arith
look_up-last name (c ∷ cs) d h e = elim (Bool-cases (str_eq c.name name)) [
  | inl b ↦ ground arith
  | inr b ↦ ground (arith, look_up-last name cs d)
]

claim_node_singleton-roles :
    (acquired : Bool) (name : List ℕ) (s : NodeState)
    → (claim_node_singleton acquired name s).0.roles ≡ s.roles
unfolding claim_node_singleton
claim_node_singleton-roles acquired name s = ground arith

claim_unless-roles :
    (status : NodeLeaderStatus) (s : NodeState) (claimed : NodeState × ℕ)
    → claimed.0.roles ≡ s.roles
    → (claim_unless status s claimed).0.roles ≡ s.roles
claim_unless-roles node_leader s claimed h = refl
claim_unless-roles node_nonleader s claimed h = refl
claim_unless-roles node_unknown s claimed h = h

elect-roles :
    (env : List ℕ → Option (List ℕ)) (rank : ℤ) (acquired : Bool) (name : List ℕ)
    (policy : NodePolicy) (s : NodeState)
    → (elect env rank acquired name policy s).0.roles ≡ s.roles
unfolding elect
elect-roles env rank acquired name policy_off s = refl
elect-roles env rank acquired name policy_on s = refl
elect-roles env rank acquired name anyone_per_node s = claim_node_singleton-roles acquired name s
elect-roles env rank acquired name leader_per_node s =
    claim_unless-roles (node_leader_status env rank) s _
      (claim_node_singleton-roles acquired name s)
elect-roles env rank acquired name rotate_per_node s =
    claim_unless-roles (node_leader_status env rank) s _
      (claim_node_singleton-roles acquired name s)

elected : Call → NodeState → ℕ
elected c s = (elect c.env c.mpi_local_rank c.acquired c.lockname c.policy s).1

call-hit :
    (c : Call) (s : NodeState) (w : ℕ) → look_up c.lockname s.roles ≡ some w → call c s ≡ (s, w)
unfolding node_role
call-hit c s w e = rw (e, node_role) refl

call-miss :
    (c : Call) (s : NodeState)
    → look_up c.lockname s.roles ≡ none
    → ((call c s).1 ≡ elected c s)
      × ((call c s).0.roles ≡ remember c.lockname (elected c s) s.roles)
unfolding node_role elected
call-miss c s e =
    rw (e, node_role)
      (
        refl,
        ap (remember c.lockname (elected c s))
            (elect-roles c.env c.mpi_local_rank c.acquired c.lockname c.policy s),
      )

remember-keeps :
    (name other : List ℕ) (v w : ℕ) (cs : List Cached)
    → look_up name cs ≡ some v
    → look_up name (remember other w cs) ≡ some v
unfolding remember
remember-keeps name other v w cs h = elim (Bool-cases (ltb (length cs) 8)) [
  | inl e ↦ rw e (look_up-append name cs _ v h)
  | inr e ↦ rw e h
]

node_role-keeps :
    (name : List ℕ) (v : ℕ) (c : Call) (s : NodeState)
    → look_up name s.roles ≡ some v
    → look_up name (call c s).0.roles ≡ some v
node_role-keeps name v c s h = elim (Option-cases (look_up c.lockname s.roles)) [
  | inl e ↦ rw ((call-miss c s e).1) (remember-keeps name c.lockname v (elected c s) s.roles h)
  | inr (w, e) ↦ rw (call-hit c s w e) h
]

after_calls-keeps :
    (name : List ℕ) (v : ℕ) (cs : List Call) (s : NodeState)
    → look_up name s.roles ≡ some v
    → look_up name (after_calls cs s).roles ≡ some v
unfolding after_calls
after_calls-keeps name v [] s h = h
after_calls-keeps name v (c ∷ cs) s h =
    after_calls-keeps name v cs (call c s).0 (node_role-keeps name v c s h)

remember-found :
    (name : List ℕ) (v : ℕ) (cs : List Cached)
    → length name < 32
    → length cs < 8
    → look_up name cs ≡ none
    → look_up name (remember name v cs) ≡ some v
unfolding remember
remember-found name v cs h room e =
    let free : ltb (length cs) 8 ≡ true = ground arith in
    rw free (look_up-last name cs _ e (str_eq-take 31 name (omega arith)))

node_role-cached :
    (c : Call) (s : NodeState)
    → length c.lockname < 32
    → length s.roles < 8
    → look_up c.lockname (call c s).0.roles ≡ some (call c s).1
node_role-cached c s h room = elim (Option-cases (look_up c.lockname s.roles)) [
  | inl e ↦
      let (role, roles) = call-miss c s e in
      rw (role, roles) (remember-found c.lockname (elected c s) s.roles h room e)
  | inr (w, e) ↦ rw (call-hit c s w e) e
]

-- Where the name of the lock has less than 32 bytes and the cache has room, the role that a call
-- of pinsight_node_role returns is the one that every later call with that name returns, whatever
-- its policy, the environment and the lock file then are, and whatever calls come in between.
pub node_role-stable :
    (c later : Call) (between : List Call) (s : NodeState)
    → length c.lockname < 32
    → length s.roles < 8
    → later.lockname ≡ c.lockname
    → (call later (after_calls between (call c s).0)).1 ≡ (call c s).1
node_role-stable c later between s h room e =
    let kept = after_calls-keeps c.lockname (call c s).1 between _ (node_role-cached c s h room) in
    ap (λ r. r.1) (call-hit later _ (call c s).1 (rw e kept))
