-- ===== src/Node/Policy.antt =====
-- src/trace_config.c: the text of a node policy.
use pinsight.Common.{
  ℕ, zero, suc, ◌||◌, Option, none, some, List, [], ◌∷◌, ◌==◌, reverse, if◌then◌else◌, codes,
  str_case_eq, ◌≡◌, refl,
}
use pinsight.Common.Int.{ℤ, pos, negsuc}
use pinsight.Config.Mode.{
  NodePolicy, NodePolicyVal, policy_off, policy_on, anyone_per_node, leader_per_node,
  rotate_per_node,
}
use pinsight.Node.{atoi, take}

unfoldable pub nodepolicy_str : NodePolicy → List ℕ
nodepolicy_str policy_off = codes "off"
nodepolicy_str policy_on = codes "on"
nodepolicy_str anyone_per_node = codes "anyone_per_node"
nodepolicy_str leader_per_node = codes "leader_per_node"
nodepolicy_str rotate_per_node = codes "rotate_per_node"

abbrev pub skip_blanks : List ℕ → List ℕ
skip_blanks [] = []
skip_blanks (c ∷ s) = let rest = skip_blanks s in if (c == 32) || (c == 9) then rest else c ∷ s

abbrev pub drop_space : List ℕ → List ℕ
drop_space [] = []
drop_space (c ∷ s) =
    let rest = drop_space s in
    if (c == 32) || (c == 9) || (c == 13) || (c == 10) then rest else c ∷ s

-- The text before the first colon, and the text behind it.
abbrev pub before_colon : List ℕ → List ℕ
before_colon [] = []
before_colon (c ∷ s) = let rest = before_colon s in if c == 58 then [] else c ∷ rest

abbrev pub behind_colon : List ℕ → Option (List ℕ)
behind_colon [] = none
behind_colon (c ∷ s) = let rest = behind_colon s in if c == 58 then some s else rest

-- The buffer `base` of 64 bytes, its end trimmed.
unfoldable pub base_of : List ℕ → List ℕ
base_of val = reverse (drop_space (reverse (take 63 (before_colon val))))

-- The period in ms; 1000 without a positive one.
abbrev pub period : ℤ → ℕ
period (pos zero) = 1000
period (pos (suc n)) = suc n
period (negsuc n) = 1000

abbrev pub rotate_param : Option (List ℕ) → ℤ
rotate_param none = pos 0
rotate_param (some s) = atoi s

abbrev pub plain : NodePolicy → NodePolicyVal
plain policy = record { policy = policy; param = 0 }

-- The comparisons of pinsight_parse_nodepolicy.
unfoldable pub match_policy : List ℕ → Option (List ℕ) → NodePolicy → NodePolicyVal
unfolding nodepolicy_str
match_policy base param dflt =
    if str_case_eq base (codes "off")
    then plain policy_off
    else if str_case_eq base (codes "on")
    then plain policy_on
    else if str_case_eq base (codes "anyone_per_node")
    then plain anyone_per_node
    else if str_case_eq base (codes "leader_per_node")
    then plain leader_per_node
    else if str_case_eq base (codes "rotate_per_node")
    then record { policy = rotate_per_node; param = period (rotate_param param) }
    else plain dflt

unfoldable pub parse_nodepolicy : Option (List ℕ) → NodePolicy → NodePolicyVal
unfolding match_policy base_of
parse_nodepolicy none dflt = plain dflt
parse_nodepolicy (some val) dflt =
    let s = skip_blanks val in match_policy (base_of s) (behind_colon s) dflt

abbrev pub param_of : NodePolicy → ℕ
param_of rotate_per_node = 1000
param_of _ = 0

-- The text of a policy reads back as that policy, whatever the default; a rotation without a
-- period gets one of 1000 ms.
pub parse_nodepolicy-nodepolicy_str :
    (p dflt : NodePolicy)
    → parse_nodepolicy (some (nodepolicy_str p)) dflt ≡ record { policy = p; param = param_of p }
unfolding parse_nodepolicy match_policy base_of nodepolicy_str str_case_eq atoi
parse_nodepolicy-nodepolicy_str policy_off dflt = refl
parse_nodepolicy-nodepolicy_str policy_on dflt = refl
parse_nodepolicy-nodepolicy_str anyone_per_node dflt = refl
parse_nodepolicy-nodepolicy_str leader_per_node dflt = refl
parse_nodepolicy-nodepolicy_str rotate_per_node dflt = refl
