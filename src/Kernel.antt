-- ===== src/Kernel.antt =====
-- src/kernel/bridge.ts: the boundary to the kernel that runs the work, and SimulatedKernel.
pub mod Capacity
use agent_control_center_cor.Base.{
  ℕ, ◌-◌, String, Bool, not, Option, none, some, List, [], ◌∷◌, ◌++◌, eqb, ◌==◌, any, if◌then◌else◌,
  first_where,
}
use agent_control_center_cor.Json.{Json}

-- The fields of a work offer that the code reads.
pub record WorkOffer : Type 0 where
  pub task_id : String
  pub run_id : String
  pub lease_id : String
  pub plan_digest : String
  pub required_capabilities : List String
  pub required_secrets : List String

pub data DeclineReason : Type 0 where
  repo_base_unavailable secret_missing capability_missing policy_bundle_unsupported capacity :
      DeclineReason

pub data OfferDecision : Type 0 where
  accept : OfferDecision
  decline : DeclineReason → Option String → OfferDecision

-- `KernelBridge`, of a kernel with the states `K`
pub record KernelBridge (K : Type 0) : Type 0 where
  pub decide_offer : WorkOffer → K → OfferDecision × K
  pub on_review_decision : Json → K → K

pub record SimulatedKernel : Type 0 where
  pub decisions : List Json
  pub secrets : List String
  pub capabilities : List String
  pub available_runs : ℕ

abbrev pub has : List String → String → Bool
has set x = any (λ y. y == x) set

-- The first of the names that the set lacks, where the loop over them returns.
abbrev pub first_missing : List String → List String → Option String
first_missing set names = first_where (λ name. not (has set name)) names

-- The capacity is a count of runs: `this.#capacity <= 0` is that it is 0.
abbrev pub decide_secrets : SimulatedKernel → Option String → OfferDecision × SimulatedKernel
decide_secrets kernel (some secret) = (decline secret_missing (some secret), kernel)
decide_secrets kernel none = (accept, record kernel { available_runs = kernel.available_runs - 1 })

abbrev pub decide_capabilities :
    SimulatedKernel → WorkOffer → Option String → OfferDecision × SimulatedKernel
decide_capabilities kernel offer (some capability) =
    (decline capability_missing (some capability), kernel)
decide_capabilities kernel offer none =
    decide_secrets kernel (first_missing kernel.secrets offer.required_secrets)

unfoldable pub decide_offer : WorkOffer → SimulatedKernel → OfferDecision × SimulatedKernel
decide_offer offer kernel =
    if eqb kernel.available_runs 0
    then (decline capacity none, kernel)
    else decide_capabilities kernel offer
        (first_missing kernel.capabilities offer.required_capabilities)

unfoldable pub on_review_decision : Json → SimulatedKernel → SimulatedKernel
on_review_decision decision kernel = record kernel { decisions = kernel.decisions ++ decision ∷ [] }

abbrev pub simulated_kernel : KernelBridge SimulatedKernel
simulated_kernel = record {
  decide_offer = λ offer k. decide_offer offer k;
  on_review_decision = λ d k. on_review_decision d k;
}
