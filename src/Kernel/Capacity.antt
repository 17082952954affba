-- ===== src/Kernel/Capacity.antt =====
-- What SimulatedKernel accepts.
use agent_control_center_cor.Base.{◌+◌, String, true, false, not, none, List, arith, ◌≡◌, All}
use agent_control_center_cor.Base.Lookup.{first_where-none}
use agent_control_center_cor.Base.Order.{All-weaken}
use agent_control_center_cor.Kernel.{
  WorkOffer, accept, SimulatedKernel, decide_offer, has, first_missing,
}

All-has :
    (set names : List String) → first_missing set names ≡ none → All (λ x. has set x ≡ true) names
All-has set names h =
    All-weaken (λ x. not (has set x) ≡ false) (λ x. has set x ≡ true) names (λ x k. ground arith)
      (first_where-none (λ x. not (has set x)) names h)

-- An offer that is accepted asks for nothing that the kernel lacks, and takes one of its
-- free runs.
pub decide_offer-accept :
    (offer : WorkOffer) (kernel after : SimulatedKernel)
    → decide_offer offer kernel ≡ (accept, after)
    → All (λ c. has kernel.capabilities c ≡ true) offer.required_capabilities
      × (All (λ s. has kernel.secrets s ≡ true) offer.required_secrets
          × (after.available_runs + 1 ≡ kernel.available_runs))
unfolding decide_offer
decide_offer-accept offer kernel after h =
    let nothing_missing : first_missing kernel.capabilities offer.required_capabilities ≡ none =
      ground arith in
    let all_secrets : first_missing kernel.secrets offer.required_secrets ≡ none = ground arith in
    (
      All-has kernel.capabilities offer.required_capabilities nothing_missing,
      (All-has kernel.secrets offer.required_secrets all_secrets, ground arith),
    )
