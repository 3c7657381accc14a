-- ===== src/Broker/Examples/Targets.antt =====
-- The repository that a submission without a parent goes to.
use agent_work_relay.Prelude.{
  String, ◌≡◌, ◌⊎◌, refl, Option, none, some, ok, keep, is_space, all_codes, strip, is_blank,
  split_at, join, remove_suffix,
}
use agent_work_relay.Contracts.{WorkOrder}
use agent_work_relay.Broker.Repositories.{Url, parts_of, normalize_repository, resolve_repository}
use agent_work_relay.Broker.Repositories.Github.{
  AgreesWith, IsNewTarget, resolve_repository-IsGithub,
}

abbrev urlparse : String → Option Url
urlparse s = some (record {
  scheme = "https";
  hostname = some "github.com";
  username = none;
  password = none;
  path = "/ann//relay.git";
  query = "";
  fragment = "";
})

abbrev no_parent : Option WorkOrder
no_parent = none

target_resolves :
    resolve_repository urlparse none "main" (some " https://github.com/ann//relay.git") none none
    ≡ ok ("https://github.com/ann/relay", "main")
unfolding resolve_repository normalize_repository parts_of keep split_at remove_suffix join strip
    all_codes is_space is_blank
target_resolves = refl

resolve_repository-IsGithub_example :
    ((p : WorkOrder) × (no_parent ≡ some p)
      × ("https://github.com/ann/relay" ≡ p.repository_url)
      × ("main" ≡ p.base_ref)
      × AgreesWith urlparse (some " https://github.com/ann//relay.git") none p)
    ⊎ (no_parent ≡ none)
      × IsNewTarget urlparse none "main"
          (some " https://github.com/ann//relay.git")
          none
          "https://github.com/ann/relay"
          "main"
resolve_repository-IsGithub_example =
    resolve_repository-IsGithub urlparse none "main" (some " https://github.com/ann//relay.git")
      none none target_resolves
