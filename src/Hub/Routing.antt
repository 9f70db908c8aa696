-- ===== src/Hub/Routing.antt =====
-- Which Agents the Hub uses (internal/hub/service.go): ResolveAgent, and the lists of skills and
-- extensions that a registration policy compares.
use agent_federation_hub.Base.{
  String, Bool, ◌&&◌, ◌||◌, not, List, [], ◌∷◌, ◌==◌, text_ltb, if◌then◌else◌, map, select,
}
use agent_federation_hub.Base.Text.{trim, is_blank, contains}
use agent_federation_hub.Base.Sort.{sort}
use agent_federation_hub.Model.{Agent}
use agent_federation_hub.Store.State.{invalid, rejected, Result, ok, err, JournalStore}
use agent_federation_hub.Store.Control.{get_agent, list_agents}
use agent_federation_hub.Federation.{Extension}

-- hasSkill
unfoldable pub has_skill : Agent → String → Bool
unfolding contains
has_skill a skill = contains skill a.skills

-- AgentHealthUnhealthy or AgentHealthStale
unfoldable pub is_unhealthy : Agent → Bool
is_unhealthy a = a.health_status == "UNHEALTHY" || a.health_status == "STALE"

unfoldable pub check_agent : String → Result Agent → Result Agent
unfolding has_skill is_unhealthy
check_agent skill (err e) = err e
check_agent skill (ok a) =
    if not (is_blank skill) && not (has_skill a skill)
    then err (rejected "Agent does not declare skill")
    else if is_unhealthy a
    then err (rejected "Agent is unhealthy")
    else ok a

-- The first healthy Agent of the list with the skill.
unfoldable pub find_agent : String → List Agent → Result Agent
unfolding has_skill is_unhealthy
find_agent skill [] = err (rejected "no healthy Agent declares skill")
find_agent skill (a ∷ as') =
    let later = find_agent skill as' in
    if not (is_unhealthy a) && has_skill a skill then ok a else later

unfoldable pub resolve_agent : String → String → String → JournalStore → Result Agent
unfolding check_agent find_agent get_agent list_agents
resolve_agent tenant agent_id skill s =
    if not (is_blank agent_id)
    then check_agent skill (get_agent tenant agent_id s)
    else if is_blank skill
    then err (invalid "agent ID or skill is required")
    else find_agent skill (list_agents tenant s)

-- missingSkills: the required names that are not declared
unfoldable pub missing_skills : List String → List String → List String
unfolding contains
missing_skills required declared = select (λ x. not (contains x declared)) required

-- disallowedSkills: the declared names that are not allowed, if any are named at all
unfoldable pub disallowed_skills : List String → List String → List String
unfolding contains
disallowed_skills [] declared = []
disallowed_skills (a ∷ allowed) declared = select (λ x. not (contains x (a ∷ allowed))) declared

-- extensionURIs
unfoldable pub extension_uris : List Extension → List String
unfolding sort trim
extension_uris declared =
    sort text_ltb (select (λ x. not (x == "")) (map (λ (e : Extension). trim e.uri) declared))
