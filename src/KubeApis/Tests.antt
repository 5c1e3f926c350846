-- ===== src/KubeApis/Tests.antt =====
-- integrations/kube_apis: a pod with an application and the agent's sidecar.
use postman_insights_agent.Prelude.{Bool, [], ◌∷◌, ◌==◌}
use postman_insights_agent.Prelude.Text.{codes, bytes_eq}
use postman_insights_agent.KubeApis.{Image, Pod}

abbrev equal_fold : Image → Image → Bool
equal_fold a b = a == b

abbrev agent : Image
agent = codes "postman/agent:latest"

abbrev app : Image
app = codes "shop:1.2"

abbrev pod : Pod
pod = record { pod_uid = "u1"; images = agent ∷ app ∷ [] }
