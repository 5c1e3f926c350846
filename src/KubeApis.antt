-- ===== src/KubeApis.antt =====
-- integrations/kube_apis: the selection of the pods by the images of their containers.
mod Tests
use postman_insights_agent.Prelude.{
  ℕ, ◌≢◌, ◌↔◌, String, Bool, true, false, not, Option, none, some, List, [], ◌∷◌, nat_beq,
  if◌then◌else◌, inl, inr, Bool-cases,
}

-- An image's name, by its bytes.
abbrev pub Image : Type 0
Image = List ℕ

-- strings.Split(image, ":")[0]
pub before_colon : Image → Image
before_colon [] = []
before_colon (c ∷ cs) = if nat_beq c b':' then [] else c ∷ before_colon cs

pub record Pod : Type 0 where
  pub pod_uid : String
  pub images : List Image

-- `equal_fold` is strings.EqualFold.
module _ (equal_fold : Image → Image → Bool) where
  pub is_image_equal : Image → Image → Bool
  unfolding before_colon
  is_image_equal image1 image2 = equal_fold (before_colon image1) (before_colon image2)

  -- The inner loop, which stops at the first container that passes. `!=` of two Booleans.
  abbrev differs : Bool → Bool → Bool
  differs true b = not b
  differs false b = b

  some_container : Image → Bool → List Image → Bool
  unfolding is_image_equal
  some_container container_image negate [] = false
  some_container container_image negate (image ∷ images) =
      let rest = some_container container_image negate images in
      if differs (is_image_equal container_image image) negate then true else rest

  pub filter_pods_by_container_image : List Pod → Image → Bool → List Pod
  unfolding some_container
  filter_pods_by_container_image [] container_image negate = []
  filter_pods_by_container_image (pod ∷ pods) container_image negate =
      let rest = filter_pods_by_container_image pods container_image negate in
      if some_container container_image negate pod.images then pod ∷ rest else rest
