-- ===== src/Images/Examples.antt =====
-- The names of some images.
use delorean.Base.{cut, Text, text_eq, [], ◌∷◌, codes, count, ◌↔◌, ◌≤◌, ◌≡◌, refl, ok, panic, split}
use delorean.Images.{strip_sha_or_tag, build_delorean_image, build_osbs_image}
use delorean.Images.Names.{IsRenamed, build_delorean_image-IsRenamed}

abbrev tagged_image : Text
tagged_image = codes "my.registry.io/myrepo/test-operator:1.0"

without_tag :
    build_delorean_image (codes "my.registry.io/myrepo/test-operator")
    ≡ ok (codes "quay.io/integreatly/delorean:myrepo-test-operator_latest")
unfolding build_delorean_image split text_eq strip_sha_or_tag cut
without_tag = refl

with_tag :
    build_delorean_image tagged_image
    ≡ ok (codes "quay.io/integreatly/delorean:myrepo-test-operator_1.0")
unfolding build_delorean_image split text_eq strip_sha_or_tag cut
with_tag = refl

with_digest :
    build_delorean_image (codes "r.io/myrepo/op@sha256:1b")
    ≡ ok (codes "quay.io/integreatly/delorean:myrepo-op_1b")
unfolding build_delorean_image split text_eq strip_sha_or_tag cut
with_digest = refl

-- The tag follows the name without a colon.
integreatly :
    build_delorean_image (codes "quay.io/integreatly/op:v1")
    ≡ ok (codes "quay.io/integreatly/deloreanv1")
unfolding build_delorean_image split text_eq
integreatly = refl

amq_broker :
    build_osbs_image (codes "registry.redhat.io/amq7/amq-broker:7.6")
    ≡ ok (
        codes
          "registry-proxy.engineering.redhat.com/rh-osbs/amq-broker-7-amq-broker-76-openshift:7.6")
unfolding build_osbs_image split text_eq
amq_broker = refl

crw :
    build_osbs_image
      (codes "registry.redhat.io/codeready-workspaces/crw-2-rhel8-operator@sha256:02")
    ≡ ok (
        codes
          "registry-proxy.engineering.redhat.com/rh-osbs/codeready-workspaces-operator@sha256:02")
unfolding build_osbs_image split text_eq
crw = refl

short : build_osbs_image (codes "registry.redhat.io/op:1") ≡ panic
unfolding build_osbs_image split
short = refl

build_delorean_image-IsRenamed_example :
    IsRenamed (codes "myrepo" ∷ codes "test-operator:1.0" ∷ []) (build_delorean_image tagged_image)
    × ((build_delorean_image tagged_image ≡ panic) ↔ (count b'/' tagged_image ≤ 1))
unfolding split text_eq
build_delorean_image-IsRenamed_example =
    build_delorean_image-IsRenamed tagged_image (codes "my.registry.io")
      (codes "myrepo" ∷ codes "test-operator:1.0" ∷ []) refl refl
