-- ===== src/Images.antt =====
-- pkg/utils/images.go: the names of images in the registries of Delorean and of OSBS. An index out of
-- range is a panic.
pub mod Names
mod Examples
use delorean.Base.{
  ℕ, zero, suc, List, [], ◌∷◌, ◌++◌, Bool, true, false, ◌&&◌, not, ◌==◌, Option, none, some, Text,
  codes, text_eq, split, cut, get_elem?, if◌then◌else◌, Result, ok, err, panic, or_panic, ◌>>=◌,
}

-- Neither function has an error of its own.
abbrev pub Indexed : Type 0 → Type 0
Indexed A = Result Text A

abbrev pub part : List Text → ℕ → Indexed Text
part parts i = or_panic (get_elem? parts i)

abbrev pub osbs_registry : Text
osbs_registry = codes "registry-proxy.engineering.redhat.com/rh-osbs"

abbrev pub delorean_registry : Text
delorean_registry = codes "quay.io/integreatly/delorean"

-- Without a digest: a name with a tag, or with more.
tagged : List Text → Indexed Text
tagged (name ∷ tag ∷ []) = ok (name ++ (codes ":" ++ (tag ++ codes "_latest")))
tagged parts = do
  name ← part parts 0
  tag ← part parts 1
  more ← part parts 2
  ok (name ++ (codes ":" ++ (tag ++ (codes "_" ++ more))))

-- `s[1]` of a split at the digests: what stands up to the next one.
abbrev digest : Text → Text
digest rest = elim (cut rest (codes "@sha256:")) [ none ↦ rest | some (first, more) ↦ first ]

-- `stripSHAOrTag`
unfoldable pub strip_sha_or_tag : Text → Indexed Text
unfolding tagged
strip_sha_or_tag image = elim (cut image (codes "@sha256:")) [
  | some (name, rest) ↦ ok (name ++ (codes "_" ++ digest rest))
  | none ↦ tagged (split image b':')
]

-- `s[0] == "quay.io" && s[1] == "integreatly"`
abbrev is_integreatly : List Text → Indexed Bool
is_integreatly parts = do
  first ← part parts 0
  if text_eq first (codes "quay.io")
      then (do second ← part parts 1; ok (text_eq second (codes "integreatly")))
      else ok false

integreatly_image : Text → Indexed Text
integreatly_image image = do tag ← part (split image b':') 1; ok (delorean_registry ++ tag)

renamed_image : List Text → Indexed Text
renamed_image parts = do
  second ← part parts 1
  third ← part parts 2
  strip_sha_or_tag (delorean_registry ++ (codes ":" ++ (second ++ (codes "-" ++ third))))

-- `BuildDeloreanImage`
unfoldable pub build_delorean_image : Text → Indexed Text
unfolding integreatly_image renamed_image
build_delorean_image image = do
  integreatly ← is_integreatly (split image b'/')
  if integreatly then integreatly_image image else renamed_image (split image b'/')

-- The image of the AMQ broker, from its tag.
abbrev amq_image : Text → List Text → Indexed Text
amq_image name amq = do
  tag ← part amq 1
  major ← part (split tag b'.') 0
  minor ← part (split tag b'.') 1
  majmin ← part (split minor b'-') 0
  ok (
      osbs_registry
      ++ (codes "/"
          ++ (name
              ++ (codes "-"
                  ++ (major
                      ++ (codes "-"
                          ++ (name
                              ++ (codes "-"
                                  ++ (major
                                      ++ (majmin
                                          ++ (codes "-openshift:"
                                              ++ (major ++ (codes "." ++ majmin)))))))))))))

plain_image : Text → List Text → Indexed Text
plain_image image parts = do
  let amq = split image b':'
  before_tag ← part amq 0
  name ← part (split before_tag b'/') 2
  if text_eq name (codes "amq-broker") then amq_image name amq else (do
    second ← part parts 1
    third ← part parts 2
    ok (osbs_registry ++ (codes "/" ++ (second ++ (codes "-" ++ third)))))

crw_image : List Text → List Text → Indexed Text
crw_image parts crw = do
  second ← part parts 1
  sha ← part crw 1
  ok (osbs_registry ++ (codes "/" ++ (second ++ (codes "-operator@" ++ sha))))

-- `BuildOSBSImage`: three products are named in their own way.
unfoldable pub build_osbs_image : Text → Indexed Text
unfolding plain_image crw_image
build_osbs_image image = do
  let parts = split image b'/'
  third ← part parts 2
  let crw = split third b'@'
  name ← part crw 0
  if text_eq name (codes "crw-2-rhel8-operator")
      then crw_image parts crw
      else (if text_eq name (codes "ose-cli")
          then (do sha ← part crw 1; ok (osbs_registry ++ (codes "/openshift-ose-cli@" ++ sha)))
          else plain_image image parts)
