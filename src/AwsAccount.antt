-- ===== src/AwsAccount.antt =====
-- cmd/cleanupAwsAccount.go: removing the resources that deleted clusters leave in an AWS account.
-- The account is what the Describe and List calls return; each call that removes something is added to
-- a trace. Whether a call succeeds is up to AWS, a parameter of the model.
pub mod Fetch
pub mod Safety
pub mod Spares
pub mod DryRun
mod Examples
use delorean.Base.{
  length, leb, ℕ, List, [], ◌∷◌, ◌++◌, Bool, true, false, not, Option, none, some, ◌&&◌, ◌||◌, Text,
  codes, text_eq, contains_text, replace_first, Map, get, put, if◌then◌else◌,
}

-- The order of the list is the order in which `range` yields the map.
abbrev pub Tags : Type 0
Tags = Map Text

pub record Resource : Type 0 where
  pub id : Text
  pub tags : Tags
  pub cluster_tag : Text
  pub resource_type : Text

-- What the EC2 and S3 services say of the account.
pub record Instance : Type 0 where
  pub state_name : Text
  pub instance_id : Text
  pub tag_set : Tags

pub record Vpc : Type 0 where
  pub is_default : Bool
  pub vpc_id : Text
  pub tag_set : Tags

-- `none` is a call that failed. A bucket in us-east-1 has no location constraint.
pub record Bucket : Type 0 where
  pub name : Text
  pub location : Option (Option Text)
  pub tagging : Option Tags

pub record Services : Type 0 where
  pub reservations : Option (List (List Instance))
  pub vpcs : Option (List Vpc)
  pub buckets : Option (List Bucket)
  -- `cleanupWithClusterService` polled until all items were complete
  pub cluster_service : Text → Bool
  pub list_objects : Text → Option (List Text)
  pub delete_objects : Text → Bool
  pub delete_bucket : Text → Bool
  pub delete_vpc : Text → Bool

-- A call that removes something.
pub data Call : Type 0 where
  clean_cluster : Text → Call
  remove_objects : Text → Call
  remove_bucket : Text → Call
  remove_vpc : Text → Call

pub data AwsError : Type 0 where
  describe_instances describe_vpcs list_buckets cluster_service_timeout : AwsError

pub record Cleanup : Type 0 where
  pub osd_resources : Map (List Resource)
  pub rhmi_resources : Map (List Resource)
  pub deleted_resources : List Resource
  pub s3_buckets : List Resource
  pub vpcs : List Resource
  pub calls : List Call

abbrev pub init : Cleanup
init = record {
  osd_resources = [];
  rhmi_resources = [];
  deleted_resources = [];
  s3_buckets = [];
  vpcs = [];
  calls = [];
}

abbrev managed_velero_tag_prefix : Text
managed_velero_tag_prefix = codes "velero.io/infrastructureName"

abbrev velero_s3_bucket_prefix : Text
velero_s3_bucket_prefix = codes "managed-velero"

abbrev osd_cluster_tag_prefix : Text
osd_cluster_tag_prefix = codes "kubernetes.io/cluster/"

abbrev rhmi_resource_tag_prefix : Text
rhmi_resource_tag_prefix = codes "integreatly.org/clusterID"

unfoldable pub is_velero_bucket : Text → Bool
is_velero_bucket bucket_name = contains_text bucket_name velero_s3_bucket_prefix

-- The tag of the first key that matches, and whether it is an RHMI tag.
unfoldable pub extract_cluster_tag : Tags → Text × Bool
extract_cluster_tag [] = ([], false)
extract_cluster_tag ((key, value) ∷ tags) =
    let rest = extract_cluster_tag tags in
    if contains_text key osd_cluster_tag_prefix
    then (replace_first key osd_cluster_tag_prefix [], false)
    else if contains_text key rhmi_resource_tag_prefix
    then (value, true)
    else if contains_text key managed_velero_tag_prefix
    then (value, false)
    else rest

-- `m[tag] = append(m[tag], r...)`
pub append_at : Text → List Resource → Map (List Resource) → Map (List Resource)
append_at tag rs m = elim (get tag m) [ none ↦ put tag rs m | some old ↦ put tag (old ++ rs) m ]

-- `fetchEC2Instances`: instances that are not terminated hold their cluster's tag.
pub fetch_instance : Instance → Cleanup → Cleanup
unfolding append_at
fetch_instance i s =
    let tag = (extract_cluster_tag i.tag_set).0 in
    let r : Resource = record {
      id = i.instance_id;
      tags = i.tag_set;
      cluster_tag = tag;
      resource_type = codes "ec2Instance";
    } in
    if text_eq i.state_name (codes "terminated")
    then s
    else if not (text_eq tag [])
    then record s { osd_resources = append_at tag (r ∷ []) s.osd_resources }
    else s

pub fetch_instances : List Instance → Cleanup → Cleanup
unfolding fetch_instance
fetch_instances [] s = s
fetch_instances (i ∷ is) s = fetch_instances is (fetch_instance i s)

pub fetch_reservations : List (List Instance) → Cleanup → Cleanup
unfolding fetch_instances
fetch_reservations [] s = s
fetch_reservations (is ∷ rest) s = fetch_reservations rest (fetch_instances is s)

-- `fetchVpcs`
pub fetch_vpc : Vpc → Cleanup → Cleanup
unfolding append_at
fetch_vpc v s =
    let (tag, has_rhmi_tag) = extract_cluster_tag v.tag_set in
    let r : Resource = record {
      id = v.vpc_id;
      tags = v.tag_set;
      cluster_tag = tag;
      resource_type = codes "vpc";
    } in
    if v.is_default
    then s
    else if has_rhmi_tag
    then record s { rhmi_resources = append_at tag (r ∷ []) s.rhmi_resources }
    else record s { vpcs = s.vpcs ++ r ∷ [] }

pub fetch_vpcs : List Vpc → Cleanup → Cleanup
unfolding fetch_vpc
fetch_vpcs [] s = s
fetch_vpcs (v ∷ vs) s = fetch_vpcs vs (fetch_vpc v s)

-- `fetchS3Buckets`: a bucket whose location or tags cannot be read is ignored, and so is one of another
-- region.
abbrev pub region_of : Option Text → Text
region_of none = codes "us-east-1"
region_of (some region) = region

add_bucket : Text → Tags → Cleanup → Cleanup
unfolding append_at
add_bucket name tag_set s =
    let (tag, has_rhmi_tag) = extract_cluster_tag tag_set in
    let r : Resource = record {
      id = name;
      tags = tag_set;
      cluster_tag = tag;
      resource_type = codes "s3";
    } in
    if has_rhmi_tag
    then record s { rhmi_resources = append_at tag (r ∷ []) s.rhmi_resources }
    else record s { s3_buckets = s.s3_buckets ++ r ∷ [] }

pub fetch_bucket : Text → Bucket → Cleanup → Cleanup
unfolding add_bucket
fetch_bucket aws_region b s = elim b.location [
  | none ↦ s
  | some constraint ↦
      if text_eq (region_of constraint) aws_region
      then (elim b.tagging [ none ↦ s | some tag_set ↦ add_bucket b.name tag_set s ])
      else s
]

pub fetch_buckets : Text → List Bucket → Cleanup → Cleanup
unfolding fetch_bucket
fetch_buckets aws_region [] s = s
fetch_buckets aws_region (b ∷ bs) s = fetch_buckets aws_region bs (fetch_bucket aws_region b s)

abbrev pub record_call : Call → Cleanup → Cleanup
record_call c s = record s { calls = s.calls ++ c ∷ [] }

-- `_, ok := c.osdResources[tag]; !ok && tag != ""`
abbrev unused : Resource → Cleanup → Bool
unused r s = elim (get r.cluster_tag s.osd_resources) [
  | none ↦ not (text_eq r.cluster_tag [])
  | some _ ↦ false
]

-- `c.osdResources[tag] = append(c.osdResources[tag], r)`
abbrev keep_resource : Resource → Cleanup → Cleanup
keep_resource r s = record s { osd_resources = append_at r.cluster_tag (r ∷ []) s.osd_resources }

module _ (aws : Services) (dry_run : Bool) where
  -- The loop of `run` over the RHMI resources. It stops at a cluster-service error:
  -- the exit after an error of the service and the timeout of the wait are one here.
  clean_rhmi : Map (List Resource) → Cleanup → Cleanup × Option AwsError
  unfolding append_at
  clean_rhmi [] s = (s, none)
  clean_rhmi ((tag, resources) ∷ rest) s = elim (get tag s.osd_resources) [
    | some old ↦
        clean_rhmi rest (record s { osd_resources = put tag (old ++ resources) s.osd_resources })
    | none ↦ elim dry_run [
      | true ↦ clean_rhmi rest s
      | false ↦ elim (aws.cluster_service tag) [
        | false ↦ (record_call (clean_cluster tag) s, some cluster_service_timeout)
        | true ↦ clean_rhmi rest (record (record_call (clean_cluster tag) s) {
          deleted_resources = s.deleted_resources ++ resources;
        })
      ]
    ]
  ]

  -- `removeS3Bucket`: the objects go first, and a failure leaves the bucket.
  remove_s3_bucket : Text → Cleanup → Cleanup × Bool
  remove_s3_bucket name s = elim (aws.list_objects name) [
    | none ↦ (s, false)
    | some [] ↦ (record_call (remove_bucket name) s, aws.delete_bucket name)
    | some (o ∷ os) ↦
        let s' = record_call (remove_objects name) s in
        if aws.delete_objects name
        then (record_call (remove_bucket name) s', aws.delete_bucket name)
        else (s', false)
  ]

  -- One round of `cleanupUnusedVeleroS3Buckets`.
  pub clean_bucket : Resource → Cleanup → Cleanup
  unfolding remove_s3_bucket append_at
  clean_bucket b s =
      if is_velero_bucket b.id
      then (if unused b s
          then (if dry_run
              then s
              else (let (s', removed) = remove_s3_bucket b.id s in
                  if removed
                  then record s' { deleted_resources = s'.deleted_resources ++ b ∷ [] }
                  else s'))
          else keep_resource b s)
      else s

  pub clean_buckets : List Resource → Cleanup → Cleanup
  unfolding clean_bucket
  clean_buckets [] s = s
  clean_buckets (b ∷ bs) s = clean_buckets bs (clean_bucket b s)

  -- One round of `cleanupVpcs`: a VPC goes if its cluster is gone, or if it has no tag at all.
  pub clean_vpc : Resource → Cleanup → Cleanup
  unfolding append_at
  clean_vpc v s =
      if unused v s || leb (length v.tags) 0
      then (if dry_run
          then s
          else (let s' = record_call (remove_vpc v.id) s in
              if aws.delete_vpc v.id
              then record s' { deleted_resources = s'.deleted_resources ++ v ∷ [] }
              else s'))
      else keep_resource v s

  pub clean_vpcs : List Resource → Cleanup → Cleanup
  unfolding clean_vpc
  clean_vpcs [] s = s
  clean_vpcs (v ∷ vs) s = clean_vpcs vs (clean_vpc v s)

  -- `run` after the three fetches.
  pub clean : Cleanup → Cleanup × Option AwsError
  unfolding clean_rhmi clean_buckets clean_vpcs
  clean s =
      let (s', failed) = clean_rhmi s.rhmi_resources s in
      elim failed [
        | some e ↦ (s', some e)
        | none ↦ (clean_vpcs s'.vpcs (clean_buckets s'.s3_buckets s'), none)
      ]

  unfoldable pub run : Text → Cleanup × Option AwsError
  unfolding fetch_reservations fetch_vpcs fetch_buckets clean
  run aws_region = elim aws.reservations [
    | none ↦ (init, some describe_instances)
    | some reservations ↦
        let s = fetch_reservations reservations init in
        elim aws.vpcs [
          | none ↦ (s, some describe_vpcs)
          | some vpcs ↦
              let s = fetch_vpcs vpcs s in
              elim aws.buckets [
                | none ↦ (s, some list_buckets)
                | some buckets ↦ clean (fetch_buckets aws_region buckets s)
              ]
        ]
  ]
