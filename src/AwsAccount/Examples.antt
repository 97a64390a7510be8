-- ===== src/AwsAccount/Examples.antt =====
-- The cleanup of an account with an instance of cluster `a`, and with leftovers of the clusters `b` and `c`.
use delorean.Base.{
  ◌++◌, List, [], ◌∷◌, ◌≡◌, refl, none, some, true, false, Text, codes, text_eq, contains_text,
  replace_first, get, put, All, inl, inr,
}
use delorean.AwsAccount.{
  Services, Resource, Instance, Vpc, Bucket, Tags, Cleanup, init, clean_cluster, remove_objects,
  remove_bucket, remove_vpc, run, clean, extract_cluster_tag, is_velero_bucket,
}
use delorean.AwsAccount.Fetch.{tag_of, IsRunning}
use delorean.AwsAccount.Safety.{Justified, clean-Justified}
use delorean.AwsAccount.Spares.{SparesListed, run-Spares}
use delorean.AwsAccount.DryRun.{dry_run_removes_nothing}

abbrev cluster : Text → Tags
cluster value = (codes "kubernetes.io/cluster/" ++ value, codes "owned") ∷ []

abbrev running : Instance
running = record {
  state_name = codes "running";
  instance_id = codes "i-1";
  tag_set = cluster (codes "a");
}

abbrev terminated : Instance
terminated = record {
  state_name = codes "terminated";
  instance_id = codes "i-2";
  tag_set = cluster (codes "b");
}

abbrev groups : List (List Instance)
groups = (terminated ∷ running ∷ []) ∷ []

abbrev all_vpcs : List Vpc
all_vpcs =
    record { is_default = false; vpc_id = codes "vpc-a"; tag_set = cluster (codes "a") }
    ∷ record { is_default = false; vpc_id = codes "vpc-b"; tag_set = cluster (codes "b") }
    ∷ record {
      is_default = false;
      vpc_id = codes "vpc-c";
      tag_set = (codes "integreatly.org/clusterID", codes "c") ∷ [];
    }
    ∷ []

abbrev all_buckets : List Bucket
all_buckets =
    record {
      name = codes "managed-velero-b";
      location = some none;
      tagging = some ((codes "velero.io/infrastructureName", codes "b") ∷ []);
    }
    ∷ record {
      name = codes "managed-velero-a";
      location = some none;
      tagging = some ((codes "velero.io/infrastructureName", codes "a") ∷ []);
    }
    ∷ []

abbrev aws : Services
aws = record {
  reservations = some groups;
  vpcs = some all_vpcs;
  buckets = some all_buckets;
  cluster_service = λ t. true;
  list_objects = λ n. some (codes "backup" ∷ []);
  delete_objects = λ n. true;
  delete_bucket = λ n. true;
  delete_vpc = λ n. true;
}

calls_of_run :
    (run aws false (codes "us-east-1")).0.calls
    ≡ clean_cluster (codes "c")
      ∷ remove_objects (codes "managed-velero-b")
      ∷ remove_bucket (codes "managed-velero-b")
      ∷ remove_vpc (codes "vpc-b")
      ∷ []
unfolding run extract_cluster_tag is_velero_bucket text_eq contains_text replace_first get put
calls_of_run = refl

running_is : IsRunning running
unfolding text_eq extract_cluster_tag contains_text replace_first
running_is = (refl, λ e. cc e)

run-Spares_example :
    All (SparesListed aws (tag_of running.tag_set)) (run aws false (codes "us-east-1")).0.calls
run-Spares_example =
    run-Spares aws false (codes "us-east-1") running
      (terminated ∷ running ∷ [], inl refl, inr (inl refl)) running_is

abbrev leftover : Resource
leftover = record {
  id = codes "vpc-b";
  tags = cluster (codes "b");
  cluster_tag = codes "b";
  resource_type = codes "vpc";
}

abbrev fetched : Cleanup
fetched = record init { vpcs = leftover ∷ [] }

clean-Justified_example : All (Justified [] [] (leftover ∷ [])) (clean aws false fetched).0.calls
clean-Justified_example = clean-Justified aws false fetched refl

dry_run_removes_nothing_example :
    ((run aws true (codes "us-east-1")).0.calls ≡ [])
    × ((run aws true (codes "us-east-1")).0.deleted_resources ≡ [])
dry_run_removes_nothing_example = dry_run_removes_nothing aws (codes "us-east-1")

-- An RHMI tag with an empty value is handed to the cluster service as an empty tag.
abbrev empty_tag : Services
empty_tag = record aws {
  vpcs = some (
      record {
        is_default = false;
        vpc_id = codes "vpc";
        tag_set = (codes "integreatly.org/clusterID", []) ∷ [];
      }
      ∷ []);
  buckets = some [];
}

cleans_empty_tag : (run empty_tag false (codes "us-east-1")).0.calls ≡ clean_cluster [] ∷ []
unfolding run extract_cluster_tag is_velero_bucket text_eq contains_text replace_first get put
cleans_empty_tag = refl
